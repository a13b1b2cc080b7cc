-- ===== src/Mtapi/Affinity/Examples.antt =====
-- Affinities at concrete values.
use embb.Common.{◌≤◌, ◌<◌, ◌≡◌, ◌⊎◌, some, true, false, ◌==◌, if◌then◌else◌, arith}
use embb.Mtapi.Status.{success, err_core_num}
use embb.Mtapi.Affinity.{init, set, get}
use embb.Mtapi.Affinity.Laws.{get-set_affinity, get-init_affinity}

get-set_affinity_test :
    let (status, mask') = set (some 4) (some 15) 2 false in
    ((2 < 4)
      × (status ≡ success)
      × (get (some 4) mask' 2 ≡ (if ◌==◌ 2 2 then (success, false) else get (some 4) (some 15) 2)))
    ⊎ ((4 ≤ 2) × (status ≡ err_core_num) × (mask' ≡ some 15))
get-set_affinity_test = get-set_affinity 4 15 2 2 false (omega arith) (omega arith)

get-init_affinity_test :
    let (status, mask') = init (some 4) (some 9) true in
    (status ≡ success) × (get (some 4) mask' 3 ≡ (success, true))
get-init_affinity_test = get-init_affinity 4 9 3 true (omega arith)
