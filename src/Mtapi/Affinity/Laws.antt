-- ===== src/Mtapi/Affinity/Laws.antt =====
-- Reading an affinity mask that has been set (mtapi_c/src/mtapi_affinity_t.c).
use embb.Common.{ℕ, ◌≤◌, ◌<◌, ◌≡◌, ◌⊎◌, some, Bool, ◌==◌, if◌then◌else◌, arith}
use embb.Common.Bits.{bit-zero}
use embb.Base.Bitset.Laws.{is_set-eq-bit, is_set-set-clear, is_set-set_n}
use embb.Mtapi.Status.{success, err_core_num}
use embb.Mtapi.Affinity.{init, set, get}

-- On a node of at most 64 cores, `mtapi_affinity_set` on a core of the node succeeds, and afterwards
-- `mtapi_affinity_get` reads the affinity that was set at that core and what it read before at every
-- other; on any other core number it fails with MTAPI_ERR_CORE_NUM and leaves the mask alone.
pub get-set_affinity :
    (num_cores mask core other : ℕ) (affinity : Bool)
    → num_cores ≤ 64
    → other < num_cores
    → let (status, mask') = set (some num_cores) (some mask) core affinity in
      ((core < num_cores)
        × (status ≡ success)
        × (get (some num_cores) mask' other ≡ (
            if other == core then (success, affinity) else get (some num_cores) (some mask) other)))
      ⊎ ((num_cores ≤ core) × (status ≡ err_core_num) × (mask' ≡ some mask))
unfolding set get
get-set_affinity num_cores mask core other affinity h l =
    ground (arith, is_set-set-clear mask core other)

-- `mtapi_affinity_init` succeeds and gives the mask in which every core of the node has the given
-- affinity.
pub get-init_affinity :
    (num_cores mask core : ℕ) (affinity : Bool)
    → core < num_cores
    → let (status, mask') = init (some num_cores) (some mask) affinity in
      (status ≡ success) × (get (some num_cores) mask' core ≡ (success, affinity))
unfolding init get
get-init_affinity num_cores mask core affinity h =
    ground (arith, is_set-set_n num_cores core, is_set-eq-bit 0 core, bit-zero core)
