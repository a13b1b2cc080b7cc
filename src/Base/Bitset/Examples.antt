-- ===== src/Base/Bitset/Examples.antt =====
-- Sets of cores at concrete values.
use Prim.Native.Nat.{min, max}
use embb.Common.{◌≡◌, refl, arith, ◌==◌, if◌then◌else◌, length}
use embb.Base.Bitset.{set, clear, is_set, set_n, intersect, union, count}
use embb.Base.Bitset.Laws.{is_set-set-clear, is_set-intersect-union}
use embb.Base.Bitset.Count.{members, count-eq-length, count-set_n}

is_set-set-clear_test :
    (is_set (set 5 3) 3 ≡ (if ◌==◌ 3 3 then 1 else is_set 5 3))
    × (is_set (clear 5 3) 3 ≡ (if ◌==◌ 3 3 then 0 else is_set 5 3))
is_set-set-clear_test = is_set-set-clear 5 3 3 (omega arith) (omega arith)

is_set-intersect-union_test :
    (is_set (intersect 6 3) 1 ≡ min (is_set 6 1) (is_set 3 1))
    × (is_set (union 6 3) 1 ≡ max (is_set 6 1) (is_set 3 1))
is_set-intersect-union_test = is_set-intersect-union 6 3 1

count-eq-length_test : count 37 ≡ length (members 37 64 0)
count-eq-length_test = count-eq-length 37

count-set_n_test : count (set_n 64) ≡ 64
count-set_n_test = count-set_n 64 (omega arith)

three_cores : count 37 ≡ 3
unfolding count
three_cores = refl
