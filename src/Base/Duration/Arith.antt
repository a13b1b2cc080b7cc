-- ===== src/Base/Duration/Arith.antt =====
-- Sums and the order of durations (base_c/src/duration.c).
use Prim.Native.Nat
use embb.Common.{◌+◌, ◌*◌, ◌≤◌, ◌<◌, ◌≡◌, ◌⊎◌, arith}
use embb.Base.Errors.{success, overflow}
use embb.Base.Duration.{Duration, IsDuration, total, max_seconds, second, add, compare}

-- `add` of two durations gives a normalised duration within the bound whose length is the sum of
-- their lengths, if that sum is less than a second above a week, and otherwise reports an overflow
-- and leaves `lhs` alone.
pub total-add :
    (l r : Duration)
    → IsDuration l
    → IsDuration r
    → let (e, d) = add l r in
      ((total l + total r < (max_seconds + 1) * second)
        × (e ≡ success)
        × IsDuration d
        × (total d ≡ total l + total r))
      ⊎ (((max_seconds + 1) * second ≤ total l + total r) × (e ≡ overflow) × (d ≡ l))
unfolding add
total-add l r hl hr = ground arith

-- `compare` of two normalised durations compares their lengths.
pub compare-total :
    (l r : Duration)
    → l.nanoseconds < second
    → r.nanoseconds < second
    → compare l r ≡ Nat.compare (total l) (total r)
unfolding compare
compare-total l r hl hr = ground arith
