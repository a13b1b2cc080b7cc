-- ===== src/Base/Time/Laws.antt =====
-- What `embb_time_in` and `embb_time_compare` compute (base_c/src/time.c).
use Prim.Native.Nat
use embb.Common.{◌+◌, ◌*◌, ◌≤◌, ◌<◌, ◌≡◌, ◌⊎◌, arith}
use embb.Base.Errors.{success}
use embb.Base.Duration.{Duration, IsDuration, total, second, ull_mod}
use embb.Base.Time.{Time, IsTime, instant, time_in, time_now, compare}

-- `embb_time_in` always succeeds and gives a normalised time. It lies the duration after the
-- clock's time, unless the seconds pass 2^64: then it is 2^64 seconds less.
pub instant-time_in :
    (now : Time) (d : Duration)
    → IsTime now
    → IsDuration d
    → let (e, t) = time_in now d in
      (e ≡ success)
      × IsTime t
      × (((instant now + total d < ull_mod * second) × (instant t ≡ instant now + total d))
          ⊎ ((ull_mod * second ≤ instant now + total d)
              × (instant t + ull_mod * second ≡ instant now + total d)))
unfolding time_in
instant-time_in now d h k = ground arith

-- `embb_time_compare` of two normalised times compares their distances from the epoch.
pub compare-instant :
    (l r : Time)
    → l.nanoseconds < second
    → r.nanoseconds < second
    → compare l r ≡ Nat.compare (instant l) (instant r)
unfolding compare
compare-instant l r hl hr = ground arith

-- A deadline `embb_time_in` computed from a clock is not passed at any time up to the duration
-- later, and is passed at every time after that, as the waits of mtapi_c test it:
-- `embb_time_compare(current, end) > 0`.
pub compare-time_in :
    (now later : Time) (d : Duration)
    → IsTime now
    → IsTime later
    → IsDuration d
    → instant now + total d < ull_mod * second
    → compare later (time_in now d).1 ≡ Nat.compare (instant later) (instant now + total d)
compare-time_in now later d h k l fits =
    ground (arith, instant-time_in now d h l, compare-instant later (time_in now d).1)

-- `embb_time_now` gives the time of the clock.
pub time_now_lem : (now : Time) → IsTime now → time_now now ≡ now
unfolding time_now
time_now_lem now h = ground arith
