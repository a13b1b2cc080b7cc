-- ===== src/Base/Time/Examples.antt =====
-- Points in time at concrete values.
use Prim.Native.Nat
use Prim.Native.Nat.{Ordering}
use embb.Common.{◌+◌, ◌*◌, ◌≤◌, ◌<◌, ◌≡◌, ◌⊎◌, refl, arith}
use embb.Base.Errors.{success}
use embb.Base.Duration.{Duration, total, second, ull_mod}
use embb.Base.Time.{Time, IsTime, instant, time_in, time_now, compare}
use embb.Base.Time.Laws.{instant-time_in, compare-instant, compare-time_in, time_now_lem}

abbrev noon : Time
noon = record { seconds = 43200; nanoseconds = 999999999 }

abbrev later : Time
later = record { seconds = 43201; nanoseconds = 10 }

abbrev ten_ms : Duration
ten_ms = record { seconds = 0; nanoseconds = 10000000 }

instant-time_in_example :
    let (e, t) = time_in noon ten_ms in
    (e ≡ success)
    × IsTime t
    × (((instant noon + total ten_ms < ull_mod * second)
          × (instant t ≡ instant noon + total ten_ms))
        ⊎ ((ull_mod * second ≤ instant noon + total ten_ms)
            × (instant t + ull_mod * second ≡ instant noon + total ten_ms)))
instant-time_in_example = instant-time_in noon ten_ms (omega arith) (omega arith)

compare-instant_test : compare noon later ≡ Nat.compare (instant noon) (instant later)
compare-instant_test = compare-instant noon later (omega arith) (omega arith)

compare-time_in_test :
    compare later (time_in noon ten_ms).1
    ≡ Nat.compare (instant later) (instant noon + total ten_ms)
compare-time_in_test =
    compare-time_in noon later ten_ms (omega arith) (omega arith) (omega arith) (omega arith)

time_now-noon : time_now noon ≡ noon
time_now-noon = time_now_lem noon (omega arith)

not_yet : compare later (time_in noon ten_ms).1 ≡ Ordering.lt
unfolding compare time_in
not_yet = refl
