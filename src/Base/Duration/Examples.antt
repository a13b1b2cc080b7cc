-- ===== src/Base/Duration/Examples.antt =====
-- Durations at concrete values.
use Prim.Native.Nat
use embb.Common.{◌+◌, ◌*◌, ◌≤◌, ◌<◌, ◌≡◌, ◌⊎◌, refl, arith}
use embb.Base.Errors.{success, overflow, underflow}
use embb.Base.Duration.{
  Duration, IsDuration, total, max_seconds, second, zero, set_nanoseconds, set_microseconds,
  set_milliseconds, set_seconds, as_nanoseconds, as_microseconds, as_milliseconds, as_seconds, add,
  compare,
}
use embb.Base.Duration.Convert.{
  Sets, as_nanoseconds-set_nanoseconds, as_microseconds-set_microseconds,
  as_milliseconds-set_milliseconds, as_seconds-set_seconds,
}
use embb.Base.Duration.Arith.{total-add, compare-total}

abbrev long : Duration
long = record { seconds = 604800; nanoseconds = 999999999 }

abbrev short : Duration
short = record { seconds = 1; nanoseconds = 500000000 }

as_nanoseconds-set_nanoseconds_test :
    let (e, d') = set_nanoseconds zero 1500000000 in
    ((1500000000 ≤ max_seconds * second)
      × (e ≡ success)
      × IsDuration d'
      × (total d' ≡ 1500000000)
      × (as_nanoseconds d' 0 ≡ (success, 1500000000)))
    ⊎ ((max_seconds * second < 1500000000) × (e ≡ overflow) × (d' ≡ zero))
as_nanoseconds-set_nanoseconds_test = as_nanoseconds-set_nanoseconds zero 1500000000 0 (omega arith)

as_microseconds-set_microseconds_test :
    Sets 1000 (max_seconds * 1000000) as_microseconds zero 2500000 7 (set_microseconds zero 2500000)
as_microseconds-set_microseconds_test =
    as_microseconds-set_microseconds zero 2500000 7 (omega arith)

as_milliseconds-set_milliseconds_test :
    Sets 1000000
      (max_seconds * 1000)
      as_milliseconds
      zero
      604800001
      7
      (set_milliseconds zero 604800001)
as_milliseconds-set_milliseconds_test =
    as_milliseconds-set_milliseconds zero 604800001 7 (omega arith)

as_seconds-set_seconds_test :
    Sets second max_seconds as_seconds short 3600 7 (set_seconds short 3600)
as_seconds-set_seconds_test = as_seconds-set_seconds short 3600 7 (omega arith)

total-add_example :
    let (e, d) = add short short in
    ((total short + total short < (max_seconds + 1) * second)
      × (e ≡ success)
      × IsDuration d
      × (total d ≡ total short + total short))
    ⊎ (((max_seconds + 1) * second ≤ total short + total short) × (e ≡ overflow) × (d ≡ short))
total-add_example = total-add short short (omega arith) (omega arith)

compare-total_test : compare short long ≡ Nat.compare (total short) (total long)
compare-total_test = compare-total short long (omega arith) (omega arith)

-- 2^61 microseconds are 73 000 years.
far_too_long : set_microseconds short 2305843009213693952 ≡ (underflow, short)
unfolding set_microseconds
far_too_long = refl

half_more : add short short ≡ (success, record { seconds = 3; nanoseconds = 0 })
unfolding add
half_more = refl

add_refuses : add long short ≡ (overflow, long)
unfolding add
add_refuses = refl
