-- ===== src/Base/Time.antt =====
-- base_c/src/time.c, with the POSIX version of `embb_time_in`. The clock is a parameter: the point
-- in time that clock_gettime(CLOCK_REALTIME) gives.
pub mod Laws
mod Examples
use Prim.Native.Nat.{Ordering}
use embb.Common.{ℕ, ◌+◌, ◌-◌, ◌*◌, ◌%◌, ◌<◌, ltb, if◌then◌else◌}
use embb.Base.Errors.{Errors, success, overflow}
use embb.Base.Duration.{Duration, ull_mod, ull_max, second, carry_of}
use embb.Base.Duration

pub record Time : Type 0 where
  pub seconds : ℕ
  pub nanoseconds : ℕ

-- EMBB_TIME_MAX_SECONDS
abbrev pub max_seconds : ℕ
max_seconds = ull_max

-- The status, and what `*time` then holds. On an error that is the time of the clock.
-- `carry * 1000000000` is an `int`, which a carry of 0 or 1 does not overflow.
pub time_in : Time → Duration → Errors × Time
time_in now d =
    let carry = carry_of now.nanoseconds d.nanoseconds in
    if ltb max_seconds ((now.seconds + d.seconds + carry) % ull_mod) then (overflow, now) else (
      success,
      record {
        seconds = (now.seconds + d.seconds + carry) % ull_mod;
        nanoseconds = (now.nanoseconds + d.nanoseconds + ull_mod - carry * second) % ull_mod;
      },
    )

pub time_now : Time → Time
unfolding time_in
time_now now = (time_in now Duration.zero).1

pub compare : Time → Time → Ordering
compare l r =
    if ltb r.seconds l.seconds
    then Ordering.gt
    else if ltb l.seconds r.seconds
    then Ordering.lt
    else if ltb r.nanoseconds l.nanoseconds
    then Ordering.gt
    else if ltb l.nanoseconds r.nanoseconds
    then Ordering.lt
    else Ordering.eq

-- Nanoseconds since the epoch.
abbrev pub instant : Time → ℕ
instant t = t.seconds * second + t.nanoseconds

-- What POSIX says of the clock, with its seconds an `unsigned long long`.
pub record IsTime (t : Time) : Type 0 where
  pub normal : t.nanoseconds < second
  pub bounded : t.seconds < ull_mod
