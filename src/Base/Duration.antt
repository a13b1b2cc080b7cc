-- ===== src/Base/Duration.antt =====
-- base_c/src/duration.c. `unsigned long long` and `unsigned long` are 64 bits wide, and every sum
-- and product is taken modulo 2^64. Durations are bounded by platform.h: a week at most, and the
-- shortest is one nanosecond, as on POSIX.
use Prim.Native.Nat.{Ordering}
use embb.Common.{ℕ, ◌+◌, ◌-◌, ◌*◌, ◌/◌, ◌%◌, ◌^◌, ◌≤◌, ◌<◌, ltb, if◌then◌else◌, ◌&&◌}
use embb.Base.Errors.{Errors, success, overflow, underflow}
pub mod Convert
pub mod Arith
mod Examples

abbrev pub ull_mod : ℕ
ull_mod = 2 ^ 64

abbrev pub ull_max : ℕ
ull_max = ull_mod - 1

-- EMBB_DURATION_MAX_SECONDS and EMBB_DURATION_MIN_NANOSECONDS
abbrev pub max_seconds : ℕ
max_seconds = 60 * 60 * 24 * 7

abbrev pub min_nanoseconds : ℕ
min_nanoseconds = 1

abbrev pub second : ℕ
second = 1000000000

pub record Duration : Type 0 where
  pub seconds : ℕ
  pub nanoseconds : ℕ

abbrev pub max : Duration
max = record { seconds = max_seconds; nanoseconds = 0 }

abbrev pub min : Duration
min = record { seconds = 0; nanoseconds = min_nanoseconds }

abbrev pub zero : Duration
zero = record { seconds = 0; nanoseconds = 0 }

-- `(int)` of an unsigned value, read back as an `unsigned long long`: bit 31 is the sign.
abbrev pub int_cast : ℕ → ℕ
int_cast n = let c = n % 2 ^ 32 in if ltb c (2 ^ 31) then c else c + (ull_mod - 2 ^ 32)

-- The four setters return the status beside the duration, which they leave alone on an error.
pub set_nanoseconds : Duration → ℕ → Errors × Duration
set_nanoseconds d n =
    if ltb 0 n && ltb n min.nanoseconds
    then (underflow, d)
    else if ltb 0 n && ltb ((max.seconds * second + max.nanoseconds) % ull_mod) n
    then (overflow, d)
    else (success, record { seconds = n / second; nanoseconds = n % second })

pub set_microseconds : Duration → ℕ → Errors × Duration
set_microseconds d n =
    if ltb 0 n && ltb (n * 1000 % ull_mod) min.nanoseconds
    then (underflow, d)
    else if ltb 0 n && ltb ((max.seconds * 1000000 + max.nanoseconds / 1000) % ull_mod) n
    then (overflow, d)
    else (success, record { seconds = n / 1000000; nanoseconds = n % 1000000 * 1000 })

pub set_milliseconds : Duration → ℕ → Errors × Duration
set_milliseconds d n =
    if ltb 0 n && ltb (n * 1000000 % ull_mod) min.nanoseconds
    then (underflow, d)
    else if ltb 0 n && ltb ((max.seconds * 1000 + max.nanoseconds / 1000000) % ull_mod) n
    then (overflow, d)
    else (success, record { seconds = n / 1000; nanoseconds = n % 1000 * 1000000 })

pub set_seconds : Duration → ℕ → Errors × Duration
set_seconds d n =
    if ltb 0 n && ltb (n * second % ull_mod) min.nanoseconds
    then (underflow, d)
    else if ltb 0 n && ltb ((max.seconds + max.nanoseconds / second) % ull_mod) n
    then (overflow, d)
    else (success, record { seconds = n; nanoseconds = 0 })

abbrev pub carry_of : ℕ → ℕ → ℕ
carry_of a b = int_cast ((a + b) % ull_mod / second)

pub add : Duration → Duration → Errors × Duration
add l r =
    let carry = carry_of l.nanoseconds r.nanoseconds in
    if ltb max_seconds ((l.seconds + r.seconds + carry) % ull_mod) then (overflow, l) else (
      success,
      record {
        seconds = (l.seconds + r.seconds + carry) % ull_mod;
        nanoseconds = (l.nanoseconds + r.nanoseconds) % ull_mod % second;
      },
    )

-- The four getters return the status beside what `*out` then holds; `out` is what it held.
pub as_nanoseconds : Duration → ℕ → Errors × ℕ
as_nanoseconds d out =
    let total = (d.seconds * second + d.nanoseconds) % ull_mod in
    if ltb ull_max total then (overflow, out) else (success, total)

pub as_microseconds : Duration → ℕ → Errors × ℕ
as_microseconds d out =
    let total = (d.seconds * 1000000 + d.nanoseconds / 1000) % ull_mod in
    if ltb 0 (d.nanoseconds % 1000)
    then (underflow, out)
    else if ltb ull_max total
    then (overflow, out)
    else (success, total)

pub as_milliseconds : Duration → ℕ → Errors × ℕ
as_milliseconds d out =
    let total = (d.seconds * 1000 + d.nanoseconds / 1000000) % ull_mod in
    if ltb 0 (d.nanoseconds % 1000000)
    then (underflow, out)
    else if ltb ull_max total
    then (overflow, out)
    else (success, total)

pub as_seconds : Duration → ℕ → Errors × ℕ
as_seconds d out =
    if ltb 0 (d.nanoseconds % second)
    then (underflow, out)
    else if ltb ull_max d.seconds
    then (overflow, out)
    else (success, d.seconds)

-- 1, -1 and 0 of the C function are `gt`, `lt` and `eq`.
pub compare : Duration → Duration → Ordering
compare l r =
    if ltb r.seconds l.seconds
    then Ordering.gt
    else if ltb l.seconds r.seconds
    then Ordering.lt
    else if ltb r.nanoseconds l.nanoseconds
    then Ordering.gt
    else if ltb l.nanoseconds r.nanoseconds
    then Ordering.lt
    else Ordering.eq

-- A duration as the type means it: less than a second beside the seconds, and a week at most.
pub record IsDuration (d : Duration) : Type 0 where
  pub normal : d.nanoseconds < second
  pub bounded : d.seconds ≤ max_seconds

-- The length of a duration in nanoseconds.
abbrev pub total : Duration → ℕ
total d = d.seconds * second + d.nanoseconds
