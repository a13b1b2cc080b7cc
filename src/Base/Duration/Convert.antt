-- ===== src/Base/Duration/Convert.antt =====
-- Setting a duration from a number of units and reading it back (base_c/src/duration.c).
use embb.Common.{ℕ, ◌*◌, ◌%◌, ◌≤◌, ◌<◌, ◌≡◌, ◌≢◌, ◌⊎◌, arith}
use embb.Base.Errors.{Errors, success, overflow, underflow}
use embb.Base.Duration.{
  Duration, IsDuration, total, max_seconds, second, ull_mod, set_nanoseconds, set_microseconds,
  set_milliseconds, set_seconds, as_nanoseconds, as_microseconds, as_milliseconds, as_seconds,
}

-- What the setter of a unit of `unit` nanoseconds has done to `d` on `n` units, `week` of which
-- make up a week, and what the getter reads then.
abbrev pub Sets :
    ℕ → ℕ → (Duration → ℕ → Errors × ℕ) → Duration → ℕ → ℕ → Errors × Duration → Type 0
Sets unit week get d n out (e, d') =
    ((n ≤ week)
      × (e ≡ success)
      × IsDuration d'
      × (total d' ≡ n * unit)
      × (get d' out ≡ (success, n)))
    ⊎ ((week < n) × (n * unit % ull_mod ≢ 0) × (e ≡ overflow) × (d' ≡ d))
    ⊎ ((week < n) × (n * unit % ull_mod ≡ 0) × (e ≡ underflow) × (d' ≡ d))

-- `set_nanoseconds` succeeds on every number of nanoseconds up to a week, stores a normalised
-- duration of exactly that length, and `as_nanoseconds` reads the number back; any larger number
-- is refused as an overflow and leaves the duration alone.
pub as_nanoseconds-set_nanoseconds :
    (d : Duration) (n out : ℕ)
    → n < ull_mod
    → let (e, d') = set_nanoseconds d n in
      ((n ≤ max_seconds * second)
        × (e ≡ success)
        × IsDuration d'
        × (total d' ≡ n)
        × (as_nanoseconds d' out ≡ (success, n)))
      ⊎ ((max_seconds * second < n) × (e ≡ overflow) × (d' ≡ d))
unfolding set_nanoseconds as_nanoseconds
as_nanoseconds-set_nanoseconds d n out h = ground arith

-- `set_microseconds` succeeds on every number of microseconds up to a week, stores a normalised
-- duration of exactly that length, and `as_microseconds` reads the number back. A larger number
-- leaves the duration alone, and is refused as an overflow if `n * 1000` is no multiple of 2^64,
-- and as an underflow if it is.
pub as_microseconds-set_microseconds :
    (d : Duration) (n out : ℕ)
    → n < ull_mod
    → Sets 1000 (max_seconds * 1000000) as_microseconds d n out (set_microseconds d n)
unfolding set_microseconds as_microseconds
as_microseconds-set_microseconds d n out h = ground arith

-- `set_milliseconds` succeeds on every number of milliseconds up to a week, stores a normalised
-- duration of exactly that length, and `as_milliseconds` reads the number back. A larger number
-- leaves the duration alone, and is refused as an overflow if `n * 1000000` is no multiple of
-- 2^64, and as an underflow if it is.
pub as_milliseconds-set_milliseconds :
    (d : Duration) (n out : ℕ)
    → n < ull_mod
    → Sets 1000000 (max_seconds * 1000) as_milliseconds d n out (set_milliseconds d n)
unfolding set_milliseconds as_milliseconds
as_milliseconds-set_milliseconds d n out h = ground arith

-- `set_seconds` succeeds on every number of seconds up to a week, stores a normalised duration of
-- exactly that length, and `as_seconds` reads the number back. A larger number leaves the duration
-- alone, and is refused as an overflow if `n * 1000000000` is no multiple of 2^64, and as an
-- underflow if it is.
pub as_seconds-set_seconds :
    (d : Duration) (n out : ℕ)
    → n < ull_mod
    → Sets second max_seconds as_seconds d n out (set_seconds d n)
unfolding set_seconds as_seconds
as_seconds-set_seconds d n out h = ground arith
