-- ===== src/Base/Counter.antt =====
-- base_c/src/counter.c. `unsigned int` is 32 bits wide; each function is one atomic operation.
mod Laws
mod Examples
use embb.Common.{ℕ, ◌+◌, ◌-◌, ◌%◌, ◌^◌}

abbrev pub uint_mod : ℕ
uint_mod = 2 ^ 32

-- embb_atomic_fetch_and_add_unsigned_int: what `*that` held, and what it holds then.
abbrev pub fetch_and_add : ℕ → ℕ → ℕ × ℕ
fetch_and_add that value = (that, (that + value) % uint_mod)

pub init : ℕ
init = 0

pub get : ℕ → ℕ
get value = value

pub increment : ℕ → ℕ × ℕ
increment value = fetch_and_add value 1

pub decrement : ℕ → ℕ × ℕ
decrement value = fetch_and_add value (uint_mod - 1)
