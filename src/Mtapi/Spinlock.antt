-- ===== src/Mtapi/Spinlock.antt =====
-- mtapi_c/src/embb_mtapi_spinlock_t.c. The lock is an `int`, 0 while it is free. What other threads
-- do in between is known by what a try finds: `seen i` is the value at try `i`.
pub mod Exclusion
mod Examples
use embb.Common.{ℕ, zero, suc, ◌+◌, ◌^◌, Bool, true, false, Option, none, some, ◌==◌, if◌then◌else◌}

-- embb_atomic_compare_and_swap_int: whether it swapped, and the new value.
pub compare_and_swap : ℕ → ℕ → ℕ → Bool × ℕ
compare_and_swap value expected desired =
    if value == expected then (true, desired) else (false, value)

pub initialize : ℕ
initialize = 0

pub finalize : ℕ → ℕ
finalize value = 0

-- One try of `embb_mtapi_spinlock_acquire`.
pub try_acquire : ℕ → Bool × ℕ
try_acquire value = compare_and_swap value 0 1

-- The loop of `embb_mtapi_spinlock_acquire` from try `i` on, for at most `fuel` tries: the try that
-- succeeds, when the function returns, or `none` while it still spins.
pub acquire : (ℕ → ℕ) → ℕ → ℕ → Option ℕ
acquire seen i zero = none
acquire seen i (suc fuel) =
    let rest = acquire seen (i + 1) fuel in if (try_acquire (seen i)).0 then some i else rest

pub release : ℕ → Bool × ℕ
release value = compare_and_swap value 1 0

-- The loop of `embb_mtapi_spinlock_acquire_with_spincount` from try `i` on, with that spin_count.
pub spin_from : (ℕ → ℕ) → ℕ → ℕ → Bool
spin_from seen i zero = false
spin_from seen i (suc spin_count) =
    let rest = spin_from seen (i + 1) spin_count in if (try_acquire (seen i)).0 then true else rest

-- A count of 0 wraps round at the first step, so that there are 2^32 tries.
abbrev pub tries : ℕ → ℕ
tries max_spin_count = if max_spin_count == 0 then 2 ^ 32 else max_spin_count

pub acquire_with_spincount : (ℕ → ℕ) → ℕ → Bool
acquire_with_spincount seen max_spin_count = spin_from seen 0 (tries max_spin_count)
