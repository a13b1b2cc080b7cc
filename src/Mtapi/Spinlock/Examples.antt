-- ===== src/Mtapi/Spinlock/Examples.antt =====
-- Two threads at a lock.
use embb.Common.{
  ℕ, zero, suc, ◌+◌, ◌≤◌, ◌<◌, ◌≡◌, ◌≢◌, refl, [], ◌∷◌, true, false, some, arith, length, ◌==◌,
}
use embb.Mtapi.Spinlock.{
  try_acquire, acquire, release, acquire_with_spincount, compare_and_swap, initialize,
}
use embb.Mtapi.Spinlock.Exclusion.{
  Lock, try, Reach, here, later, tries_to_acquire, free, Reach-exclusive,
  acquire_with_spincount-found, acquire_with_spincount-busy, acquire-first,
}

-- Thread 1 gets the lock and thread 2 does not.
abbrev taken : Lock
taken = try 2 (try 1 free)

taken_reached : Reach free taken
taken_reached = later (later here (tries_to_acquire 1 free)) (tries_to_acquire 2 (try 1 free))

taken_by_one : taken.holders ≡ 1 ∷ []
unfolding try try_acquire compare_and_swap initialize
taken_by_one = refl

Reach-exclusive_example :
    (length taken.holders ≤ 1)
    × ((try_acquire taken.value).0 ≡ (length taken.holders == 0))
    × ((release taken.value).0 ≡ (length taken.holders == 1))
Reach-exclusive_example = Reach-exclusive taken_reached

-- The lock is taken at tries 0 and 1 and free from then on.
abbrev seen : ℕ → ℕ
seen zero = 1
seen (suc zero) = 1
seen (suc (suc i)) = 0

acquire_with_spincount-found_test : acquire_with_spincount seen 3 ≡ true
acquire_with_spincount-found_test = acquire_with_spincount-found seen 2 3 refl (omega arith)

busy_twice : (k : ℕ) → k < 2 → seen k ≢ 0
busy_twice zero h = omega arith
busy_twice (suc zero) h = omega arith
busy_twice (suc (suc k)) h = absurd (omega arith)

acquire_with_spincount-busy_test : acquire_with_spincount seen 2 ≡ false
acquire_with_spincount-busy_test = acquire_with_spincount-busy seen 2 busy_twice

free_third : (j : ℕ) → j < 2 → seen (0 + j) ≢ 0
free_third zero h = omega arith
free_third (suc zero) h = omega arith
free_third (suc (suc j)) h = absurd (omega arith)

acquire-first_test : acquire seen 0 3 ≡ some 2
acquire-first_test = acquire-first seen 0 2 free_third refl
