-- ===== src/Base/Counter/Laws.antt =====
-- A counter that several threads count with (base_c/src/counter.c).
use embb.Common.{ℕ, ◌+◌, ◌-◌, ◌%◌, ◌<◌, ◌≡◌, List, [], ◌∷◌, arith}
use embb.Base.Counter.{uint_mod, increment, decrement}

pub data Call : Type 0 where
  increments decrements : Call

-- The counter after calls of several threads, in the order of their atomic operations.
pub run : ℕ → List Call → ℕ
run value [] = value
run value (increments ∷ calls) = run (increment value).1 calls
run value (decrements ∷ calls) = run (decrement value).1 calls

-- How many calls increment, and how many decrement.
pub ups : List Call → ℕ
ups [] = 0
ups (increments ∷ calls) = 1 + ups calls
ups (decrements ∷ calls) = ups calls

pub downs : List Call → ℕ
downs [] = 0
downs (increments ∷ calls) = downs calls
downs (decrements ∷ calls) = 1 + downs calls

-- In whatever order the calls of the threads take effect, the counter ends at its first value plus
-- the increments minus the decrements, modulo 2^32.
pub run-eq-balance :
    (value : ℕ) (calls : List Call)
    → value < uint_mod
    → (run value calls + downs calls) % uint_mod ≡ (value + ups calls) % uint_mod
unfolding run ups downs increment decrement
run-eq-balance value [] h = omega arith
run-eq-balance value (increments ∷ calls) h =
    omega (arith, run-eq-balance ((value + 1) % uint_mod) calls (omega arith))
run-eq-balance value (decrements ∷ calls) h =
    omega (arith, run-eq-balance ((value + (uint_mod - 1)) % uint_mod) calls (omega arith))
