-- ===== src/Mtapi/System/Initialize/Ends.antt =====
-- How the construction of a scheduler ends (mtapi_c/src/embb_mtapi_scheduler_t.c).
use embb.Common.{
  ℕ, zero, suc, ap, ◌<◌, ◌≡◌, ◌⊎◌, refl, List, Option, none, some, Bool, true, false, not, arith,
  ◌==◌, inl, inr, if◌then◌else◌,
}
use embb.Mtapi.Scheduler.{Scheduler}
use embb.Mtapi.Scheduler.Layout.{Worker, start_workers}
use embb.Mtapi.System.Initialize.{came_up, scheduler_of}

-- A worker came up before the first that did not just where the first came up.
pub came_up-first :
    (starts : ℕ → Bool) (rounds ii : ℕ)
    → 0 < rounds
    → (came_up starts rounds ii == 0) ≡ not (starts ii)
unfolding came_up
came_up-first starts zero ii h = absurd (omega arith)
came_up-first starts (suc rounds) ii h = ground arith

pub start_workers-first :
    (starts : ℕ → Bool) (rounds ii : ℕ)
    → 0 < rounds
    → starts ii ≡ false
    → start_workers starts rounds ii ≡ false
unfolding start_workers
start_workers-first starts zero ii h down = absurd (omega arith)
start_workers-first starts (suc rounds) ii h down = ground arith

pub scheduler_of-cases :
    {r : Option (Bool × Scheduler ℕ × List (Worker ℕ))} (up : ℕ) (on : Bool) (s : Scheduler ℕ)
    (ws : List (Worker ℕ))
    → r ≡ some (on, s, ws)
    → scheduler_of up r ≡ (if on then some (some s) else if up == 0 then some none else none)
scheduler_of-cases up true s ws e = ap (scheduler_of up) e
scheduler_of-cases up false s ws e = ap (scheduler_of up) e

-- The three ends of the construction of the scheduler, from what it returns.
pub split_ends :
    (given first works : Bool) (s : Scheduler ℕ) (r : Option (Option (Scheduler ℕ)))
    → (first ≡ false → works ≡ false)
    → r ≡ (
        if given
        then (if works then some (some s) else if first then none else some none)
        else some none)
    → (((given ≡ false) ⊎ (first ≡ false)) × (r ≡ some none))
      ⊎ (((given ≡ true) × (first ≡ true) × (works ≡ false)) × (r ≡ none))
      ⊎ (((given ≡ true) × (works ≡ true)) × (r ≡ some (some s)))
split_ends false first works s r down e = inl (inl refl, e)
split_ends true false true s r down e = cc (down refl)
split_ends true false false s r down e = inl (inr refl, e)
split_ends true true false s r down e = inr (inl ((refl, refl, refl), e))
split_ends true true true s r down e = inr (inr ((refl, refl), e))
