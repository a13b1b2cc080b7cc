-- ===== src/Mtapi/Scheduler/Places.antt =====
-- The places where a worker looks for a task (mtapi_c/src/embb_mtapi_scheduler_t.c).
use embb.Common.{ℕ, zero, suc, ◌+◌, ◌-◌, ◌%◌, Option, none, List, [], ◌∷◌, ◌++◌}
use embb.Mtapi.Scheduler.{
  Scheduler, Mode, work_steal_vhpf, work_steal_lf, num_scheduler_modes, or_else, pop_public,
  pop_private,
}

-- A queue of the scheduler: of a worker, for a priority.
pub data Place : Type 0 where
  private_of public_of : ℕ → ℕ → Place

-- The public queues of `rounds` workers from `worker` on, round and round.
unfoldable pub ring : ℕ → ℕ → ℕ → ℕ → List Place
ring worker_count priority zero worker = []
ring worker_count priority (suc rounds) worker =
    public_of worker priority ∷ ring worker_count priority rounds ((worker + 1) % worker_count)

-- The public queues of the other workers.
abbrev pub others : ℕ → ℕ → ℕ → List Place
others worker_count me priority =
    ring worker_count priority (worker_count - 1) ((me + 1) % worker_count)

-- Priority by priority: the own private queue, the own public one, those of the others.
unfoldable pub by_priority : ℕ → ℕ → ℕ → ℕ → List Place
by_priority worker_count me zero priority = []
by_priority worker_count me (suc rounds) priority =
    private_of me priority
    ∷ public_of me priority
    ∷ (others worker_count me priority ++ by_priority worker_count me rounds (priority + 1))

-- The own private queues, then the own public ones, then those of the others.
unfoldable pub all_private : ℕ → ℕ → ℕ → List Place
all_private me zero priority = []
all_private me (suc rounds) priority = private_of me priority ∷ all_private me rounds (priority + 1)

unfoldable pub all_public : ℕ → ℕ → ℕ → List Place
all_public me zero priority = []
all_public me (suc rounds) priority = public_of me priority ∷ all_public me rounds (priority + 1)

unfoldable pub all_others : ℕ → ℕ → ℕ → ℕ → List Place
all_others worker_count me zero priority = []
all_others worker_count me (suc rounds) priority =
    others worker_count me priority ++ all_others worker_count me rounds (priority + 1)

-- The places that a worker looks at, in the order of the mode.
unfoldable pub places : Mode → ℕ → ℕ → ℕ → List Place
places work_steal_vhpf worker_count max_priorities me = by_priority worker_count me max_priorities 0
places work_steal_lf worker_count max_priorities me =
    all_private me max_priorities 0
    ++ (all_public me max_priorities 0 ++ all_others worker_count me max_priorities 0)
places num_scheduler_modes worker_count max_priorities me = []

module _ {A : Type 0} where
  unfoldable pub pop_at : Scheduler A → Place → Option A × Scheduler A
  pop_at s (private_of worker priority) = pop_private s worker priority
  pop_at s (public_of worker priority) = pop_public s worker priority

  -- A search of the places in order, up to the first task.
  unfoldable pub take_first : List Place → Scheduler A → Option A × Scheduler A
  take_first [] s = (none, s)
  take_first (p ∷ ps) s = or_else (pop_at s p) (take_first ps)
