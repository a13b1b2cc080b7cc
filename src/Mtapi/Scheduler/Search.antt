-- ===== src/Mtapi/Scheduler/Search.antt =====
-- What a worker finds (mtapi_c/src/embb_mtapi_scheduler_t.c).
use embb.Common.{
  ℕ, ap, sym, ◌∙◌, ◌≡◌, ◌≢◌, ◌⊎◌, inl, inr, refl, List, [], ◌∷◌, Bool, true, false, Option, none,
  some, arith, set, get_or, set-get_or,
}
use embb.Mtapi.TaskQueue.{TaskQueue, pop, tasks}
use embb.Mtapi.TaskQueue.Valid
use embb.Mtapi.TaskQueue.Fifo.{pop_cases, pop-empty}
use embb.Mtapi.Scheduler.{
  Scheduler, no_queue, no_context, context_at, or_else, pop_public, pop_private, get_next_task,
}
use embb.Mtapi.Scheduler.Places.{Place, private_of, public_of, places, pop_at, take_first}
use embb.Mtapi.Scheduler.Order.{get_next_task-places}

module _ {A : Type 0} where
  unfoldable pub has_null : List (Option A) → Bool
  has_null [] = false
  has_null (none ∷ ts) = true
  has_null (some t ∷ ts) = has_null ts

  -- A queue without tasks, or a valid one that holds no null pointer.
  abbrev pub IsProper : TaskQueue A → Type 0
  IsProper q = (q.tasks_available ≡ 0) ⊎ (Valid.IsValid q × (has_null (tasks q) ≡ false))

  -- All queues of the scheduler are proper; what stands out of bounds is a queue without tasks.
  abbrev pub AllProper : Scheduler A → Type 0
  AllProper s =
      (worker priority : ℕ)
      → IsProper (get_or (context_at s worker).queue priority no_queue)
        × IsProper (get_or (context_at s worker).private_queue priority no_queue)

  has_null-head : (t : Option A) (ts : List (Option A)) → has_null (t ∷ ts) ≡ false → t ≢ none
  unfolding has_null
  has_null-head none ts h e = ground arith
  has_null-head (some t) ts h e = ground arith

  pop-none :
      (locked : Bool) (q : TaskQueue A)
      → IsProper q
      → (pop locked q).0 ≡ none
      → (pop locked q).1 ≡ q
  unfolding pop
  pop-none false q proper h = refl
  pop-none true q (inl e) h = ap (λ r. r.1) (pop-empty q e)
  pop-none true q (inr (v, h)) e =
      let cases = pop_cases v in ground (arith, has_null-head (pop true q).0 (tasks (pop true q).1))

  pop_at-none :
      (s : Scheduler A) (p : Place) → AllProper s → (pop_at s p).0 ≡ none → (pop_at s p).1 ≡ s
  unfolding pop_at pop_public pop_private
  pop_at-none s (private_of worker priority) proper e =
      let c = context_at s worker in
      ap
        (λ q. record s {
          worker_contexts =
              set s.worker_contexts worker
                (record c { private_queue = set c.private_queue priority q });
        })
        (pop-none (s.gets_lock false worker priority) (get_or c.private_queue priority no_queue)
          (proper worker priority).1 e)
      ∙ ap
          (λ qs. record s {
            worker_contexts = set s.worker_contexts worker (record c { private_queue = qs });
          })
          (set-get_or c.private_queue priority no_queue)
      ∙ ap (λ cs. record s { worker_contexts = cs })
          (set-get_or s.worker_contexts worker no_context)
  pop_at-none s (public_of worker priority) proper e =
      let c = context_at s worker in
      ap
        (λ q. record s {
          worker_contexts =
              set s.worker_contexts worker (record c { queue = set c.queue priority q });
        })
        (pop-none (s.gets_lock true worker priority) (get_or c.queue priority no_queue)
          (proper worker priority).0 e)
      ∙ ap
          (λ qs. record s {
            worker_contexts = set s.worker_contexts worker (record c { queue = qs });
          })
          (set-get_or c.queue priority no_queue)
      ∙ ap (λ cs. record s { worker_contexts = cs })
          (set-get_or s.worker_contexts worker no_context)

  abbrev pub busy_or : Place → Option A → Option Place → Option Place
  busy_or p none rest = rest
  busy_or p (some task) rest = some p

  -- The first place whose queue gives a task: it has one, and its lock is free in time.
  pub first_busy : List Place → Scheduler A → Option Place
  first_busy [] s = none
  first_busy (p ∷ ps) s = busy_or p (pop_at s p).0 (first_busy ps s)

  -- Its task is taken; with none, nothing changes.
  abbrev pub take_from : Option Place → Scheduler A → Option A × Scheduler A
  take_from none s = (none, s)
  take_from (some p) s = pop_at s p

  after_pop :
      (s : Scheduler A) (p : Place) (ps : List Place) (r : Option A × Scheduler A)
      → r ≡ pop_at s p
      → AllProper s
      → take_first ps s ≡ take_from (first_busy ps s) s
      → or_else r (take_first ps) ≡ take_from (busy_or p r.0 (first_busy ps s)) s
  after_pop s p ps (none, s') e proper rest =
      let same = ap (λ r. r.1) e ∙ pop_at-none s p proper (sym (ap (λ r. r.0) e)) in
      ap (take_first ps) same ∙ rest
  after_pop s p ps (some task, s') e proper rest = e

  take_first-first_busy :
      (s : Scheduler A) (ps : List Place)
      → AllProper s
      → take_first ps s ≡ take_from (first_busy ps s) s
  unfolding take_first first_busy
  take_first-first_busy s [] proper = refl
  take_first-first_busy s (p ∷ ps) proper =
      after_pop s p ps (pop_at s p) refl proper (take_first-first_busy s ps proper)

  -- A worker of a scheduler whose queues are valid and hold no null pointer, or hold no task, takes
  -- what a pop gives at the first queue in the order of the mode that gives a task, and nothing else
  -- changes; where no pop gives one, it gets a null pointer and nothing changes.
  pub get_next_task-first_busy :
      (max_priorities me : ℕ) (s : Scheduler A)
      → AllProper s
      → let order = places s.mode s.worker_count max_priorities me in
        get_next_task max_priorities me s ≡ take_from (first_busy order s) s
  get_next_task-first_busy max_priorities me s proper =
      get_next_task-places max_priorities me s
      ∙ take_first-first_busy s (places s.mode s.worker_count max_priorities me) proper
