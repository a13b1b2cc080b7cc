-- ===== src/Mtapi/TaskQueue/Process.antt =====
-- Which entries `embb_mtapi_task_queue_process` visits (mtapi_c/src/embb_mtapi_task_queue_t.c).
use embb.Common.{
  ℕ, zero, suc, ◌+◌, ◌≤◌, ◌<◌, ◌≡◌, refl, Bool, true, Option, none, some, List, [], ◌∷◌, ◌^◌, arith,
  get_or, window, next, length,
}
use embb.Mtapi.TaskQueue.{
  TaskQueue, process, process_from, visit_all, tasks, pop, push, initialize_with_capacity,
}
use embb.Mtapi.TaskQueue.Valid.{IsValid}

module _ {A S : Type 0} (visit : S → Option A → Bool × S) where
  process_from-window :
      (limit : ℕ) (buffer : List (Option A)) (rounds ii : ℕ) (s : S)
      → ii + rounds ≤ limit
      → process_from visit buffer rounds ii s
        ≡ visit_all visit (window limit none buffer ii rounds) s
  unfolding process_from visit_all
  process_from-window limit buffer zero ii s h = refl
  process_from-window limit buffer (suc zero) ii s h = ground arith
  process_from-window limit buffer (suc (suc rounds)) ii s h =
      let e : next limit ii ≡ ii + 1 = ground arith in
      let s' = (visit s (get_or buffer ii none)).1 in
      rw e (ground (arith, process_from-window limit buffer (suc rounds) (ii + 1) s' (omega arith)))

  -- While no pop has moved the front away from the start of the buffer, `process` visits the tasks
  -- of the queue in order, up to the first visit that returns false.
  pub process-visit_all :
      (q : TaskQueue A) (s : S)
      → IsValid q
      → q.get_task_position ≡ 0
      → process visit true q s ≡ visit_all visit (tasks q) s
  unfolding process
  process-visit_all q s v e =
      rw e (process_from-window q.limit q.task_buffer q.tasks_available 0 s (omega arith))

  -- After a push, a pop and a push on a fresh queue of two tasks or more, the queue holds the second
  -- task alone, and `process` visits a null pointer alone.
  pub process-push-pop-push :
      (memory : List (Option A)) (capacity : ℕ) (a b : A) (s : S)
      → length memory ≡ capacity
      → 1 < capacity
      → capacity < 2 ^ 32
      → let q =
          (push true
            (pop true (push true (initialize_with_capacity memory capacity) (some a)).1).1
            (some b)).1 in
        (tasks q ≡ some b ∷ []) × (process visit true q s ≡ visit_all visit (none ∷ []) s)
  unfolding process process_from visit_all push pop initialize_with_capacity
  process-push-pop-push [] capacity a b s e h k = absurd (omega arith)
  process-push-pop-push (x ∷ []) capacity a b s e h k = absurd (omega arith)
  process-push-pop-push (x ∷ y ∷ rest) capacity a b s e h k = ground arith
