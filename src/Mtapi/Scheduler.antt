-- ===== src/Mtapi/Scheduler.antt =====
-- mtapi_c/src/embb_mtapi_scheduler_t.c: which task a worker takes next. A pointer to a task is a
-- value of any type `A`. The context of worker `i` is entry `i` of `worker_contexts`, as
-- embb_mtapi_scheduler_initialize_with_mode lays them out, so that a pointer to a context is the
-- worker's index. There is at least one worker.
pub mod Places
pub mod Order
pub mod Search
pub mod Schedule
pub mod Layout
mod Examples
use embb.Common.{
  Bool, false, ℕ, zero, suc, ◌+◌, ◌-◌, ◌%◌, List, [], Option, none, some, true, get_or, set,
}
use embb.Mtapi.TaskQueue.{TaskQueue, pop}

-- embb_mtapi_scheduler_mode_enum; `num_scheduler_modes` and any other number.
pub data Mode : Type 0 where
  work_steal_vhpf work_steal_lf num_scheduler_modes : Mode

-- Of embb_mtapi_thread_context_struct, the queues for each priority.
pub record ThreadContext (A : Type 0) : Type 0 where
  pub queue : List (TaskQueue A)
  pub private_queue : List (TaskQueue A)

-- `gets_lock` is no field of the struct: it tells whether the pop of the public queue (`true`) or the
-- private one (`false`) of a worker for a priority gets the lock within its 128 tries, which depends
-- on the other threads. A search pops each queue at most once.
pub record Scheduler (A : Type 0) : Type 0 where
  pub worker_count : ℕ
  pub worker_contexts : List (ThreadContext A)
  pub mode : Mode
  pub affine_task_counter : ℕ
  pub gets_lock : Bool → ℕ → ℕ → Bool

module _ {A : Type 0} where
  -- What stands behind the pointers out of bounds.
  abbrev pub no_queue : TaskQueue A
  no_queue = record {
    task_buffer = [];
    tasks_available = 0;
    get_task_position = 0;
    put_task_position = 0;
    limit = 0;
  }

  abbrev pub no_context : ThreadContext A
  no_context = record { queue = []; private_queue = [] }

  abbrev pub context_at : Scheduler A → ℕ → ThreadContext A
  context_at s worker = get_or s.worker_contexts worker no_context

  -- embb_mtapi_task_queue_pop on a public and on a private queue of a worker.
  pub pop_public : Scheduler A → ℕ → ℕ → Option A × Scheduler A
  pop_public s worker priority =
      let c = context_at s worker in
      let (task, q) = pop (s.gets_lock true worker priority) (get_or c.queue priority no_queue) in
      (
        task,
        record s {
          worker_contexts =
              set s.worker_contexts worker (record c { queue = set c.queue priority q });
        },
      )

  pub pop_private : Scheduler A → ℕ → ℕ → Option A × Scheduler A
  pop_private s worker priority =
      let c = context_at s worker in
      let (task, q) =
        pop (s.gets_lock false worker priority) (get_or c.private_queue priority no_queue) in
      (
        task,
        record s {
          worker_contexts =
              set s.worker_contexts worker
                (record c { private_queue = set c.private_queue priority q });
        },
      )

  pub get_private_task_from_context : Scheduler A → ℕ → ℕ → Option A × Scheduler A
  get_private_task_from_context s me priority = pop_private s me priority

  pub get_public_task_from_context : Scheduler A → ℕ → ℕ → Option A × Scheduler A
  get_public_task_from_context s me priority = pop_public s me priority

  -- `if (MTAPI_NULL == task)` after a search, and the test of the loops.
  abbrev pub or_else :
      Option A × Scheduler A → (Scheduler A → Option A × Scheduler A) → Option A × Scheduler A
  or_else (none, s) search = search s
  or_else (some task, s) search = (some task, s)

  -- The loop over the other workers, for the rounds left.
  pub steal : ℕ → ℕ → ℕ → Scheduler A → Option A × Scheduler A
  steal priority zero context_index s = (none, s)
  steal priority (suc rounds) context_index s =
      or_else (pop_public s context_index priority)
        (steal priority rounds ((context_index + 1) % s.worker_count))

  abbrev pub steal_from_others : ℕ → ℕ → Scheduler A → Option A × Scheduler A
  steal_from_others me priority s =
      steal priority (s.worker_count - 1) ((me + 1) % s.worker_count) s

  -- The loop over the priorities from `priority` on, for the rounds left.
  pub vhpf_from : ℕ → ℕ → ℕ → Scheduler A → Option A × Scheduler A
  vhpf_from me zero priority s = (none, s)
  vhpf_from me (suc rounds) priority s = or_else (get_private_task_from_context s me priority) λ s'.
      or_else (get_public_task_from_context s' me priority)
        λ s''. or_else (steal_from_others me priority s'') (vhpf_from me rounds (priority + 1))

  pub get_next_task_vhpf : ℕ → ℕ → Scheduler A → Option A × Scheduler A
  get_next_task_vhpf max_priorities me s = vhpf_from me max_priorities 0 s

  -- The three loops of the other mode.
  pub private_from : ℕ → ℕ → ℕ → Scheduler A → Option A × Scheduler A
  private_from me zero priority s = (none, s)
  private_from me (suc rounds) priority s =
      or_else (get_private_task_from_context s me priority) (private_from me rounds (priority + 1))

  pub public_from : ℕ → ℕ → ℕ → Scheduler A → Option A × Scheduler A
  public_from me zero priority s = (none, s)
  public_from me (suc rounds) priority s =
      or_else (get_public_task_from_context s me priority) (public_from me rounds (priority + 1))

  pub steal_all_from : ℕ → ℕ → ℕ → Scheduler A → Option A × Scheduler A
  steal_all_from me zero priority s = (none, s)
  steal_all_from me (suc rounds) priority s =
      or_else (steal_from_others me priority s) (steal_all_from me rounds (priority + 1))

  pub get_next_task_lf : ℕ → ℕ → Scheduler A → Option A × Scheduler A
  get_next_task_lf max_priorities me s =
      or_else (private_from me max_priorities 0 s)
        λ s'. or_else (public_from me max_priorities 0 s') (steal_all_from me max_priorities 0)

  pub next_in_mode : Mode → ℕ → ℕ → Scheduler A → Option A × Scheduler A
  next_in_mode work_steal_lf max_priorities me s = get_next_task_lf max_priorities me s
  next_in_mode work_steal_vhpf max_priorities me s = get_next_task_vhpf max_priorities me s
  next_in_mode num_scheduler_modes max_priorities me s = (none, s)

  pub get_next_task : ℕ → ℕ → Scheduler A → Option A × Scheduler A
  get_next_task max_priorities me s = next_in_mode s.mode max_priorities me s
