-- ===== src/Mtapi/System/Visit.antt =====
-- The visitors of mtapi_c/src/embb_mtapi_action_t.c and embb_mtapi_queue_t.c, and the loops that
-- hand them the waiting tasks, in embb_mtapi_thread_context_t.c and embb_mtapi_scheduler_t.c. A
-- visitor asserts that its task is no null pointer; here it then does nothing and returns false.
pub mod Foreign
mod Examples
use embb.Common.{
  ℕ, zero, suc, ◌+◌, Option, none, some, Bool, true, false, get_or, ◌==◌, if◌then◌else◌,
}
use embb.Mtapi.Status.{
  Status, err_action_deleted, err_action_disabled, err_queue_deleted, err_queue_disabled,
}
use embb.Mtapi.Pool
use embb.Mtapi.Pool.{Handle}
use embb.Mtapi.Job.{same_handle}
use embb.Mtapi.Queue.{queue_at}
use embb.Mtapi.Task.{Task, scheduled, retained, cancelled, set_state}
use embb.Mtapi.TaskQueue.{process}
use embb.Mtapi.Scheduler.{ThreadContext, no_queue, context_at}
use embb.Mtapi.System.{System, task_at}

abbrev pub Visitor : Type 0
Visitor = System → Option ℕ → Bool × System

-- The task is changed if its handle of an action, or of a queue, is the one looked for.
abbrev pub change_if : Bool → System → ℕ → (Task → Task) → Bool × System
change_if matches s task change =
    if matches
    then (true, record s { task_pool = Pool.modify s.task_pool task change })
    else (false, s)

abbrev pub cancel_with : Status → Task → Task
cancel_with code that = record (set_state that cancelled) { error_code = code }

unfoldable pub action_delete_visitor : Handle → Visitor
action_delete_visitor action s none = (false, s)
action_delete_visitor action s (some task) =
    change_if (same_handle (task_at s task).action action) s task (cancel_with err_action_deleted)

unfoldable pub action_disable_visitor : Handle → Visitor
action_disable_visitor action s none = (false, s)
action_disable_visitor action s (some task) =
    change_if (same_handle (task_at s task).action action) s task (cancel_with err_action_disabled)

unfoldable pub queue_delete_visitor : Handle → Visitor
queue_delete_visitor queue s none = (false, s)
queue_delete_visitor queue s (some task) =
    change_if (same_handle (task_at s task).queue queue) s task (cancel_with err_queue_deleted)

unfoldable pub queue_disable_visitor : Handle → Visitor
queue_disable_visitor queue s none = (false, s)
queue_disable_visitor queue s (some task) =
    change_if (same_handle (task_at s task).queue queue) s task (λ that.
      if (queue_at s.node queue.id).attributes.retain == 0
      then cancel_with err_queue_disabled that
      else set_state that retained)

unfoldable pub queue_enable_visitor : Handle → Visitor
queue_enable_visitor queue s none = (false, s)
queue_enable_visitor queue s (some task) =
    change_if (same_handle (task_at s task).queue queue) s task (λ that. set_state that scheduled)

-- What follows a result, unless it is false.
abbrev pub and_visit : Bool × System → (System → Bool × System) → Bool × System
and_visit (false, s) rest = (false, s)
and_visit (true, s) rest = rest s

module _ (visit : Visitor) where
  -- embb_mtapi_thread_context_process_tasks from priority `ii` on, for the rounds left.
  unfoldable pub context_process_tasks : ThreadContext ℕ → ℕ → ℕ → System → Bool × System
  context_process_tasks c zero ii s = (true, s)
  context_process_tasks c (suc rounds) ii s =
      and_visit (process visit true (get_or c.private_queue ii no_queue) s) λ s'.
        and_visit (process visit true (get_or c.queue ii no_queue) s')
          (context_process_tasks c rounds (ii + 1))

  -- The loop of embb_mtapi_scheduler_process_tasks from worker `ii` on, for the rounds left. Each
  -- context has the node's max_priorities.
  unfoldable pub workers_from : ℕ → ℕ → System → Bool × System
  workers_from zero ii s = (true, s)
  workers_from (suc rounds) ii s =
      and_visit
        (context_process_tasks (context_at s.scheduler ii) s.node.attributes.max_priorities 0 s)
        (workers_from rounds (ii + 1))

  unfoldable pub process_tasks : System → Bool × System
  process_tasks s = workers_from s.scheduler.worker_count 0 s
