-- ===== src/Mtapi/System/Wait.antt =====
-- Waiting for a task and cancelling it (mtapi_c/src/embb_mtapi_task_t.c and
-- embb_mtapi_scheduler_t.c).
pub mod Ends
mod Examples
use embb.Common.{ℕ, zero, suc, ◌+◌, Option, none, some, Bool, true, false, if◌then◌else◌}
use embb.Mtapi.Status.{Status, timeout, err_task_invalid, err_node_notinit, err_unknown, success}
use embb.Base.Duration.{Duration}
use embb.Base.Time.{Time}
use embb.Mtapi.Pool
use embb.Mtapi.Pool.{Handle}
use embb.Mtapi.Action.{action_at}
use embb.Mtapi.Task
use embb.Mtapi.Task.{Task, State, scheduled, running, retained, cancelled, set_state}
use embb.Mtapi.Polling.{deadline, timed_out, poll}
use embb.Mtapi.System.{System, task_at}
use embb.Mtapi.System.Worker.{execute_task_or_yield}

-- What a wait depends on besides the system: what embb_tss_get returns in this thread for each
-- worker, what the tasks that it executes report, what stood in `wait_duration`, the clock when the
-- deadline is set and at each round, and what the other threads do in each round.
pub record World : Type 0 where
  pub tss : ℕ → Option ℕ
  pub outcome : Task → Status
  pub leftover : Duration
  pub start : Time
  pub clock : ℕ → Time
  pub others : ℕ → System → System

-- The loop of embb_mtapi_scheduler_get_current_thread_context from worker `ii` on, for the rounds
-- left.
unfoldable pub context_from : (ℕ → Option ℕ) → ℕ → ℕ → Option ℕ
context_from tss zero ii = none
context_from tss (suc rounds) ii = first_of (tss ii) (context_from tss rounds (ii + 1))
  where
    first_of : Option ℕ → Option ℕ → Option ℕ
    first_of none rest = rest
    first_of (some context) rest = some context

unfoldable pub get_current_thread_context : World → System → Option ℕ
get_current_thread_context w s = context_from w.tss s.scheduler.worker_count 0

-- Whether the timeout has passed at a round.
unfoldable pub is_late : World → Option ℕ → ℕ → Bool
is_late w limit i = timed_out (deadline w.leftover limit w.start) (w.clock i)

-- The end of a round: other work, and what the other threads do meanwhile.
unfoldable pub other_work : World → Option ℕ → ℕ → System → System
other_work w context i s = w.others i (execute_task_or_yield w.outcome s context)

unfoldable pub is_pending : State → Bool
is_pending scheduled = true
is_pending running = true
is_pending retained = true
is_pending _ = false

-- The result, and the system, after at most `fuel` tests.
unfoldable pub wait_for_task : World → ℕ → System → ℕ → Option ℕ → Option (Bool × System)
wait_for_task w fuel s task limit =
    poll (λ x. is_pending (task_at x task).state) (is_late w limit)
      (other_work w (get_current_thread_context w s)) fuel 0 s

-- What mtapi_task_wait does after the loop.
unfoldable pub after_wait : ℕ → Option (Bool × System) → Option (Status × System)
after_wait task none = none
after_wait task (some (false, s)) = some (timeout, s)
after_wait task (some (true, s)) =
    let that = task_at s task in
    some (
      that.error_code,
      if Pool.is_handle_valid s.node.group_pool that.group
          then s
          else record s { task_pool = Task.delete task s.task_pool },
    )

-- mtapi_task_wait
unfoldable pub wait : World → ℕ → System → Handle → Option ℕ → Option (Status × System)
wait w fuel s task limit =
    if s.node.is_initialized
    then (if Pool.is_handle_valid s.task_pool task
        then after_wait task.id (wait_for_task w fuel s task.id limit)
        else some (err_task_invalid, s))
    else some (err_node_notinit, s)

-- mtapi_task_cancel; `plugin` tells what a plugin's function reports for the handle of a task.
unfoldable pub cancel : (ℕ → Handle → Status) → System → Handle → Status × System
cancel plugin s task =
    let s' = record s {
      task_pool = Pool.modify s.task_pool task.id (λ that. set_state that cancelled);
    } in
    let that = task_at s' task.id in
    let action = action_at s.node that.action.id in
    if s.node.is_initialized
    then (if Pool.is_handle_valid s.task_pool task
        then (
          if Pool.is_handle_valid s.node.action_pool that.action
              then (if action.is_plugin_action
                  then plugin action.plugin_task_cancel_function task
                  else err_unknown)
              else success,
          s',
        )
        else (err_task_invalid, s))
    else (err_node_notinit, s)
