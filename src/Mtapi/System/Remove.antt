-- ===== src/Mtapi/System/Remove.antt =====
-- Deleting and disabling actions and queues (mtapi_c/src/embb_mtapi_action_t.c and
-- embb_mtapi_queue_t.c). The other threads take their steps in the rounds of the waiting loops.
pub mod Done
mod Examples
use embb.Common.{ℕ, Option, none, some, Bool, true, false, not, set, ◌==◌, if◌then◌else◌}
use embb.Mtapi.Status.{
  Status, success, timeout, err_action_invalid, err_queue_invalid, err_node_notinit,
}
use embb.Mtapi.Pool
use embb.Mtapi.Pool.{Handle}
use embb.Mtapi.Job
use embb.Mtapi.Objects.{Action, Queue, finalize_action, finalize_queue}
use embb.Mtapi.Action.{action_at}
use embb.Mtapi.Queue.{queue_at}
use embb.Mtapi.Polling.{poll}
use embb.Mtapi.System.{System}
use embb.Mtapi.System.Wait.{World, is_late, other_work, get_current_thread_context}
use embb.Mtapi.System.Visit.{
  process_tasks, action_delete_visitor, action_disable_visitor, queue_delete_visitor,
  queue_disable_visitor, queue_enable_visitor,
}

-- The condition of the loops.
abbrev pub is_busy : (System → ℕ) → System → Bool
is_busy count s = not (count s == 0)

-- The loop that waits until a count of tasks is 0, for at most `fuel` tests.
unfoldable pub wait_until : (System → ℕ) → World → ℕ → System → Option ℕ → Option (Bool × System)
wait_until count w fuel s limit =
    poll (is_busy count) (is_late w limit) (other_work w (get_current_thread_context w s)) fuel 0 s

abbrev pub tasks_of_action : ℕ → System → ℕ
tasks_of_action action s = (action_at s.node action).num_tasks

abbrev pub tasks_of_queue : ℕ → System → ℕ
tasks_of_queue queue s = (queue_at s.node queue).num_tasks

abbrev pub ended : Bool → Status
ended true = success
ended false = timeout

-- The action at an index is taken from its job, if it has one, and given back.
unfoldable pub discard_action : ℕ → System → System
discard_action action s =
    let job_id = (action_at s.node action).job_id in
    let job = Job.get_storage_for_id s.node.job_list job_id in
    let handle = Pool.handle_of s.node.action_pool action in
    record s {
      node = record s.node {
        job_list =
            if Job.is_id_valid s.node.attributes.max_jobs job_id
            then set s.node.job_list job_id (Job.remove_action job handle)
            else s.node.job_list;
        action_pool = Pool.deallocate finalize_action true s.node.action_pool action;
      };
    }

-- embb_mtapi_queue_finalize, and embb_mtapi_queue_pool_deallocate, which finalises once more.
unfoldable pub discard_queue : ℕ → System → System
discard_queue queue s =
    let finalize = finalize_queue (some s.node.attributes.queue_limit) in
    record s {
      node = record s.node {
        queue_pool =
            Pool.deallocate finalize true (Pool.modify s.node.queue_pool queue finalize) queue;
      };
    }

-- What follows the loop; `none` while it goes on.
abbrev pub after_loop : (System → System) → Option (Bool × System) → Option (Status × System)
after_loop finish none = none
after_loop finish (some (over, s)) = some (ended over, finish s)

-- mtapi_action_delete
unfoldable pub action_delete : World → ℕ → System → Handle → Option ℕ → Option (Status × System)
action_delete w fuel s action limit =
    let s' = (process_tasks (action_delete_visitor action) s).1 in
    if s.node.is_initialized
    then (if Pool.is_handle_valid s.node.action_pool action
        then after_loop (discard_action action.id)
            (wait_until (tasks_of_action action.id) w fuel s' limit)
        else some (err_action_invalid, s))
    else some (err_node_notinit, s)

abbrev pub disabled_action : Action → Action
disabled_action a = record a { enabled = false }

abbrev pub switched_queue : Bool → Queue → Queue
switched_queue on q = record q { enabled = on }

-- mtapi_action_disable
unfoldable pub action_disable : World → ℕ → System → Handle → Option ℕ → Option (Status × System)
action_disable w fuel s action limit =
    let off = record s {
      node = record s.node {
        action_pool = Pool.modify s.node.action_pool action.id disabled_action;
      };
    } in
    let s' = (process_tasks (action_disable_visitor action) off).1 in
    if s.node.is_initialized
    then (if Pool.is_handle_valid s.node.action_pool action
        then after_loop (λ x. x) (wait_until (tasks_of_action action.id) w fuel s' limit)
        else some (err_action_invalid, s))
    else some (err_node_notinit, s)

-- mtapi_queue_delete
unfoldable pub queue_delete : World → ℕ → System → Handle → Option ℕ → Option (Status × System)
queue_delete w fuel s queue limit =
    let s' = (process_tasks (queue_delete_visitor queue) s).1 in
    if s.node.is_initialized
    then (if Pool.is_handle_valid s.node.queue_pool queue
        then after_loop (discard_queue queue.id)
            (wait_until (tasks_of_queue queue.id) w fuel s' limit)
        else some (err_queue_invalid, s))
    else some (err_node_notinit, s)

-- The queue at an index enabled or not.
abbrev pub switch_queue : Bool → ℕ → System → System
switch_queue on queue s = record s {
  node = record s.node { queue_pool = Pool.modify s.node.queue_pool queue (switched_queue on) };
}

-- mtapi_queue_disable
unfoldable pub queue_disable : World → ℕ → System → Handle → Option ℕ → Option (Status × System)
queue_disable w fuel s queue limit =
    let s' = (process_tasks (queue_disable_visitor queue) (switch_queue false queue.id s)).1 in
    if s.node.is_initialized
    then (if Pool.is_handle_valid s.node.queue_pool queue
        then (if (queue_at s'.node queue.id).attributes.retain == 0
            then after_loop (λ x. x) (wait_until (tasks_of_queue queue.id) w fuel s' limit)
            else some (success, s'))
        else some (err_queue_invalid, s))
    else some (err_node_notinit, s)

-- mtapi_queue_enable
unfoldable pub queue_enable : System → Handle → Status × System
queue_enable s queue =
    let on = switch_queue true queue.id s in
    if s.node.is_initialized
    then (if Pool.is_handle_valid s.node.queue_pool queue
        then (
          success,
          if (queue_at on.node queue.id).attributes.retain == 0
              then on
              else (process_tasks (queue_enable_visitor queue) on).1,
        )
        else (err_queue_invalid, s))
    else (err_node_notinit, s)
