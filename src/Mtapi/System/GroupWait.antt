-- ===== src/Mtapi/System/GroupWait.antt =====
-- Waiting for the tasks of a group (mtapi_c/src/embb_mtapi_group_t.c). `locks` tells, for a round of
-- the waiting loop and a pop in it, whether the pop gets the lock of the group's queue, which depends
-- on the other threads.
pub mod Arrived
mod Examples
use embb.Common.{ℕ, zero, suc, ◌+◌, Option, none, some, Bool, true, false, not, ◌==◌, if◌then◌else◌}
use embb.Mtapi.Status.{
  Status, success, timeout, group_completed, err_group_invalid, err_node_notinit, is_success,
}
use embb.Mtapi.Pool
use embb.Mtapi.Pool.{Handle}
use embb.Mtapi.Objects.{Group}
use embb.Mtapi.Group
use embb.Mtapi.Group.{group_at}
use embb.Mtapi.Task
use embb.Mtapi.TaskQueue
use embb.Mtapi.TaskQueue.{TaskQueue}
use embb.Mtapi.Polling.{poll}
use embb.Mtapi.System.{System, task_at, down}
use embb.Mtapi.System.Wait.{World, is_late, other_work, get_current_thread_context}

abbrev pub change_group : ℕ → (Group → Group) → System → System
change_group group change s = record s {
  node = record s.node { group_pool = Pool.modify s.node.group_pool group change };
}

-- A pop from the queue of the group at an index.
unfoldable pub pop_arrived : Bool → ℕ → System → Option ℕ × System
pop_arrived locked group s =
    let (task, q) = TaskQueue.pop locked (group_at s.node group).queue in
    (task, change_group group (λ g. record g { queue = q }) s)

-- The task that has arrived is deleted, and the group has one task less.
unfoldable pub discard_arrived : ℕ → ℕ → System → System
discard_arrived group task s =
    change_group group (λ g. record g { num_tasks = down g.num_tasks })
      (record s { task_pool = Task.delete task s.task_pool })

-- The error code of a task that has arrived, where it has one.
abbrev pub worse : Status → Status → Status
worse old code = if is_success code then old else code

-- What follows a pop of the loop: it ends at a null pointer.
abbrev pub after_pop :
    ℕ → Status → Option ℕ × System → (Status × System → Status × System) → Status × System
after_pop group status (none, s) rest = (status, s)
after_pop group status (some task, s) rest =
    rest (worse status (task_at s task).error_code, discard_arrived group task s)

-- The loop that fetches and deletes the tasks that have arrived, from pop `j` of the round on, for
-- at most that many of them.
unfoldable pub drain : (ℕ → Bool) → ℕ → ℕ → ℕ → Status × System → Status × System
drain locks group zero j (status, s) = (status, s)
drain locks group (suc rounds) j (status, s) =
    after_pop group status (pop_arrived (locks j) group s) (drain locks group rounds (j + 1))

-- A round of the loop of mtapi_group_wait_all. No more tasks arrive than the queue holds, as the
-- other threads take their steps at its end.
unfoldable pub wait_all_round :
    World → (ℕ → ℕ → Bool) → Option ℕ → ℕ → ℕ → Status × System → Status × System
wait_all_round w locks context group i (status, s) =
    let (status', s') =
      drain (locks i) group (group_at s.node group).queue.tasks_available 0 (status, s) in
    (status', other_work w context i s')

abbrev pub delete_group : Handle → System → System
delete_group group s = record s { node = (Group.delete s.node group).1 }

abbrev pub is_timeout : Status → Bool
is_timeout timeout = true
is_timeout _ = false

-- What mtapi_group_wait_all does after the loop.
unfoldable pub after_all : Handle → Option (Bool × (Status × System)) → Option (Status × System)
after_all group none = none
after_all group (some (false, (status, s))) = some (timeout, s)
after_all group (some (true, (status, s))) =
    some (status, if is_timeout status then s else delete_group group s)

abbrev pub has_tasks : ℕ → Status × System → Bool
has_tasks group (status, s) = not ((group_at s.node group).num_tasks == 0)

unfoldable pub wait_all :
    World → (ℕ → ℕ → Bool) → ℕ → System → Handle → Option ℕ → Option (Status × System)
wait_all w locks fuel s group limit =
    if s.node.is_initialized
    then (if Pool.is_handle_valid s.node.group_pool group
        then after_all group (
            poll (has_tasks group.id) (is_late w limit)
              (wait_all_round w locks (get_current_thread_context w s) group.id) fuel 0
              (success, s))
        else some (err_group_invalid, s))
    else some (err_node_notinit, s)

-- A round of the loop of mtapi_group_wait_any: other work, and the next pop.
unfoldable pub wait_any_round :
    World → (ℕ → Bool) → Option ℕ → ℕ → ℕ → Option ℕ × System → Option ℕ × System
wait_any_round w locks context group i (task, s) =
    pop_arrived (locks (i + 1)) group (other_work w context i s)

abbrev pub is_none : Option ℕ × System → Bool
is_none (none, s) = true
is_none (some task, s) = false

-- What mtapi_group_wait_any does after the loop: the status, the buffer of the result, `none` where
-- it is not stored, and the system.
unfoldable pub after_any :
    ℕ → Option (Bool × (Option ℕ × System)) → Option (Status × Option ℕ × System)
after_any group none = none
after_any group (some (over, (none, s))) = some (timeout, none, s)
after_any group (some (over, (some task, s))) =
    let that = task_at s task in
    some (that.error_code, some that.result_buffer, discard_arrived group task s)

unfoldable pub wait_any :
    World → (ℕ → Bool) → ℕ → System → Handle → Option ℕ → Option (Status × Option ℕ × System)
wait_any w locks fuel s group limit =
    if s.node.is_initialized
    then (if Pool.is_handle_valid s.node.group_pool group
        then (if (group_at s.node group.id).num_tasks == 0
            then some (group_completed, none, delete_group group s)
            else after_any group.id (
                poll is_none (is_late w limit)
                  (wait_any_round w locks (get_current_thread_context w s) group.id) fuel 0
                  (pop_arrived (locks 0) group.id s)))
        else some (err_group_invalid, none, s))
    else some (err_node_notinit, none, s)
