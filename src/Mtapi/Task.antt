-- ===== src/Mtapi/Task.antt =====
-- mtapi_c/src/embb_mtapi_task_t.c: tasks and how a worker executes one. Addresses are numbers. What
-- the user's function does to the task, it does by setting its error code, so that a call of it is
-- the code it leaves, `outcome`. What such a function does by calls of MTAPI, such as starting another
-- task, is not modelled.
pub mod Instances
mod Examples
use embb.Common.{ℕ, ◌+◌, ◌-◌, ◌%◌, Option, some, none, Bool, true, false, ◌==◌, if◌then◌else◌}
use embb.Mtapi.Status.{Status, success, err_action_deleted, is_success}
use embb.Mtapi.IdPool.{uint_mod, invalid_id}
use embb.Mtapi.Pool
use embb.Mtapi.Pool.{Pool, Handle}
use embb.Mtapi.TaskQueue
use embb.Mtapi.Attributes.Task.{TaskAttributes}
use embb.Mtapi.Objects.{Action, Group}
use embb.Mtapi.Node.{Node}

-- mtapi_task_state_enum
pub data State : Type 0 where
  intentionally_unused error prenatal created scheduled running waiting retained : State
  deleted cancelled completed : State

-- The task's handle is kept by its pool entry. A lock held for one assignment needs no field.
pub record Task : Type 0 where
  pub task_id : ℕ
  pub job : Handle
  pub arguments : ℕ
  pub arguments_size : ℕ
  pub result_buffer : ℕ
  pub result_size : ℕ
  pub attributes : TaskAttributes
  pub group : Handle
  pub queue : Handle
  pub action : Handle
  pub state : State
  pub current_instance : ℕ
  pub instances_todo : ℕ
  pub error_code : Status

unfoldable pub initialize : Task → Task
initialize that = record that {
  action = record that.action { id = invalid_id };
  job = record that.job { id = invalid_id };
  state = error;
  task_id = 0;
  group = record that.group { id = invalid_id };
  queue = record that.queue { id = invalid_id };
  error_code = success;
  current_instance = 0;
}

unfoldable pub finalize : Task → Task
finalize that = initialize that

pub new : Pool Task → Option ℕ × Pool Task
new pool = initialize_given (Pool.allocate true pool)
  where
    initialize_given : Option ℕ × Pool Task → Option ℕ × Pool Task
    initialize_given (none, pool') = (none, pool')
    initialize_given (some task, pool') = (some task, Pool.modify pool' task initialize)

unfoldable pub delete : ℕ → Pool Task → Pool Task
delete task pool = Pool.deallocate finalize true (Pool.modify pool task finalize) task

unfoldable pub set_state : Task → State → Task
set_state that state = record that { state = state }

-- One task in flight less for the action.
abbrev pub task_done : Action → Action
task_done a = record a { num_tasks = (a.num_tasks + (uint_mod - 1)) % uint_mod }

-- The task at index `task` goes into the queue of its group.
abbrev pub arrive : ℕ → Group → Group
arrive task g = record g { queue = (TaskQueue.push true g.queue (some task)).1 }

-- The end of `embb_mtapi_task_execute`: the result, and the node with the group told.
unfoldable pub finish : ℕ → ℕ → Task → Node → Bool × Task × Node
finish todo task that node =
    if todo == 1
    then (
      true,
      that,
      if Pool.is_handle_valid node.group_pool that.group
          then record node { group_pool = Pool.modify node.group_pool that.group.id (arrive task) }
          else node,
    )
    else (false, that, node)

-- `task` is the index of the task `that` in its pool.
unfoldable pub execute : (Task → Status) → Node → ℕ → Task → Bool × Task × Node
execute outcome node task that =
    let busy = set_state that running in
    let code = if is_success that.error_code then outcome busy else that.error_code in
    let todo = that.instances_todo in
    let called = record busy {
      error_code = code;
      instances_todo = (todo + (uint_mod - 1)) % uint_mod;
    } in
    if Pool.is_handle_valid node.action_pool that.action
    then finish todo task (if todo == 1 then set_state called completed else called)
        (record node { action_pool = Pool.modify node.action_pool that.action.id task_done })
    else finish that.attributes.num_instances task
        (set_state (record busy { error_code = err_action_deleted }) error) node
