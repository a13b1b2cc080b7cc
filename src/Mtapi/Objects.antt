-- ===== src/Mtapi/Objects.antt =====
-- The structs that the node keeps in pools, and how they are constructed and destroyed:
-- mtapi_c/src/embb_mtapi_action_t.c, embb_mtapi_group_t.c and embb_mtapi_queue_t.c. The handle that
-- each begins with is kept by the pool's entry. Addresses are numbers, 0 a null pointer, and the
-- functions of plugins, which are called and not read, have no effect on the struct.
use embb.Common.{ℕ, ◌+◌, ◌-◌, ◌%◌, List, Bool, true, false, Option, none, some}
use embb.Mtapi.IdPool.{uint_mod}
use embb.Mtapi.Pool.{Handle}
use embb.Mtapi.Attributes.Action.{ActionAttributes}
use embb.Mtapi.Attributes.Group.{GroupAttributes}
use embb.Mtapi.Attributes.Queue as QueueAttr
use embb.Mtapi.Attributes.Queue.{QueueAttributes}
use embb.Mtapi.TaskQueue
use embb.Mtapi.TaskQueue.{TaskQueue}

pub record Action : Type 0 where
  pub domain_id : ℕ
  pub node_id : ℕ
  pub job_id : ℕ
  pub action_function : ℕ
  pub node_local_data : ℕ
  pub node_local_data_size : ℕ
  pub attributes : ActionAttributes
  pub enabled : Bool
  pub is_plugin_action : Bool
  pub plugin_data : ℕ
  pub plugin_task_start_function : ℕ
  pub plugin_task_cancel_function : ℕ
  pub plugin_action_finalize_function : ℕ
  pub num_tasks : ℕ

-- MTAPI_JOB_ID_INVALID, MTAPI_DOMAIN_ID_INVALID and MTAPI_NODE_ID_INVALID are 0.
unfoldable pub initialize_action : Action → Action
initialize_action that = record that {
  action_function = 0;
  job_id = 0;
  domain_id = 0;
  node_id = 0;
  enabled = false;
  node_local_data = 0;
  node_local_data_size = 0;
  plugin_data = 0;
  num_tasks = 0;
}

-- The function that a plugin has for the end of its action is called first and not read: it changes
-- the plugin's state only, and no action.
unfoldable pub finalize_action : Action → Action
finalize_action that = initialize_action that

-- The queue of a group holds tasks, by their index in the task pool.
pub record Group : Type 0 where
  pub group_id : ℕ
  pub deleted : Bool
  pub num_tasks : ℕ
  pub attributes : GroupAttributes
  pub queue : TaskQueue ℕ

-- `queue_limit` is what mtapi_queueattr_init sets for the group's queue.
unfoldable pub initialize_group : ℕ → Group → Group
initialize_group queue_limit that = record that {
  group_id = 0;
  deleted = false;
  num_tasks = 0;
  queue = TaskQueue.initialize queue_limit;
}

-- `memory` is the block that the allocator gave, of `queue_limit` entries.
unfoldable pub initialize_group_with_node : List (Option ℕ) → ℕ → Group → Group
initialize_group_with_node memory queue_limit that = record that {
  group_id = 0;
  deleted = false;
  num_tasks = 0;
  queue = TaskQueue.initialize_with_capacity memory queue_limit;
}

unfoldable pub finalize_group : ℕ → Group → Group
finalize_group queue_limit that = record that {
  deleted = true;
  num_tasks = 0;
  queue = TaskQueue.finalize queue_limit that.queue;
}

pub record Queue : Type 0 where
  pub queue_id : ℕ
  pub enabled : Bool
  pub job_handle : Handle
  pub attributes : QueueAttributes
  pub num_tasks : ℕ
  pub ordered_affinity : ℕ

-- The attributes after a call of an init function on `&that->attributes`.
abbrev pub attributes_or : {A B : Type 0} → A × Option B → B → B
attributes_or (status, none) old = old
attributes_or (status, some new) old = new

unfoldable pub initialize_queue : Option ℕ → Queue → Queue
initialize_queue queue_limit that = record that {
  attributes = attributes_or (QueueAttr.init queue_limit (some that.attributes)) that.attributes;
  queue_id = 0;
  enabled = false;
  num_tasks = 0;
  job_handle = record { tag = 0; id = 0 };
}

unfoldable pub initialize_queue_with_attributes_and_job : QueueAttributes → Handle → Queue → Queue
initialize_queue_with_attributes_and_job attributes job that = record that {
  attributes = attributes;
  queue_id = 0;
  enabled = true;
  num_tasks = 0;
  job_handle = job;
}

unfoldable pub finalize_queue : Option ℕ → Queue → Queue
finalize_queue queue_limit that =
    initialize_queue queue_limit (record that { job_handle = record { tag = 0; id = 0 } })

-- Atomic changes of an `int`, as its 32-bit pattern.
unfoldable pub task_started : Queue → Queue
task_started that = record that { num_tasks = (that.num_tasks + 1) % uint_mod }

unfoldable pub task_finished : Queue → Queue
task_finished that = record that { num_tasks = (that.num_tasks + (uint_mod - 1)) % uint_mod }
