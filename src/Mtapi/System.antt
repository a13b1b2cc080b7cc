-- ===== src/Mtapi/System.antt =====
-- The node with its pool of tasks and its scheduler (mtapi_c/src/embb_mtapi_node_t.h), which the
-- interface functions for tasks and the workers change together.
pub mod Samples
pub mod Start
pub mod Worker
pub mod Wait
pub mod Visit
pub mod Remove
pub mod GroupWait
pub mod Initialize
use embb.Common.{ℕ, ◌+◌, ◌-◌, ◌%◌}
use embb.Mtapi.Status.{success}
use embb.Mtapi.IdPool.{uint_mod}
use embb.Mtapi.Pool
use embb.Mtapi.Pool.{Pool}
use embb.Mtapi.Job.{no_handle}
use embb.Mtapi.Node.{Node}
use embb.Mtapi.Task.{Task, error}
use embb.Mtapi.Scheduler.{Scheduler}

-- `affinity_all` is the node's mask of all cores.
pub record System : Type 0 where
  pub node : Node
  pub affinity_all : ℕ
  pub task_pool : Pool Task
  pub scheduler : Scheduler ℕ

-- What stands behind a task pointer out of bounds.
abbrev pub no_task : Task
no_task = record {
  task_id = 0;
  job = no_handle;
  arguments = 0;
  arguments_size = 0;
  result_buffer = 0;
  result_size = 0;
  attributes = record {
    is_detached = 0;
    num_instances = 1;
    priority = 0;
    affinity = 0;
    user_data = 0;
    complete_func = 0;
  };
  group = no_handle;
  queue = no_handle;
  action = no_handle;
  state = error;
  current_instance = 0;
  instances_todo = 0;
  error_code = success;
}

-- The task at a pointer.
abbrev pub task_at : System → ℕ → Task
task_at s task = Pool.get_object s.task_pool task no_task

-- Atomic changes of an `int` by 1 and by -1, as its 32-bit pattern.
abbrev pub up : ℕ → ℕ
up n = (n + 1) % uint_mod

abbrev pub down : ℕ → ℕ
down n = (n + (uint_mod - 1)) % uint_mod
