-- ===== src/Mtapi/System/Samples.antt =====
-- A node with two workers for the examples, whose one job has one action.
use embb.Common.{ℕ, true, [], ◌∷◌, none, some}
use embb.Mtapi.Pool
use embb.Mtapi.Pool.{Handle}
use embb.Mtapi.Attributes.Task.{TaskAttributes}
use embb.Mtapi.Objects.{Action}
use embb.Mtapi.TaskQueue.{TaskQueue}
use embb.Mtapi.Status.{Status, success}
use embb.Mtapi.Node.{Node}
use embb.Mtapi.Task.{Task, State}
use embb.Mtapi.Scheduler.{Scheduler, work_steal_vhpf}
use embb.Mtapi.Samples.{sample_node, fresh_pool, first_job}
use embb.Mtapi.Job.{no_job}
use embb.Base.Time.{Time}
use embb.Mtapi.System.{System, no_task}
use embb.Mtapi.System.Wait.{World}

abbrev pub first : Handle
first = record { tag = 0; id = 1 }

abbrev pub nowhere : Handle
nowhere = record { tag = 0; id = 0 }

abbrev pub everywhere : Action → Action
everywhere a = record a { attributes = record a.attributes { affinity = 3 } }

abbrev pub busy_node : Node
busy_node = record sample_node {
  job_list = no_job ∷ record first_job { num_actions = 1; actions = first ∷ [] } ∷ [];
  action_pool = Pool.modify sample_node.action_pool 1 everywhere;
}

abbrev pub one_task : TaskQueue ℕ
one_task = record {
  task_buffer = some 7 ∷ none ∷ [];
  tasks_available = 1;
  get_task_position = 0;
  put_task_position = 1;
  limit = 2;
}

abbrev pub workers : Scheduler ℕ
workers = record {
  worker_count = 2;
  worker_contexts =
      record { queue = one_task ∷ []; private_queue = one_task ∷ [] }
      ∷ record { queue = one_task ∷ []; private_queue = one_task ∷ [] }
      ∷ [];
  mode = work_steal_vhpf;
  affine_task_counter = 9;
  gets_lock = λ public worker priority. true;
}

abbrev pub sample_system : System
sample_system = record {
  node = busy_node;
  affinity_all = 3;
  task_pool = fresh_pool no_task;
  scheduler = workers;
}

abbrev pub one_instance : TaskAttributes
one_instance = record {
  is_detached = 0;
  num_instances = 1;
  priority = 0;
  affinity = 3;
  user_data = 0;
  complete_func = 0;
}

-- Entry 1 of the pool of tasks holds a task of the action, in the group and the queue of entry 1.
abbrev pub sample_task : State → Task
sample_task state = record no_task {
  job = first;
  group = first;
  queue = first;
  action = first;
  attributes = one_instance;
  instances_todo = 1;
  state = state;
}

abbrev pub system_with : State → System
system_with state = record sample_system {
  task_pool = Pool.modify sample_system.task_pool 1 (λ _. sample_task state);
}

abbrev pub fine : Task → Status
fine _ = success

abbrev pub epoch : Time
epoch = record { seconds = 0; nanoseconds = 0 }

-- A wait on a thread that is no worker, while no other thread takes a step.
abbrev pub quiet : World
quiet = record {
  tss = λ worker. none;
  outcome = fine;
  leftover = record { seconds = 0; nanoseconds = 0 };
  start = epoch;
  clock = λ i. epoch;
  others = λ i s. s;
}
