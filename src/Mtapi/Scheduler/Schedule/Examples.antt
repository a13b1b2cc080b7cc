-- ===== src/Mtapi/Scheduler/Schedule/Examples.antt =====
-- Tasks on a node with two workers.
use embb.Common.{ℕ, zero, suc, ◌<◌, ◌≡◌, refl, [], ◌∷◌, ◌++◌, none, some, true, false, arith}
use embb.Base.Bitset
use embb.Mtapi.Affinity
use embb.Mtapi.IdPool
use embb.Mtapi.Pool
use embb.Mtapi.Pool.{Handle}
use embb.Mtapi.Status.{success}
use embb.Mtapi.TaskQueue
use embb.Mtapi.TaskQueue.{TaskQueue}
use embb.Mtapi.Task.{Task, scheduled}
use embb.Mtapi.Scheduler.{Scheduler, work_steal_vhpf}
use embb.Mtapi.Scheduler.Schedule.{find_worker, target_affinity, schedule_task}
use embb.Mtapi.Scheduler.Schedule.Target.{
  found, succeeded, public_tasks, found-any_start, find_worker-never, public_tasks-schedule_task,
}
use embb.Mtapi.Samples.{sample_node}

abbrev one_task : TaskQueue ℕ
one_task = record {
  task_buffer = some 7 ∷ none ∷ [];
  tasks_available = 1;
  get_task_position = 0;
  put_task_position = 1;
  limit = 2;
}

abbrev workers : Scheduler ℕ
workers = record {
  worker_count = 2;
  worker_contexts =
      record { queue = one_task ∷ []; private_queue = one_task ∷ [] }
      ∷ record { queue = one_task ∷ []; private_queue = one_task ∷ [] }
      ∷ [];
  mode = work_steal_vhpf;
  affine_task_counter = 9;
  gets_lock = λ public worker priority. true;
}

abbrev first : Handle
first = record { tag = 0; id = 1 }

abbrev nowhere : Handle
nowhere = record { tag = 0; id = 0 }

abbrev task : Task
task = record {
  task_id = 0;
  job = first;
  arguments = 0;
  arguments_size = 0;
  result_buffer = 0;
  result_size = 0;
  attributes = record {
    is_detached = 0;
    num_instances = 1;
    priority = 0;
    affinity = 3;
    user_data = 0;
    complete_func = 0;
  };
  group = nowhere;
  queue = nowhere;
  action = first;
  state = scheduled;
  current_instance = 0;
  instances_todo = 1;
  error_code = success;
}

valid : Pool.is_handle_valid sample_node.action_pool first ≡ true
unfolding Pool.initialize Pool.clear_handles Pool.is_handle_valid Pool.tag_at IdPool.initialize
valid = refl

-- The action has no affinity, so that the task may run on all cores.
unrestricted : target_affinity sample_node 3 task ≡ 3
unfolding target_affinity Pool.initialize Pool.clear_handles Pool.is_handle_valid Pool.get_object
    Pool.object_at Pool.tag_at IdPool.initialize Bitset.intersect
unrestricted = refl

public_tasks-schedule_task_test :
    let r = schedule_task sample_node 3 workers 4 task 1 in
    (succeeded r ≡ true) × (public_tasks r 1 0 ≡ TaskQueue.tasks one_task ++ (some 4 ∷ []))
public_tasks-schedule_task_test =
    public_tasks-schedule_task sample_node 3 workers 4 task 1 valid unrestricted (omega arith)
      (omega arith) (omega arith) (omega arith)

second_core : (Affinity.get (some 2) (some 2) 1).1 ≡ true
unfolding Affinity.get Bitset.is_set
second_core = refl

found-any_start_test : found 2 2 (find_worker 2 2 2 2 9) ≡ true
found-any_start_test = found-any_start 2 2 1 9 second_core (omega arith) (omega arith)

-- An affinity for core 3 alone, on two cores.
outside : (core : ℕ) → core < 2 → (Affinity.get (some 2) (some 8) core).1 ≡ false
unfolding Affinity.get Bitset.is_set
outside zero h = refl
outside (suc zero) h = refl
outside (suc (suc core)) h = absurd (omega arith)

find_worker-never_example : find_worker 2 8 2 100 0 ≡ none
find_worker-never_example = find_worker-never 2 8 100 0 outside
