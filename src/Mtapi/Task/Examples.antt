-- ===== src/Mtapi/Task/Examples.antt =====
-- A task of three instances on a node with one action and one group.
use embb.Common.{
  ◌+◌, ◌<◌, ◌≡◌, refl, [], ◌∷◌, ◌++◌, true, false, none, some, arith, length, replicate,
}
use embb.Mtapi.Status.{Status, success}
use embb.Mtapi.IdPool
use embb.Mtapi.Pool
use embb.Mtapi.Pool.{Handle}
use embb.Mtapi.TaskQueue
use embb.Mtapi.TaskQueue.Valid
use embb.Mtapi.Objects.{initialize_group_with_node}
use embb.Mtapi.Node.{Node}
use embb.Mtapi.Group.{no_group}
use embb.Mtapi.Task.{Task, scheduled, completed, execute}
use embb.Mtapi.Task.Instances.{results, left, results-instances, tasks-execute}
use embb.Mtapi.Samples.{sample_node}

-- Entry 1 of the group pool holds a group whose queue has room for two tasks.
abbrev working : Node
working = record sample_node {
  group_pool =
      Pool.modify sample_node.group_pool 1 (initialize_group_with_node (none ∷ none ∷ []) 2);
}

abbrev first : Handle
first = record { tag = 0; id = 1 }

abbrev task : Task
task = record {
  task_id = 0;
  job = first;
  arguments = 0;
  arguments_size = 0;
  result_buffer = 0;
  result_size = 0;
  attributes = record {
    is_detached = 0;
    num_instances = 3;
    priority = 0;
    affinity = 3;
    user_data = 0;
    complete_func = 0;
  };
  group = first;
  queue = record { tag = 0; id = 0 };
  action = first;
  state = scheduled;
  current_instance = 0;
  instances_todo = 3;
  error_code = success;
}

abbrev fine : Task → Status
fine _ = success

valid :
    (Pool.is_handle_valid working.action_pool first ≡ true)
    × (Pool.is_handle_valid working.group_pool first ≡ true)
    × (length working.group_pool.storage ≡ working.group_pool.id_pool.capacity + 1)
unfolding Pool.initialize Pool.clear_handles Pool.modify Pool.is_handle_valid Pool.tag_at
    IdPool.initialize IdPool.fill
valid = (refl, refl, refl)

results-instances_example :
    (results fine 3 working 4 task ≡ replicate 2 false ++ (true ∷ []))
    × ((left fine 3 working 4 task).state ≡ completed)
    × ((left fine 3 working 4 task).instances_todo ≡ 0)
results-instances_example = results-instances fine 2 working 4 task valid.0 refl (omega arith)

abbrev last : Task
last = record task { instances_todo = 1 }

fresh_queue :
    let q = (Pool.get_object working.group_pool 1 no_group).queue in
    Valid.IsValid q × (length (TaskQueue.tasks q) < q.limit)
unfolding Pool.initialize Pool.clear_handles Pool.modify Pool.get_object Pool.object_at
    initialize_group_with_node TaskQueue.initialize_with_capacity
fresh_queue = (omega arith, omega arith)

tasks-execute_test :
    let q = (Pool.get_object working.group_pool 1 no_group).queue in
    let node' = (execute fine working 4 last).2 in
    TaskQueue.tasks (Pool.get_object node'.group_pool 1 no_group).queue
    ≡ TaskQueue.tasks q ++ (some 4 ∷ [])
tasks-execute_test =
    tasks-execute fine working 4 last valid.0 refl valid.1 valid.2 fresh_queue.0 fresh_queue.1
