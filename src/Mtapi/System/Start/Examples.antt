-- ===== src/Mtapi/System/Start/Examples.antt =====
-- Tasks are started on a node with one action.
use embb.Common.{
  ℕ, ◌+◌, length, Option, ◌<◌, ◌≡◌, ◌++◌, refl, [], ◌∷◌, true, false, some, none, arith,
}
use embb.Base.Bitset
use embb.Mtapi.Status.{Status, success, err_parameter}
use embb.Mtapi.IdPool
use embb.Mtapi.Pool
use embb.Mtapi.Pool.{Handle}
use embb.Mtapi.TaskQueue
use embb.Mtapi.Job
use embb.Mtapi.Action.{action_at}
use embb.Mtapi.Group.{group_at}
use embb.Mtapi.Queue.{queue_at}
use embb.Mtapi.Task.{scheduled, set_state}
use embb.Mtapi.Samples.{fresh_pool-IsValid}
use embb.Mtapi.System.{System, task_at, up, no_task}
use embb.Mtapi.System.Samples.{first, nowhere, busy_node, workers, sample_system, one_instance}
use embb.Mtapi.System.Start.{
  Request, choose_from, fewer_of, int_greater, start, start_request, start_with, start_joined,
  join_group, join_queue, prepare, fail,
}
use embb.Mtapi.System.Start.Balance.{handle_at, load, choose_from-fewest}
use embb.Mtapi.System.Start.Outcome.{num_tasks-start_request}
use embb.Mtapi.System.Start.Room.{queue_of}
use embb.Mtapi.System.Start.Ready.{start-room}

valid : Pool.is_handle_valid busy_node.action_pool first ≡ true
unfolding Pool.initialize Pool.clear_handles Pool.modify Pool.is_handle_valid Pool.tag_at
    IdPool.initialize
valid = refl

choose_from-fewest_test :
    let actions = first ∷ [] in
    let chosen = choose_from busy_node actions 1 0 0 in
    (chosen < 1)
    × (Pool.is_handle_valid busy_node.action_pool (handle_at actions chosen) ≡ true)
    × (int_greater (load busy_node actions chosen) (load busy_node actions 0) ≡ false)
choose_from-fewest_test = choose_from-fewest busy_node (first ∷ []) 1 0 valid valid (omega arith)

abbrev request : Request
request = record {
  task_id = 5;
  job = first;
  arguments = 0;
  arguments_size = 0;
  result_buffer = 0;
  result_size = 0;
  attributes = none;
  group = first;
  queue = first;
}

job_valid : Job.is_handle_valid 1 busy_node.job_list first ≡ true
unfolding Job.is_handle_valid
job_valid = refl

chosen : choose_from busy_node (first ∷ []) 1 0 0 ≡ 0
unfolding choose_from fewer_of Pool.initialize Pool.clear_handles Pool.modify Pool.is_handle_valid
    Pool.tag_at Pool.get_object Pool.object_at IdPool.initialize
chosen = refl

abbrev plugin : ℕ → Handle → Status
plugin function handle = success

ready :
    let job = Job.get_storage_for_id busy_node.job_list 1 in
    let action = handle_at job.actions (choose_from busy_node job.actions job.num_actions 0 0) in
    let id = (IdPool.allocate true sample_system.task_pool.id_pool).0 in
    (action ≡ first)
    × (id ≡ 1)
    × ((action_at busy_node 1).is_plugin_action ≡ false)
    × (Bitset.intersect (action_at busy_node 1).attributes.affinity 3 ≡ 3)
unfolding choose_from fewer_of Job.get_storage_for_id Pool.initialize Pool.clear_handles Pool.modify
    Pool.is_handle_valid Pool.tag_at Pool.get_object Pool.object_at IdPool.initialize IdPool.fill
    IdPool.allocate Bitset.intersect
ready = (refl, refl, refl, refl)

start-room_example :
    let job = Job.get_storage_for_id busy_node.job_list 1 in
    let action = handle_at job.actions (choose_from busy_node job.actions job.num_actions 0 0) in
    let id = (IdPool.allocate true sample_system.task_pool.id_pool).0 in
    (handle : Handle) × (s' : System) × (start plugin sample_system
        (record request { attributes = some one_instance })
      ≡ some (success, handle, s'))
    × (handle.id ≡ id)
    × (Pool.is_handle_valid s'.task_pool handle ≡ true)
    × ((task_at s' id).state ≡ scheduled)
    × ((task_at s' id).action ≡ action)
    × (TaskQueue.tasks (queue_of s'.scheduler id 0)
        ≡ TaskQueue.tasks (queue_of workers id 0) ++ (some id ∷ []))
unfolding choose_from fewer_of Job.get_storage_for_id Pool.initialize Pool.clear_handles Pool.modify
    Pool.is_handle_valid Pool.tag_at Pool.get_object Pool.object_at IdPool.initialize IdPool.fill
    IdPool.allocate Bitset.intersect
start-room_example =
    start-room plugin sample_system request one_instance refl job_valid (fresh_pool-IsValid no_task)
      (omega arith) refl refl (omega arith) valid refl refl
      (record {
        worker = omega arith;
        level = omega arith;
        valid = omega arith;
        room = omega arith;
      })

-- A task of priority 9, which the node does not have: the start fails, and both counts stay raised.
abbrev too_high : Request
too_high = record request { attributes = some (record one_instance { priority = 9 }) }

abbrev system_left : Option (Status × Handle × System) → System
system_left none = sample_system
system_left (some (status, handle, s)) = s

refused :
    start_request plugin sample_system too_high
    ≡ some (err_parameter, nowhere, system_left (start_request plugin sample_system too_high))
unfolding start_request start_with start_joined join_group join_queue prepare fail choose_from
    fewer_of Job.get_storage_for_id Job.is_handle_valid Pool.initialize Pool.clear_handles
    Pool.modify Pool.is_handle_valid Pool.tag_at Pool.id_at Pool.handle_of Pool.get_object
    Pool.object_at Pool.allocate IdPool.initialize IdPool.fill IdPool.allocate set_state
refused = refl

members :
    (Pool.is_handle_valid busy_node.group_pool first ≡ true)
    × (Pool.is_handle_valid busy_node.queue_pool first ≡ true)
    × (length busy_node.group_pool.storage ≡ busy_node.group_pool.id_pool.capacity + 1)
    × (length busy_node.queue_pool.storage ≡ busy_node.queue_pool.id_pool.capacity + 1)
unfolding Pool.initialize Pool.clear_handles Pool.is_handle_valid Pool.tag_at IdPool.initialize
members = (refl, refl, refl, refl)

left_ids : 0 < sample_system.task_pool.id_pool.ids_available
unfolding Pool.initialize IdPool.initialize
left_ids = omega arith

num_tasks-start_request_example :
    let s' = system_left (start_request plugin sample_system too_high) in
    ((group_at s'.node 1).num_tasks ≡ up (group_at busy_node 1).num_tasks)
    × ((queue_at s'.node 1).num_tasks ≡ up (queue_at busy_node 1).num_tasks)
num_tasks-start_request_example =
    num_tasks-start_request plugin sample_system too_high err_parameter nowhere
      (system_left (start_request plugin sample_system too_high)) refl job_valid
      (fresh_pool-IsValid no_task) left_ids members.0 members.1 members.2 members.3 refused
