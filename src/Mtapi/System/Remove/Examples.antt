-- ===== src/Mtapi/System/Remove/Examples.antt =====
-- An action and a queue without tasks are deleted.
use embb.Common.{◌+◌, ◌≡◌, inl, refl, true, false, not, some, none, arith, length}
use embb.Mtapi.IdPool
use embb.Mtapi.Pool
use embb.Mtapi.Polling.{rounds}
use embb.Mtapi.TaskQueue
use embb.Mtapi.System.{System}
use embb.Mtapi.System.Samples.{first, busy_node, sample_system, quiet}
use embb.Mtapi.System.Wait.Ends.{at_round}
use embb.Mtapi.System.Visit.{
  action_delete_visitor, queue_delete_visitor, process_tasks, workers_from, context_process_tasks,
}
use embb.Mtapi.System.Remove.{
  is_busy, tasks_of_action, tasks_of_queue, ended, action_delete, queue_delete,
}
use embb.Mtapi.System.Remove.Done.{visited, unqueued, action_delete-first, queue_delete-first}

valid :
    (Pool.is_handle_valid busy_node.action_pool first ≡ true)
    × (Pool.is_handle_valid busy_node.queue_pool first ≡ true)
unfolding Pool.initialize Pool.clear_handles Pool.modify Pool.is_handle_valid Pool.tag_at
    IdPool.initialize
valid = (refl, refl)

idle_action :
    let end = at_round quiet (visited sample_system first) 0 in
    (is_busy (tasks_of_action 1) end ≡ false)
    × (Pool.is_handle_valid end.node.action_pool first ≡ true)
    × (length end.node.action_pool.storage ≡ end.node.action_pool.id_pool.capacity + 1)
unfolding Pool.initialize Pool.clear_handles Pool.modify Pool.is_handle_valid Pool.tag_at
    Pool.get_object Pool.object_at IdPool.initialize rounds process_tasks workers_from
    context_process_tasks TaskQueue.process TaskQueue.process_from action_delete_visitor
idle_action = (refl, refl, refl)

action_delete-first_example :
    let end = at_round quiet (visited sample_system first) 0 in
    let busy = is_busy (tasks_of_action 1) end in
    (s' : System) × (action_delete quiet 1 sample_system first none ≡ some (ended (not busy), s'))
    × (Pool.is_handle_valid s'.node.action_pool first ≡ false)
action_delete-first_example =
    action_delete-first quiet sample_system first none 0 1 refl valid.0 (omega arith)
      (λ n h. absurd (omega arith)) (inl idle_action.0) idle_action.1 idle_action.2 (omega arith)

idle_queue :
    let end = at_round quiet (unqueued sample_system first) 0 in
    (is_busy (tasks_of_queue 1) end ≡ false)
    × (Pool.is_handle_valid end.node.queue_pool first ≡ true)
    × (length end.node.queue_pool.storage ≡ end.node.queue_pool.id_pool.capacity + 1)
unfolding Pool.initialize Pool.clear_handles Pool.modify Pool.is_handle_valid Pool.tag_at
    Pool.get_object Pool.object_at IdPool.initialize rounds process_tasks workers_from
    context_process_tasks TaskQueue.process TaskQueue.process_from queue_delete_visitor
idle_queue = (refl, refl, refl)

queue_delete-first_test :
    let end = at_round quiet (unqueued sample_system first) 0 in
    let busy = is_busy (tasks_of_queue 1) end in
    (s' : System) × (queue_delete quiet 1 sample_system first none ≡ some (ended (not busy), s'))
    × (Pool.is_handle_valid s'.node.queue_pool first ≡ false)
queue_delete-first_test =
    queue_delete-first quiet sample_system first none 0 1 refl valid.1 (omega arith)
      (λ n h. absurd (omega arith)) (inl idle_queue.0) idle_queue.1 idle_queue.2 (omega arith)
