-- ===== src/Mtapi/System/Worker/Examples.antt =====
-- A worker on a node with one task.
use embb.Common.{◌+◌, ◌≡◌, refl, true, some, arith, length, ◌==◌, if◌then◌else◌}
use embb.Mtapi.IdPool
use embb.Mtapi.Pool
use embb.Mtapi.Queue.{queue_at}
use embb.Mtapi.Task.{scheduled, cancelled}
use embb.Mtapi.System.{System, task_at, down}
use embb.Mtapi.System.Samples.{first, busy_node, system_with, sample_task, fine}
use embb.Mtapi.System.Worker.{handle_task, execute_task_or_yield}
use embb.Mtapi.System.Worker.Count.{
  num_tasks-handle_task, node-handle_times, handle_times, queues-execute_task_or_yield,
}

here : task_at (system_with scheduled) 1 ≡ sample_task scheduled
unfolding Pool.initialize Pool.clear_handles Pool.modify Pool.get_object Pool.object_at
here = refl

valid :
    (Pool.is_handle_valid busy_node.action_pool first ≡ true)
    × (Pool.is_handle_valid busy_node.queue_pool first ≡ true)
    × (length busy_node.queue_pool.storage ≡ busy_node.queue_pool.id_pool.capacity + 1)
unfolding Pool.initialize Pool.clear_handles Pool.modify Pool.is_handle_valid Pool.tag_at
    IdPool.initialize
valid = (refl, refl, refl)

num_tasks-handle_task_example :
    let s = system_with scheduled in
    let that = task_at s 1 in
    let count = λ (x : System). (queue_at x.node that.queue.id).num_tasks in
    (s' : System) × (handle_task fine s 0 (some 1) ≡ some s')
    × (count s' ≡ (if that.instances_todo == 1 then down (count s) else count s))
unfolding Pool.initialize Pool.clear_handles Pool.modify Pool.get_object Pool.object_at
num_tasks-handle_task_example =
    num_tasks-handle_task fine (system_with scheduled) 0 1 refl valid.0 valid.1 valid.2

node-handle_times_example :
    let s = system_with cancelled in
    (s' : System) × (handle_times fine 1 s 0 1 ≡ some s')
    × ((task_at s' 1).instances_todo ≡ 0)
    × (s'.node ≡ s.node)
unfolding Pool.initialize Pool.clear_handles Pool.modify Pool.get_object Pool.object_at
node-handle_times_example =
    node-handle_times fine 0 (system_with cancelled) 0 1 refl refl (omega arith) (omega arith)

queues-execute_task_or_yield_example :
    (execute_task_or_yield fine (system_with scheduled) (some 0)).node.queue_pool
    ≡ busy_node.queue_pool
queues-execute_task_or_yield_example =
    queues-execute_task_or_yield fine (system_with scheduled) (some 0)
