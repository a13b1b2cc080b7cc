-- ===== src/Mtapi/System/GroupWait/Examples.antt =====
-- A group whose one task has arrived.
use embb.Common.{◌≡◌, refl, [], ◌∷◌, map, true, some, none, arith}
use embb.Mtapi.Status.{success}
use embb.Mtapi.IdPool
use embb.Mtapi.Pool
use embb.Mtapi.Objects.{Group}
use embb.Mtapi.Group.{group_at}
use embb.Mtapi.Task.{completed}
use embb.Mtapi.TaskQueue
use embb.Mtapi.System.{System, task_at, down}
use embb.Mtapi.System.Samples.{first, system_with, quiet}
use embb.Mtapi.System.GroupWait.{change_group, drain, wait_any}
use embb.Mtapi.System.GroupWait.Arrived.{Holds, count, count-drain, wait_any-arrived}

abbrev with_task : Group → Group
with_task g = record g {
  num_tasks = 1;
  queue = record {
    task_buffer = some 1 ∷ none ∷ [];
    tasks_available = 1;
    get_task_position = 0;
    put_task_position = 1;
    limit = 2;
  };
}

abbrev arrived : System
arrived = change_group 1 with_task (system_with completed)

holds :
    Holds arrived 1 (1 ∷ [])
    × (count 1 arrived ≡ 1)
    × (Pool.is_handle_valid arrived.node.group_pool first ≡ true)
unfolding Pool.initialize Pool.clear_handles Pool.modify Pool.get_object Pool.object_at
    Pool.is_handle_valid Pool.tag_at IdPool.initialize
holds = (record { inside = omega arith; valid = omega arith; waiting = refl }, refl, refl)

count-drain_test :
    let (status', s') = drain (λ i. true) 1 1 0 (success, arrived) in
    (TaskQueue.tasks (group_at s'.node 1).queue ≡ []) × (count 1 s' ≡ 0)
count-drain_test =
    count-drain (λ i. true) 1 0 (1 ∷ []) 0 success arrived (λ i. refl) holds.0 holds.1 (omega arith)

wait_any-arrived_example :
    let that = task_at arrived 1 in
    (s' : System) × (wait_any quiet (λ i. true) 1 arrived first none
      ≡ some (that.error_code, some that.result_buffer, s'))
    × (TaskQueue.tasks (group_at s'.node 1).queue ≡ map some [])
    × (count 1 s' ≡ down (count 1 arrived))
wait_any-arrived_example =
    wait_any-arrived quiet (λ i. true) 0 arrived first none 1 [] refl holds.2
      (omega (arith, holds.1)) holds.0 refl
