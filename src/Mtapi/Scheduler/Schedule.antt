-- ===== src/Mtapi/Scheduler/Schedule.antt =====
-- Where the scheduler puts a task: embb_mtapi_scheduler_schedule_task in
-- mtapi_c/src/embb_mtapi_scheduler_t.c. The notification of a sleeping worker changes no queue.
pub mod Target
mod Examples
use embb.Common.{
  ℕ, zero, suc, ◌+◌, ◌-◌, ◌%◌, Option, none, some, Bool, true, false, set, get_or, ◌==◌,
  if◌then◌else◌,
}
use embb.Base.Bitset
use embb.Mtapi.Affinity
use embb.Mtapi.IdPool.{uint_mod}
use embb.Mtapi.Pool
use embb.Mtapi.TaskQueue.{push}
use embb.Mtapi.Node.{Node}
use embb.Mtapi.Action.{action_at}
use embb.Mtapi.Queue.{queue_at}
use embb.Mtapi.Task.{Task}
use embb.Mtapi.Scheduler.{Scheduler, no_queue, context_at}

-- embb_mtapi_task_queue_push on a public and on a private queue of a worker.
unfoldable pub push_public : Scheduler ℕ → ℕ → ℕ → ℕ → Bool × Scheduler ℕ
push_public s worker priority task =
    let c = context_at s worker in
    let (pushed, q) = push true (get_or c.queue priority no_queue) (some task) in
    (
      pushed,
      record s {
        worker_contexts =
            set s.worker_contexts worker (record c { queue = set c.queue priority q });
      },
    )

pub push_private : Scheduler ℕ → ℕ → ℕ → ℕ → Bool × Scheduler ℕ
push_private s worker priority task =
    let c = context_at s worker in
    let (pushed, q) = push true (get_or c.private_queue priority no_queue) (some task) in
    (
      pushed,
      record s {
        worker_contexts =
            set s.worker_contexts worker
              (record c { private_queue = set c.private_queue priority q });
      },
    )

-- The affinity that decides: that of the action and the task together, that of an ordered queue
-- instead, and all cores where it is empty. `affinity_all` is the node's.
unfoldable pub target_affinity : Node → ℕ → Task → ℕ
target_affinity node affinity_all that =
    let both =
      Bitset.intersect (action_at node that.action.id).attributes.affinity
        that.attributes.affinity in
    let queue = queue_at node that.queue.id in
    let affinity =
      if Pool.is_handle_valid node.queue_pool that.queue
      then (if queue.attributes.ordered == 0 then both else queue.ordered_affinity)
      else both in
    if affinity == 0 then affinity_all else affinity

-- The loop that looks for a worker of the affinity from `ii` on, for at most `fuel` further steps;
-- `none` while it goes on.
pub find_worker : ℕ → ℕ → ℕ → ℕ → ℕ → Option ℕ
find_worker num_cores affinity worker_count zero ii =
    if (Affinity.get (some num_cores) (some affinity) ii).1 then some ii else none
find_worker num_cores affinity worker_count (suc fuel) ii =
    let rest =
      find_worker num_cores affinity worker_count fuel ((ii + 1) % uint_mod % worker_count) in
    if (Affinity.get (some num_cores) (some affinity) ii).1 then some ii else rest

-- The action's num_tasks goes up before the push, and down again where that fails.
abbrev pub settle : Node → Task → Bool × Scheduler ℕ → Bool × Node × Scheduler ℕ
settle node that (pushed, s) = (
  pushed,
  record node {
    action_pool = Pool.modify node.action_pool that.action.id (λ a.
        let counted = (a.num_tasks + 1) % uint_mod in
        record a { num_tasks = if pushed then counted else (counted + (uint_mod - 1)) % uint_mod });
  },
  s,
)

-- The push into the private queue of the worker found; `none` where the search goes on for ever.
abbrev pub push_affine :
    Node → Task → ℕ → Scheduler ℕ → Option ℕ → Option (Bool × Node × Scheduler ℕ)
push_affine node that task s none = none
push_affine node that task s (some worker) =
    some (settle node that (push_private s worker that.attributes.priority task))

-- `task` is the index of the task `that`, which is its handle's id. The search for a worker has
-- worker_count steps.
unfoldable pub schedule_task :
    Node → ℕ → Scheduler ℕ → ℕ → Task → ℕ → Option (Bool × Node × Scheduler ℕ)
schedule_task node affinity_all s task that instance' =
    let affinity = target_affinity node affinity_all that in
    let ii = (task + instance') % uint_mod % s.worker_count in
    let counter = s.affine_task_counter in
    let s' = record s { affine_task_counter = (counter + 1) % uint_mod } in
    if Pool.is_handle_valid node.action_pool that.action
    then (if affinity == affinity_all
        then some (settle node that (push_public s ii that.attributes.priority task))
        else push_affine node that task s'
            (find_worker node.attributes.num_cores affinity s.worker_count s.worker_count counter))
    else some (false, node, s)
