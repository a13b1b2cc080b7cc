-- ===== src/Mtapi/System/Start/Room.antt =====
-- An instance goes into the public queue of a worker (mtapi_c/src/embb_mtapi_task_t.c).
use embb.Common.{
  ℕ, ◌+◌, ◌<◌, ◌≡◌, [], ◌∷◌, ◌++◌, some, true, false, ◌%◌, arith, length, get_or, set,
  get_or-set_self,
}
use embb.Mtapi.Status.{Status, success}
use embb.Mtapi.IdPool.{uint_mod}
use embb.Mtapi.Pool
use embb.Mtapi.Pool.{Pool, Handle}
use embb.Mtapi.TaskQueue
use embb.Mtapi.TaskQueue.Valid as QueueValid
use embb.Mtapi.TaskQueue.Fifo.{push_cases}
use embb.Mtapi.Job
use embb.Mtapi.Action.{action_at}
use embb.Mtapi.Task.{Task, created, scheduled, set_state}
use embb.Mtapi.Scheduler.{Scheduler, no_queue, no_context, context_at}
use embb.Mtapi.Scheduler.Schedule.{schedule_task, push_public, settle, target_affinity}
use embb.Mtapi.System.{System}
use embb.Mtapi.System.Start.{schedule_from, conclude, launch, start_joined, choose_from}
use embb.Mtapi.System.Start.Balance.{handle_at}

-- The worker whose public queue takes the only instance of a task, and that queue.
abbrev pub worker_of : Scheduler ℕ → ℕ → ℕ
worker_of s task = (task + 0) % uint_mod % s.worker_count

abbrev pub queue_of : Scheduler ℕ → ℕ → ℕ → TaskQueue.TaskQueue ℕ
queue_of s task priority = get_or (context_at s (worker_of s task)).queue priority no_queue

-- The queue is there, is valid and has room.
pub record HasRoom (s : Scheduler ℕ) (task priority : ℕ) : Type 0 where
  pub worker : worker_of s task < length s.worker_contexts
  pub level : priority < length (context_at s (worker_of s task)).queue
  pub valid : QueueValid.IsValid (queue_of s task priority)
  pub room : length (TaskQueue.tasks (queue_of s task priority)) < (queue_of s task priority).limit

pub tasks-push_public :
    (s : Scheduler ℕ) (task priority : ℕ)
    → HasRoom s task priority
    → let (pushed, s') = push_public s (worker_of s task) priority task in
      (pushed ≡ true)
      × (TaskQueue.tasks (queue_of s' task priority)
          ≡ TaskQueue.tasks (queue_of s task priority) ++ (some task ∷ []))
unfolding push_public
tasks-push_public s task priority h =
    let worker = worker_of s task in
    let c = context_at s worker in
    let pushed = push_cases (some task) h.valid in
    let q' = (TaskQueue.push true (get_or c.queue priority no_queue) (some task)).1 in
    ground (
      arith,
      get_or-set_self s.worker_contexts worker (record c { queue = set c.queue priority q' })
          no_context,
      get_or-set_self c.queue priority q' no_queue,
    )

-- The system that a launch of one instance leaves.
abbrev pub launched : System → ℕ → Task → System
launched s task that =
    let that' = set_state that scheduled in
    let (pushed, node, scheduler) =
      settle s.node that'
        (push_public s.scheduler (worker_of s.scheduler task) that.attributes.priority task) in
    record s {
      node = node;
      scheduler = scheduler;
      task_pool = Pool.modify s.task_pool task (λ _. that');
    }

launch-room :
    (plugin : ℕ → Handle → Status) (s : System) (task : ℕ) (handle : Handle) (that : Task)
    → Pool.is_handle_valid s.node.action_pool that.action ≡ true
    → (action_at s.node that.action.id).is_plugin_action ≡ false
    → that.attributes.num_instances ≡ 1
    → that.attributes.is_detached ≡ 0
    → target_affinity s.node s.affinity_all (set_state that scheduled) ≡ s.affinity_all
    → HasRoom s.scheduler task that.attributes.priority
    → launch plugin s task handle that ≡ some (success, handle, launched s task that)
unfolding launch conclude schedule_from schedule_task set_state
launch-room plugin s task handle that valid own one kept all h =
    let pushed = tasks-push_public s.scheduler task that.attributes.priority h in ground arith

pub start_joined-room :
    (plugin : ℕ → Handle → Status) (job_id : ℕ) (s : System) (task : ℕ) (that : Task)
    (action : Handle)
    → let job = Job.get_storage_for_id s.node.job_list job_id in
      let chosen = record that { action = action; state = created } in
      handle_at job.actions (choose_from s.node job.actions job.num_actions 0 0) ≡ action
      → Pool.is_handle_valid s.node.action_pool action ≡ true
      → (action_at s.node action.id).is_plugin_action ≡ false
      → that.attributes.num_instances ≡ 1
      → that.attributes.is_detached ≡ 0
      → that.attributes.priority < s.node.attributes.max_priorities
      → target_affinity s.node s.affinity_all (set_state chosen scheduled) ≡ s.affinity_all
      → HasRoom s.scheduler task that.attributes.priority
      → start_joined plugin job_id s task (s.node, that)
        ≡ some (
          success,
          Pool.handle_of s.task_pool task,
          launched
              (record s { task_pool = Pool.modify s.task_pool task (λ _. chosen) })
              task
              chosen,
        )
unfolding start_joined
start_joined-room plugin job_id s task that action e valid own one kept low all h =
    let chosen = record that { action = action; state = created } in
    let s' = record s { task_pool = Pool.modify s.task_pool task (λ _. chosen) } in
    let done =
      launch-room plugin s' task (Pool.handle_of s.task_pool task) chosen valid own one kept all
        h in
    rw e (ground arith)
