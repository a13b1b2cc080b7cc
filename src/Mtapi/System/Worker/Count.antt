-- ===== src/Mtapi/System/Worker/Count.antt =====
-- What the queue of a task learns of it (mtapi_c/src/embb_mtapi_scheduler_t.c).
use embb.Common.{
  ℕ, zero, suc, ap, ◌∙◌, ◌+◌, ◌<◌, ◌≡◌, refl, Option, none, some, Bool, true, arith, length, ◌==◌,
  if◌then◌else◌,
}
use embb.Mtapi.Status.{Status, err_action_cancelled}
use embb.Mtapi.IdPool.{uint_mod}
use embb.Mtapi.Pool
use embb.Mtapi.Pool.{Pool, Handle}
use embb.Mtapi.Pool.Modify.{get_object-modify, is_handle_valid-in_range, length-modify}
use embb.Mtapi.Objects.{Queue, task_finished}
use embb.Mtapi.Node.{Node}
use embb.Mtapi.Queue.{no_queue, queue_at}
use embb.Mtapi.Task.{Task, scheduled, cancelled, execute, finish, set_state}
use embb.Mtapi.TaskContext.{initialize_with_thread_context_and_task}
use embb.Mtapi.Scheduler.{get_next_task}
use embb.Mtapi.System.{System, task_at, no_task, down}
use embb.Mtapi.System.Worker.{
  put_task, run_task, tell_queue, switch_state, handle_task, run_or_yield, execute_task_or_yield,
  after_round,
}

-- An execution by a worker keeps the queues, and tells whether the last instance is done.
done-run_task :
    (outcome : Task → Status) (s : System) (worker task : ℕ)
    → Pool.is_handle_valid s.node.action_pool (task_at s task).action ≡ true
    → let (done, s') = run_task outcome s worker task in
      (done ≡ ((task_at s task).instances_todo == 1)) × (s'.node.queue_pool ≡ s.node.queue_pool)
unfolding run_task execute finish set_state initialize_with_thread_context_and_task
done-run_task outcome s worker task valid = ground arith

num_tasks-tell_queue :
    (done : Bool) (node : Node) (queue : Handle) (p : Pool Queue)
    → node.queue_pool ≡ p
    → Pool.is_handle_valid p queue ≡ true
    → length p.storage ≡ p.id_pool.capacity + 1
    → let count = (Pool.get_object p queue.id no_queue).num_tasks in
      (queue_at (tell_queue done queue node) queue.id).num_tasks
      ≡ (if done then down count else count)
unfolding tell_queue task_finished
num_tasks-tell_queue done node queue p same valid slots =
    let inside = is_handle_valid-in_range p queue valid in
    let made = get_object-modify p queue.id task_finished no_queue (omega arith) in
    let valid' = ap (λ x. Pool.is_handle_valid x queue) same ∙ valid in
    let made' =
      ap (λ x. (Pool.get_object (Pool.modify x queue.id task_finished) queue.id no_queue).num_tasks)
        same in
    let kept = ap (λ x. (Pool.get_object x queue.id no_queue).num_tasks) same in
    ground (arith, valid', made, made', kept)

-- A worker that executes a scheduled task of a valid action and of a valid queue, in a pool with an
-- entry for each id and entry 0, takes one task off the queue's count, modulo 2^32, if that was the
-- last instance, and else leaves the count.
pub num_tasks-handle_task :
    (outcome : Task → Status) (s : System) (worker task : ℕ)
    → let that = task_at s task in
      let count = λ (x : System). (queue_at x.node that.queue.id).num_tasks in
      that.state ≡ scheduled
      → Pool.is_handle_valid s.node.action_pool that.action ≡ true
      → Pool.is_handle_valid s.node.queue_pool that.queue ≡ true
      → length s.node.queue_pool.storage ≡ s.node.queue_pool.id_pool.capacity + 1
      → (s' : System) × (handle_task outcome s worker (some task) ≡ some s')
        × (count s' ≡ (if that.instances_todo == 1 then down (count s) else count s))
unfolding handle_task switch_state tell_queue
num_tasks-handle_task outcome s worker task e valid member slots =
    let that = task_at s task in
    let ran = done-run_task outcome s worker task valid in
    let (done, s1) = run_task outcome s worker task in
    let s' = record s1 { node = tell_queue done that.queue s1.node } in
    let told = num_tasks-tell_queue done s1.node that.queue s.node.queue_pool ran.1 member slots in
    let count = (queue_at s.node that.queue.id).num_tasks in
    (
      s',
      ap (switch_state outcome s worker task) e,
      told ∙ ap (λ d. if d then down count else count) ran.0,
    )

-- The system after a worker has handled a cancelled task with instances left.
abbrev cancelled_once : System → ℕ → System
cancelled_once s task =
    let that = task_at s task in
    put_task s task
      (record that { error_code = err_action_cancelled; instances_todo = down that.instances_todo })
      s.node

cancelled-handle_task :
    (outcome : Task → Status) (s : System) (worker task m : ℕ)
    → (task_at s task).state ≡ cancelled
    → (task_at s task).instances_todo ≡ suc m
    → handle_task outcome s worker (some task) ≡ some (cancelled_once s task)
unfolding handle_task switch_state tell_queue
cancelled-handle_task outcome s worker task m e k = rw e (ground arith)

cancelled_once-task :
    (s : System) (task : ℕ)
    → task < length s.task_pool.storage
    → let s' = cancelled_once s task in
      ((task_at s' task).state ≡ (task_at s task).state)
      × ((task_at s' task).instances_todo ≡ down (task_at s task).instances_todo)
      × (length s'.task_pool.storage ≡ length s.task_pool.storage)
cancelled_once-task s task inside =
    let that' = record (task_at s task) {
      error_code = err_action_cancelled;
      instances_todo = down (task_at s task).instances_todo;
    } in
    let made = get_object-modify s.task_pool task (λ (_ : Task). that') no_task inside in
    (
      ap (λ (x : Task). x.state) made,
      ap (λ (x : Task). x.instances_todo) made,
      (length-modify s.task_pool task (λ (_ : Task). that')).0,
    )

-- So many rounds, each with a pointer to the task.
pub handle_times : (Task → Status) → ℕ → System → ℕ → ℕ → Option System
handle_times outcome zero s worker task = some s
handle_times outcome (suc n) s worker task =
    after_round (handle_task outcome s worker (some task))
      (λ s'. handle_times outcome n s' worker task)

-- Workers that get the m + 1 instances, fewer than 2^32, of a cancelled task in a pool that has its
-- entry, leave no instance to do and nothing of the node changed: neither the counts of the task's
-- action, group and queue nor the tasks that have arrived in the group.
pub node-handle_times :
    (outcome : Task → Status) (m : ℕ) (s : System) (worker task : ℕ)
    → (task_at s task).state ≡ cancelled
    → (task_at s task).instances_todo ≡ suc m
    → suc m < uint_mod
    → task < length s.task_pool.storage
    → (s' : System) × (handle_times outcome (suc m) s worker task ≡ some s')
      × ((task_at s' task).instances_todo ≡ 0)
      × (s'.node ≡ s.node)
unfolding handle_times
node-handle_times outcome zero s worker task e k small inside =
    let once = cancelled-handle_task outcome s worker task zero e k in
    let left = cancelled_once-task s task inside in
    (cancelled_once s task, ap (λ r. after_round r some) once, ground arith, refl)
node-handle_times outcome (suc m) s worker task e k small inside =
    let once = cancelled-handle_task outcome s worker task (suc m) e k in
    let s1 = cancelled_once s task in
    let left = cancelled_once-task s task inside in
    let (s', rest, done, queues) =
      node-handle_times outcome m s1 worker task (left.0 ∙ e) (ground arith) (omega arith)
        (omega (arith, left)) in
    (
      s',
      ap (λ r. after_round r (λ x. handle_times outcome (suc m) x worker task)) once ∙ rest,
      done,
      queues,
    )

run_or_yield-queues :
    (outcome : Task → Status) (s : System) (worker : ℕ) (task : Option ℕ)
    → (run_or_yield outcome s worker task).node.queue_pool ≡ s.node.queue_pool
unfolding run_or_yield run_task execute finish
run_or_yield-queues outcome s worker none = refl
run_or_yield-queues outcome s worker (some task) = ground arith

-- A call of embb_mtapi_scheduler_execute_task_or_yield, whichever task the thread gets and
-- executes, leaves the counts of all queues as they are where the function of the task calls
-- nothing of MTAPI and leaves an error code at most: no queue is told that a task is done.
pub queues-execute_task_or_yield :
    (outcome : Task → Status) (s : System) (context : Option ℕ)
    → (execute_task_or_yield outcome s context).node.queue_pool ≡ s.node.queue_pool
unfolding execute_task_or_yield
queues-execute_task_or_yield outcome s none = refl
queues-execute_task_or_yield outcome s (some worker) =
    let (task, scheduler) = get_next_task s.node.attributes.max_priorities worker s.scheduler in
    run_or_yield-queues outcome (record s { scheduler = scheduler }) worker task
