-- ===== src/Mtapi/System/Worker.antt =====
-- The worker threads (mtapi_c/src/embb_mtapi_scheduler_t.c). What the user's function of a task does,
-- it does by setting the task's error code, `outcome`: calls of MTAPI from it are not modelled. The
-- callback for completed tasks is called and not read. Sleeping and yielding change no state.
pub mod Count
pub mod Kept
mod Examples
use embb.Common.{ℕ, Option, none, some, Bool, ◌&&◌, ◌==◌, if◌then◌else◌}
use embb.Mtapi.Status.{Status, err_action_cancelled}
use embb.Mtapi.Pool
use embb.Mtapi.Pool.{Handle}
use embb.Mtapi.Objects.{task_finished}
use embb.Mtapi.Node.{Node}
use embb.Mtapi.Task.{Task, State, scheduled, running, retained, cancelled, execute}
use embb.Mtapi.TaskContext.{initialize_with_thread_context_and_task}
use embb.Mtapi.Scheduler.{Scheduler, get_next_task}
use embb.Mtapi.Scheduler.Schedule.{schedule_task}
use embb.Mtapi.System.{System, task_at, down}

-- The task at a pointer replaced, and the node's state.
abbrev pub put_task : System → ℕ → Task → Node → System
put_task s task that node = record s {
  node = node;
  task_pool = Pool.modify s.task_pool task (λ _. that);
}

-- A worker makes a context for the task and executes it.
unfoldable pub run_task : (Task → Status) → System → ℕ → ℕ → Bool × System
run_task outcome s worker task =
    let that = (initialize_with_thread_context_and_task worker task (task_at s task)).1 in
    let (done, that', node) = execute outcome s.node task that in (done, put_task s task that' node)

-- The queue of the task is told that the task is done, where it is valid.
unfoldable pub tell_queue : Bool → Handle → Node → Node
tell_queue done queue node =
    if done && Pool.is_handle_valid node.queue_pool queue
    then record node { queue_pool = Pool.modify node.queue_pool queue.id task_finished }
    else node

-- A retained task is put into a queue again, whether or not there is room; `none` where that goes on
-- for ever.
abbrev pub after_schedule : System → Option (Bool × Node × Scheduler ℕ) → Option System
after_schedule s none = none
after_schedule s (some (pushed, node, scheduler)) =
    some (record s { node = node; scheduler = scheduler })

-- The switch of embb_mtapi_scheduler_worker on the state of the task that it got.
unfoldable pub switch_state : (Task → Status) → System → ℕ → ℕ → State → Option System
unfolding run_task tell_queue
switch_state outcome s worker task scheduled =
    let (done, s') = run_task outcome s worker task in
    some (record s' { node = tell_queue done (task_at s task).queue s'.node })
switch_state outcome s worker task running =
    let (done, s') = run_task outcome s worker task in
    some (record s' { node = tell_queue done (task_at s task).queue s'.node })
switch_state outcome s worker task retained =
    after_schedule s (schedule_task s.node s.affinity_all s.scheduler task (task_at s task) 0)
switch_state outcome s worker task cancelled =
    let that = task_at s task in
    let that' = record that {
      error_code = err_action_cancelled;
      instances_todo = down that.instances_todo;
    } in
    some (put_task s task that' (tell_queue (that.instances_todo == 0) that.queue s.node))
switch_state outcome s worker task _ = some s

-- What a worker does with the task that it got, or with none.
unfoldable pub handle_task : (Task → Status) → System → ℕ → Option ℕ → Option System
handle_task outcome s worker none = some s
handle_task outcome s worker (some task) = switch_state outcome s worker task (task_at s task).state

-- A round of the loop of embb_mtapi_scheduler_worker.
unfoldable pub work : (Task → Status) → System → ℕ → Option System
work outcome s worker =
    let (task, scheduler) = get_next_task s.node.attributes.max_priorities worker s.scheduler in
    handle_task outcome (record s { scheduler = scheduler }) worker task

-- What follows a round that returns.
abbrev pub after_round : Option System → (System → Option System) → Option System
after_round none rest = none
after_round (some s) rest = rest s

-- The body of embb_mtapi_scheduler_execute_task_or_yield for the task that it got, or none.
unfoldable pub run_or_yield : (Task → Status) → System → ℕ → Option ℕ → System
run_or_yield outcome s worker none = s
run_or_yield outcome s worker (some task) = (run_task outcome s worker task).1

-- `thread_context` is that of the calling thread, `none` where it is no worker.
unfoldable pub execute_task_or_yield : (Task → Status) → System → Option ℕ → System
execute_task_or_yield outcome s none = s
execute_task_or_yield outcome s (some worker) =
    let (task, scheduler) = get_next_task s.node.attributes.max_priorities worker s.scheduler in
    run_or_yield outcome (record s { scheduler = scheduler }) worker task
