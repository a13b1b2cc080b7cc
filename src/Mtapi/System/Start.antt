-- ===== src/Mtapi/System/Start.antt =====
-- mtapi_c/src/embb_mtapi_task_t.c: how a task is started, on a job or through a queue. No worker
-- takes a step in between. What a plugin's start function, which is called and not read, reports
-- for the handle of a task is an argument.
pub mod Balance
pub mod Outcome
pub mod Room
pub mod Ready
mod Examples
use embb.Common.{
  ℕ, zero, suc, ◌+◌, ◌/◌, ◌%◌, List, Option, none, some, Bool, true, ◌&&◌, ◌||◌, not, ltb, leb,
  get_or, ◌==◌, if◌then◌else◌,
}
use embb.Mtapi.Status.{
  Status, success, err_parameter, err_action_invalid, err_job_invalid, err_queue_disabled,
  err_queue_invalid, err_node_notinit, err_task_limit, is_success,
}
use embb.Mtapi.IdPool.{uint_mod, invalid_id}
use embb.Mtapi.Pool
use embb.Mtapi.Pool.{Pool, Handle}
use embb.Mtapi.Job
use embb.Mtapi.Job.{no_handle}
use embb.Mtapi.Attributes.Task as TaskAttr
use embb.Mtapi.Attributes.Task.{TaskAttributes}
use embb.Mtapi.Objects.{Group, attributes_or, task_started}
use embb.Mtapi.Node.{Node}
use embb.Mtapi.Action.{action_at}
use embb.Mtapi.Queue.{queue_at}
use embb.Mtapi.Task
use embb.Mtapi.Task.{Task, prenatal, created, scheduled, error, set_state}
use embb.Mtapi.Scheduler.{Scheduler}
use embb.Mtapi.Scheduler.Schedule.{schedule_task}
use embb.Mtapi.System.{System, task_at, up}

-- The arguments of embb_mtapi_task_start. Addresses are numbers.
pub record Request : Type 0 where
  pub task_id : ℕ
  pub job : Handle
  pub arguments : ℕ
  pub arguments_size : ℕ
  pub result_buffer : ℕ
  pub result_size : ℕ
  pub attributes : Option TaskAttributes
  pub group : Handle
  pub queue : Handle

-- The attributes handed over, or the default ones of the node's `num_cores`.
abbrev pub choose_attributes : ℕ → Option TaskAttributes → TaskAttributes → TaskAttributes
choose_attributes num_cores (some given) old = given
choose_attributes num_cores none old = attributes_or (TaskAttr.init (some num_cores) (some old)) old

-- The new task before it has an action.
unfoldable pub prepare : ℕ → Request → Task → Task
prepare num_cores r that =
    let fresh = set_state (Task.initialize that) prenatal in
    let attributes = choose_attributes num_cores r.attributes fresh.attributes in
    record fresh {
      task_id = r.task_id;
      job = r.job;
      arguments = r.arguments;
      arguments_size = r.arguments_size;
      result_buffer = r.result_buffer;
      result_size = r.result_size;
      attributes = attributes;
      instances_todo = attributes.num_instances;
    }

abbrev pub one_more : Group → Group
one_more g = record g { num_tasks = up g.num_tasks }

-- The group and the queue of the task count it, where they are valid.
unfoldable pub join_group : Handle → Node × Task → Node × Task
join_group group (node, that) =
    if Pool.is_handle_valid node.group_pool group
    then (
      record node { group_pool = Pool.modify node.group_pool group.id one_more },
      record that { group = group },
    )
    else (node, record that { group = record that.group { id = invalid_id } })

unfoldable pub join_queue : Handle → Node × Task → Node × Task
join_queue queue (node, that) =
    if Pool.is_handle_valid node.queue_pool queue
    then (
      record node { queue_pool = Pool.modify node.queue_pool queue.id task_started },
      record that { queue = queue },
    )
    else (node, record that { queue = record that.queue { id = invalid_id } })

-- `a > b` for the values of two `int`s with these patterns.
abbrev pub int_greater : ℕ → ℕ → Bool
int_greater a b = ltb ((b + uint_mod / 2) % uint_mod) ((a + uint_mod / 2) % uint_mod)

-- A round of the loop that looks for the action with the fewest tasks.
unfoldable pub fewer_of : Node → List Handle → ℕ → ℕ → ℕ
fewer_of node actions ii action_index =
    let act_m = action_at node (get_or actions action_index no_handle).id in
    let act_i = action_at node (get_or actions ii no_handle).id in
    if Pool.is_handle_valid node.action_pool (get_or actions ii no_handle)
    then (if int_greater act_m.num_tasks act_i.num_tasks then ii else action_index)
    else action_index

-- That loop from `ii` on, for the rounds left.
unfoldable pub choose_from : Node → List Handle → ℕ → ℕ → ℕ → ℕ
choose_from node actions zero ii action_index = action_index
choose_from node actions (suc rounds) ii action_index =
    choose_from node actions rounds (ii + 1) (fewer_of node actions ii action_index)

-- What follows a call that returns.
abbrev pub and_then :
    Option (Bool × Node × Scheduler ℕ)
    → (Bool → Node → Scheduler ℕ → Option (Bool × Node × Scheduler ℕ))
    → Option (Bool × Node × Scheduler ℕ)
and_then none rest = none
and_then (some (pushed, node, s)) rest = rest pushed node s

-- The loop over the instances from `kk` on, for the rounds left; `none` where a call goes on for
-- ever.
unfoldable pub schedule_from :
    ℕ → ℕ → Task → ℕ → ℕ → Bool → Node → Scheduler ℕ → Option (Bool × Node × Scheduler ℕ)
schedule_from affinity_all task that zero kk was_scheduled node s = some (was_scheduled, node, s)
schedule_from affinity_all task that (suc rounds) kk was_scheduled node s =
    and_then (schedule_task node affinity_all s task that kk) λ scheduled' node' s'.
      schedule_from affinity_all task that rounds (kk + 1) (was_scheduled && scheduled') node' s'

-- The call fails: the task is deleted and its handle loses its id.
unfoldable pub fail : Status → ℕ → Handle → System → Status × Handle × System
fail status task handle s = (
  status,
  record handle { id = invalid_id },
  record s { task_pool = Task.delete task s.task_pool },
)

-- The end of the call once the instances have been pushed, or have not.
unfoldable pub conclude :
    ℕ
    → Handle
    → Task
    → System
    → Option (Bool × Node × Scheduler ℕ)
    → Option (Status × Handle × System)
conclude task handle that s none = none
conclude task handle that s (some (was_scheduled, node, scheduler)) =
    let s' = record s { node = node; scheduler = scheduler } in
    if was_scheduled
    then some (
      success,
      if that.attributes.is_detached == 0 then handle else record handle { id = invalid_id },
      s',
    )
    else some (
        fail err_task_limit task handle
          (record s' { task_pool = Pool.modify s.task_pool task (λ t. set_state t error) }))

-- The task is scheduled, by its plugin or on the workers.
unfoldable pub launch :
    (ℕ → Handle → Status) → System → ℕ → Handle → Task → Option (Status × Handle × System)
launch plugin s task handle that =
    let that' = set_state that scheduled in
    let s' = record s { task_pool = Pool.modify s.task_pool task (λ _. that') } in
    let action = action_at s.node that.action.id in
    conclude task handle that' s' (
      if action.is_plugin_action
      then some (is_success (plugin action.plugin_task_start_function handle), s.node, s.scheduler)
      else schedule_from s.affinity_all task that' that'.attributes.num_instances 0 true s.node
          s.scheduler)

-- The task gets the chosen action of its job and is launched, or the call fails.
unfoldable pub start_joined :
    (ℕ → Handle → Status) → ℕ → System → ℕ → Node × Task → Option (Status × Handle × System)
start_joined plugin job_id s task (node, that) =
    let job = Job.get_storage_for_id node.job_list job_id in
    let action = get_or job.actions (choose_from node job.actions job.num_actions 0 0) no_handle in
    let valid = Pool.is_handle_valid node.action_pool action in
    let chosen = if valid then record that { action = action; state = created } else that in
    let handle = if valid then Pool.handle_of s.task_pool task else no_handle in
    let status =
      if leb node.attributes.max_priorities that.attributes.priority
      then err_parameter
      else if valid
      then success
      else err_action_invalid in
    let s' = record s { node = node; task_pool = Pool.modify s.task_pool task (λ _. chosen) } in
    if is_success status
    then launch plugin s' task handle chosen
    else some (fail status task handle s')

-- embb_mtapi_task_start once the pool has given an entry, or none.
unfoldable pub start_with :
    (ℕ → Handle → Status) → Request → System → Option ℕ → Option (Status × Handle × System)
start_with plugin r s none = some (err_task_limit, no_handle, s)
start_with plugin r s (some task) =
    let prepared = prepare s.node.attributes.num_cores r (task_at s task) in
    start_joined plugin r.job.id s task (join_queue r.queue (join_group r.group (s.node, prepared)))

unfoldable pub start_request :
    (ℕ → Handle → Status) → System → Request → Option (Status × Handle × System)
start_request plugin s r =
    let (task, pool) = Pool.allocate true s.task_pool in
    if s.node.is_initialized
    then (if Job.is_handle_valid s.node.attributes.max_jobs s.node.job_list r.job
        then start_with plugin r (record s { task_pool = pool }) task
        else some (err_job_invalid, no_handle, s))
    else some (err_node_notinit, no_handle, s)

-- mtapi_task_start: without a queue.
unfoldable pub start : (ℕ → Handle → Status) → System → Request → Option (Status × Handle × System)
start plugin s r = start_request plugin s (record r { queue = no_handle })

-- mtapi_task_enqueue: on the job and with the priority of the queue.
-- `leftover` is what stood in the local variable for the attributes.
unfoldable pub enqueue :
    (ℕ → Handle → Status) → TaskAttributes → System → Request → Option (Status × Handle × System)
enqueue plugin leftover s r =
    let queue = queue_at s.node r.queue.id in
    let attributes = choose_attributes s.node.attributes.num_cores r.attributes leftover in
    let r' = record r {
      job = queue.job_handle;
      attributes = some (record attributes { priority = queue.attributes.priority });
    } in
    if s.node.is_initialized
    then (if Pool.is_handle_valid s.node.queue_pool r.queue
        then (if queue.enabled || not (queue.attributes.retain == 0)
            then start_request plugin s r'
            else some (err_queue_disabled, no_handle, s))
        else some (err_queue_invalid, no_handle, s))
    else some (err_node_notinit, no_handle, s)
