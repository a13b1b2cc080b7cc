-- ===== src/Mtapi/System/Initialize.antt =====
-- mtapi_c/src/embb_mtapi_node_t.c: the node is initialised and finalised, with the construction of
-- its scheduler in embb_mtapi_scheduler_t.c. `none` for the node's instance is a null pointer.
pub mod Ends
pub mod Life
mod Examples
use embb.Common.{
  ℕ, zero, suc, ◌+◌, ◌==◌, List, Option, none, some, Bool, true, false, if◌then◌else◌,
}
use embb.Mtapi.Status.{
  Status, success, err_unknown, err_parameter, err_node_initialized, err_node_initfailed,
  err_node_notinit, is_success,
}
use embb.Mtapi.Pool
use embb.Mtapi.Pool.{Handle, Entry}
use embb.Mtapi.Job
use embb.Mtapi.Job.{Job}
use embb.Mtapi.Affinity
use embb.Mtapi.Attributes.{Attribute}
use embb.Mtapi.Attributes.Node as NodeAttr
use embb.Mtapi.Attributes.Node.{NodeAttributes}
use embb.Mtapi.Objects.{
  Action, Group, Queue, attributes_or, initialize_action, initialize_group, initialize_queue,
}
use embb.Mtapi.Node.{Node}
use embb.Mtapi.Task
use embb.Mtapi.Task.{Task}
use embb.Mtapi.Scheduler.{Scheduler, work_steal_vhpf}
use embb.Mtapi.Scheduler.Layout.{Worker, initialize_with_mode}
use embb.Mtapi.System.{System}

pub record Info : Type 0 where
  pub hardware_concurrency : ℕ
  pub used_memory : ℕ

-- The node's instance: its system, and the rest of the struct.
pub record Instance : Type 0 where
  pub system : System
  pub info : Info
  pub is_scheduler_running : Bool

-- The blocks that the allocator gives, with what stands in them; `instance` and `scheduler` are the
-- two that are tested for a null pointer. `jobs` has max_jobs + 1 entries, and the blocks of a pool
-- an entry for each object and one more.
pub record Blocks : Type 0 where
  pub instance : Option Instance
  pub jobs : List Job
  pub job_actions : ℕ → List Handle
  pub ids : ℕ → List ℕ
  pub actions : List (Entry Action)
  pub groups : List (Entry Group)
  pub tasks : List (Entry Task)
  pub queues : List (Entry Queue)
  pub scheduler : Bool
  pub buffers : ℕ → Bool → ℕ → List (Option ℕ)

-- What the system reports: the number of cores, the bytes that are allocated at the end, whether a
-- worker comes up, and whether a pop gets a lock.
pub record Machine : Type 0 where
  pub cores : ℕ
  pub used_memory : ℕ
  pub starts : ℕ → Bool
  pub gets_lock : Bool → ℕ → ℕ → Bool

-- The attributes and the status: those handed over, or the default ones.
abbrev pub choose_attributes : ℕ → Option NodeAttributes → NodeAttributes → Status × NodeAttributes
choose_attributes cores (some given) old = (success, given)
choose_attributes cores none old =
    let result = NodeAttr.init cores (some old) in (result.0, attributes_or result old)

-- The storage of a node with these attributes, without a scheduler.
unfoldable pub initialize_storage : Blocks → ℕ → ℕ → NodeAttributes → Node
initialize_storage b domain_id node_id attributes = record {
  is_initialized = true;
  domain_id = domain_id;
  node_id = node_id;
  attributes = attributes;
  worker_count = 0;
  job_list = Job.initialize_list b.job_actions attributes.max_actions_per_job 0 b.jobs;
  action_pool =
      Pool.initialize initialize_action (b.ids attributes.max_actions) b.actions
        attributes.max_actions;
  group_pool =
      Pool.initialize (initialize_group attributes.queue_limit) (b.ids attributes.max_groups)
        b.groups attributes.max_groups;
  queue_pool =
      Pool.initialize (initialize_queue (some attributes.queue_limit)) (b.ids attributes.max_queues)
        b.queues attributes.max_queues;
}

-- The workers from `ii` on that came up before the first that did not, for the rounds left.
unfoldable pub came_up : (ℕ → Bool) → ℕ → ℕ → ℕ
came_up starts zero ii = 0
came_up starts (suc rounds) ii =
    let rest = came_up starts rounds (ii + 1) in if starts ii then rest + 1 else 0

-- What follows the initialisation of the scheduler; `some none` is a null pointer, and `none` a call
-- that does not return. After an error embb_mtapi_scheduler_delete joins every worker that is up, and
-- such a worker waits until the scheduler is running, which no one says any more.
abbrev pub scheduler_of :
    ℕ → Option (Bool × Scheduler ℕ × List (Worker ℕ)) → Option (Option (Scheduler ℕ))
scheduler_of up (some (true, scheduler, workers)) = some (some scheduler)
scheduler_of up (some (false, scheduler, workers)) = if up == 0 then some none else none
scheduler_of up none = none

unfoldable pub scheduler_new : Machine → Blocks → NodeAttributes → Option (Option (Scheduler ℕ))
scheduler_new h b attributes =
    if b.scheduler
    then scheduler_of (came_up h.starts attributes.num_cores 0)
        (initialize_with_mode h.starts h.gets_lock b.buffers attributes work_steal_vhpf)
    else some none

-- What an operation leaves: its status, the information structure if it sets that, and the instance.
abbrev pub Outcome : Type 0
Outcome = Status × Option Info × Option Instance

-- mtapi_finalize: all blocks are given back, so that nothing of the node is left.
unfoldable pub finalize : Option Instance → Status × Option Instance
finalize (some instance) = (success, none)
finalize none = (err_node_notinit, none)

-- The end of mtapi_initialize, once the scheduler is made.
abbrev pub finish : Machine → Blocks → Node → ℕ → Option (Option (Scheduler ℕ)) → Option Outcome
finish h b node affinity_all none = none
finish h b node affinity_all (some none) = some (err_node_initfailed, none, none)
finish h b node affinity_all (some (some scheduler)) =
    let info : Info = record { hardware_concurrency = h.cores; used_memory = h.used_memory } in
    some (
      success,
      some info,
      some (record {
        system = record {
          node = record node { worker_count = scheduler.worker_count };
          affinity_all = affinity_all;
          task_pool =
              Pool.initialize Task.initialize (b.ids node.attributes.max_tasks) b.tasks
                node.attributes.max_tasks;
          scheduler = scheduler;
        };
        info = info;
        is_scheduler_running = true;
      }),
    )

-- The instance where the attributes or the affinity cannot be set: the node is given back, but the
-- pointer to it stays. In its block stands what was written until then.
abbrev pub dangling : Instance → ℕ → ℕ → NodeAttributes → ℕ → Instance
dangling block domain_id node_id attributes affinity_all = record block {
  system = record block.system {
    node = record block.system.node {
      is_initialized = true;
      domain_id = domain_id;
      node_id = node_id;
      attributes = attributes;
    };
    affinity_all = affinity_all;
  };
}

-- mtapi_initialize with the block of the node, or none, where there is no node yet.
abbrev pub initialize_in :
    Machine → Blocks → ℕ → ℕ → Option NodeAttributes → Option Instance → Option Outcome
initialize_in h b domain_id node_id attributes none = some (err_unknown, none, none)
initialize_in h b domain_id node_id attributes (some block) =
    let old = block.system.affinity_all in
    let (status, chosen) = choose_attributes h.cores attributes block.system.node.attributes in
    let (status', mask) = Affinity.init (some chosen.num_cores) (some old) true in
    let affinity_all = attributes_or (status', mask) old in
    if is_success status
    then (if is_success status'
        then finish h b (initialize_storage b domain_id node_id chosen) affinity_all
            (scheduler_new h b chosen)
        else some
            (err_parameter, none, some (dangling block domain_id node_id chosen affinity_all)))
    else some (err_parameter, none, some (dangling block domain_id node_id chosen old))

-- `none` for the result is a call that does not return. The information structure is written where
-- its pointer is not null.
unfoldable pub initialize :
    Machine → Blocks → ℕ → ℕ → Option NodeAttributes → Option Instance → Option Outcome
initialize h b domain_id node_id attributes (some instance) =
    some (err_node_initialized, some instance.info, some instance)
initialize h b domain_id node_id attributes none =
    initialize_in h b domain_id node_id attributes b.instance

unfoldable pub node_get_attribute :
    Option Instance → ℕ → NodeAttr.Num → Attribute → ℕ → Status × Option ℕ
node_get_attribute none node num attribute size = (err_node_notinit, none)
node_get_attribute (some i) node num attribute size =
    if i.system.node.node_id == node
    then (if attribute.pointer == 0
        then (err_parameter, none)
        else NodeAttr.get i.system.node.attributes num size)
    else (err_node_notinit, none)

-- MTAPI_DOMAIN_ID_INVALID and MTAPI_NODE_ID_INVALID are 0.
unfoldable pub domain_id_get : Option Instance → Status × ℕ
domain_id_get none = (err_node_notinit, 0)
domain_id_get (some i) = (success, i.system.node.domain_id)

unfoldable pub node_id_get : Option Instance → Status × ℕ
node_id_get none = (err_node_notinit, 0)
node_id_get (some i) = (success, i.system.node.node_id)
