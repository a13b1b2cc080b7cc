-- ===== src/Mtapi/System/Initialize/Life.antt =====
-- The node that mtapi_initialize makes (mtapi_c/src/embb_mtapi_node_t.c).
use embb.Common.{
  ℕ, ap, ◌∙◌, ◌+◌, ◌<◌, ◌≡◌, ◌⊎◌, refl, List, [], ◌∷◌, none, some, Bool, true, false, arith, length,
  get_or, inl, inr, if◌then◌else◌,
}
use embb.Mtapi.Status.{success, err_node_initfailed}
use embb.Mtapi.IdPool.{uint_mod}
use embb.Mtapi.Pool.Valid.{IsValid, initialize-IsValid}
use embb.Mtapi.Job
use embb.Mtapi.Job.{Job}
use embb.Mtapi.Pool.{Handle}
use embb.Mtapi.Affinity
use embb.Base.Bitset
use embb.Mtapi.Attributes.Node.{NodeAttributes}
use embb.Mtapi.Objects.{initialize_action, initialize_group, initialize_queue}
use embb.Mtapi.Task
use embb.Mtapi.Scheduler.{Scheduler, no_queue, context_at, work_steal_vhpf}
use embb.Mtapi.Scheduler.Layout.{start_workers}
use embb.Mtapi.Scheduler.Layout.Cores.{below}
use embb.Mtapi.Scheduler.Layout.Fresh.{cores_of, IsFresh, initialize_with_mode-IsPlaced}
use embb.Mtapi.System.Initialize.{
  Instance, Blocks, Machine, domain_id_get, node_id_get, finish, came_up, initialize, initialize_in,
  initialize_storage, scheduler_new,
}
use embb.Mtapi.System.Initialize.Ends.{
  came_up-first, start_workers-first, scheduler_of-cases, split_ends,
}

-- A limit of a pool: at least one object, and with the entry 0 fewer than 2^32.
pub record IsLimit (n : ℕ) : Type 0 where
  pub some_object : 0 < n
  pub small : n + 1 < uint_mod

-- Attributes with limits for all pools, and with as many cores as the affinity has below 64.
pub record IsUsable (attributes : NodeAttributes) : Type 0 where
  pub cores : below (cores_of attributes) 64 ≡ attributes.num_cores
  pub some_task : 0 < attributes.queue_limit
  pub few_tasks : attributes.queue_limit < uint_mod
  pub actions : IsLimit attributes.max_actions
  pub groups : IsLimit attributes.max_groups
  pub tasks : IsLimit attributes.max_tasks
  pub queues : IsLimit attributes.max_queues

-- Blocks of the sizes that are asked for.
pub record IsSized (b : Blocks) (attributes : NodeAttributes) : Type 0 where
  pub jobs : length b.jobs ≡ attributes.max_jobs + 1
  pub ids : (n : ℕ) → length (b.ids n) ≡ n + 1
  pub actions : length b.actions ≡ attributes.max_actions + 1
  pub groups : length b.groups ≡ attributes.max_groups + 1
  pub tasks : length b.tasks ≡ attributes.max_tasks + 1
  pub queues : length b.queues ≡ attributes.max_queues + 1
  pub buffers :
      (n : ℕ) → (public : Bool) → (l : ℕ) → length (b.buffers n public l) ≡ attributes.queue_limit

-- A node that has just been made with these ids and attributes.
pub record IsReady (domain_id node_id : ℕ) (attributes : NodeAttributes) (i : Instance)
    : Type 0 where
  pub domain : domain_id_get (some i) ≡ (success, domain_id)
  pub number : node_id_get (some i) ≡ (success, node_id)
  pub initialized : i.system.node.is_initialized ≡ true
  pub running : i.is_scheduler_running ≡ true
  pub attributes_kept : i.system.node.attributes ≡ attributes
  pub workers : i.system.node.worker_count ≡ attributes.num_cores
  pub same_workers : i.system.scheduler.worker_count ≡ attributes.num_cores
  pub jobs : length i.system.node.job_list ≡ attributes.max_jobs + 1
  pub actions : IsValid i.system.node.action_pool
  pub groups : IsValid i.system.node.group_pool
  pub tasks : IsValid i.system.task_pool
  pub queues : IsValid i.system.node.queue_pool

length-initialize_list :
    (memory : ℕ → List Handle) (max_actions ii : ℕ) (jobs : List Job)
    → length (Job.initialize_list memory max_actions ii jobs) ≡ length jobs
unfolding Job.initialize_list
length-initialize_list memory max_actions ii [] = refl
length-initialize_list memory max_actions ii (job ∷ jobs) =
    omega (arith, length-initialize_list memory max_actions (ii + 1) jobs)

finish-IsReady :
    (h : Machine) (b : Blocks) (domain_id node_id affinity_all : ℕ) (attributes : NodeAttributes)
    (s : Scheduler ℕ)
    → IsUsable attributes
    → IsSized b attributes
    → s.worker_count ≡ attributes.num_cores
    → (i : Instance) × (finish h b
          (initialize_storage b domain_id node_id attributes)
          affinity_all
          (some (some s))
        ≡ some (success, some i.info, some i))
      × (i.system.scheduler ≡ s)
      × IsReady domain_id node_id attributes i
unfolding initialize_storage domain_id_get node_id_get
finish-IsReady h b domain_id node_id affinity_all attributes s usable sized e = (
  _,
  refl,
  refl,
  record {
    domain = refl;
    number = refl;
    initialized = refl;
    running = refl;
    attributes_kept = refl;
    workers = e;
    same_workers = e;
    jobs =
        length-initialize_list b.job_actions attributes.max_actions_per_job 0 b.jobs ∙ sized.jobs;
    actions =
        initialize-IsValid initialize_action (b.ids attributes.max_actions) b.actions
          attributes.max_actions (sized.ids attributes.max_actions) sized.actions
          usable.actions.small usable.actions.some_object;
    groups =
        initialize-IsValid (initialize_group attributes.queue_limit) (b.ids attributes.max_groups)
          b.groups attributes.max_groups (sized.ids attributes.max_groups) sized.groups
          usable.groups.small usable.groups.some_object;
    tasks =
        initialize-IsValid Task.initialize (b.ids attributes.max_tasks) b.tasks attributes.max_tasks
          (sized.ids attributes.max_tasks) sized.tasks usable.tasks.small usable.tasks.some_object;
    queues =
        initialize-IsValid (initialize_queue (some attributes.queue_limit))
          (b.ids attributes.max_queues) b.queues attributes.max_queues
          (sized.ids attributes.max_queues) sized.queues usable.queues.small
          usable.queues.some_object;
  },
)

scheduler_new-result :
    (h : Machine) (b : Blocks) (attributes : NodeAttributes) (ii k : ℕ)
    → IsUsable attributes
    → IsSized b attributes
    → ii < attributes.num_cores
    → k < attributes.max_priorities
    → (s : Scheduler ℕ) × (scheduler_new h b attributes ≡ (
        if b.scheduler
        then (if start_workers h.starts attributes.num_cores 0
            then some (some s)
            else if h.starts 0
            then none
            else some none)
        else some none))
      × (s.worker_count ≡ attributes.num_cores)
      × IsFresh (get_or (context_at s ii).queue k no_queue)
      × IsFresh (get_or (context_at s ii).private_queue k no_queue)
unfolding scheduler_new
scheduler_new-result h b attributes ii k usable sized l l' =
    let (s, ws, made, count, placed, public, private) =
      initialize_with_mode-IsPlaced h.starts h.gets_lock b.buffers attributes work_steal_vhpf ii k
        usable.cores l sized.buffers usable.few_tasks usable.some_task l' in
    let up = came_up h.starts attributes.num_cores 0 in
    let ends = scheduler_of-cases up _ s ws made in
    let first = came_up-first h.starts attributes.num_cores 0 (omega arith) in
    (s, ground (arith, ends, first), count, public, private)

-- mtapi_initialize for attributes that are handed over, where there is no node yet and the node
-- gets its block: with limits of at least one and below 2^32 - 1 for the pools, a queue_limit of at
-- least one and below 2^32, at least one priority, and as many cores as the core_affinity has below
-- 64, at least one, in blocks of the sizes asked for. If the scheduler gets no block or the first
-- worker does not come up, the call fails with MTAPI_ERR_NODE_INITFAILED, and there is no node. If
-- it gets its block and the first worker comes up but a later one does not, the call does not
-- return. If it gets its block and all workers come up, the call succeeds, with the node's
-- information, and the node is ready: it is initialised, has these attributes and ids, num_cores
-- workers, max_jobs + 1 jobs and valid pools of actions, groups, tasks and queues, and the public
-- and private queues of each worker for each priority are valid and hold no task.
pub initialize-IsReady :
    (h : Machine) (b : Blocks) (domain_id node_id : ℕ) (attributes : NodeAttributes)
    (block : Instance) (ii k : ℕ)
    → b.instance ≡ some block
    → IsUsable attributes
    → IsSized b attributes
    → ii < attributes.num_cores
    → k < attributes.max_priorities
    → let works = start_workers h.starts attributes.num_cores 0 in
      let result = initialize h b domain_id node_id (some attributes) none in
      (((b.scheduler ≡ false) ⊎ (h.starts 0 ≡ false))
        × (result ≡ some (err_node_initfailed, none, none)))
      ⊎ (((b.scheduler ≡ true) × (h.starts 0 ≡ true) × (works ≡ false)) × (result ≡ none))
      ⊎ (((b.scheduler ≡ true) × (works ≡ true))
          × (i : Instance) × (result ≡ some (success, some i.info, some i))
          × IsReady domain_id node_id attributes i
          × IsFresh (get_or (context_at i.system.scheduler ii).queue k no_queue)
          × IsFresh (get_or (context_at i.system.scheduler ii).private_queue k no_queue))
unfolding initialize Affinity.init
initialize-IsReady h b domain_id node_id attributes block ii k e usable sized l l' =
    let (s, made, count, public, private) =
      scheduler_new-result h b attributes ii k usable sized l l' in
    let affinity_all = Bitset.set_n attributes.num_cores in
    let finish_with = finish h b (initialize_storage b domain_id node_id attributes) affinity_all in
    let result = ap (initialize_in h b domain_id node_id (some attributes)) e in
    let down = start_workers-first h.starts attributes.num_cores 0 (omega arith) in
    let (i, done, same, ready) =
      finish-IsReady h b domain_id node_id affinity_all attributes s usable sized count in
    elim (split_ends b.scheduler (h.starts 0) _ s (scheduler_new h b attributes) down made) [
      | inl (why, r) ↦ inl (why, result ∙ ap finish_with r)
      | inr (inl (why, r)) ↦ inr (inl (why, result ∙ ap finish_with r))
      | inr (inr (why, r)) ↦
          inr
            (inr (why, i, result ∙ ap finish_with r ∙ done, ready, rw same public, rw same private))
    ]
