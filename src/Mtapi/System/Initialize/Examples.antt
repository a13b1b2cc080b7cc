-- ===== src/Mtapi/System/Initialize/Examples.antt =====
-- A node with two workers is initialised.
use embb.Common.{
  ◌+◌, ◌≡◌, ◌⊎◌, refl, [], ◌∷◌, none, some, true, false, arith, get_or, replicate, length-replicate,
}
use embb.Base.CoreSet
use embb.Base.Bitset
use embb.Mtapi.Status.{success, err_node_initfailed}
use embb.Mtapi.Attributes.Node.{NodeAttributes}
use embb.Mtapi.Job.{no_job}
use embb.Mtapi.Action.{no_action}
use embb.Mtapi.Group.{no_group}
use embb.Mtapi.Queue as Q
use embb.Mtapi.Samples.{sample_node, slots}
use embb.Mtapi.System.{no_task}
use embb.Mtapi.System.Samples.{sample_system}
use embb.Mtapi.Scheduler.{no_queue, context_at}
use embb.Mtapi.Scheduler.Layout.{start_workers}
use embb.Mtapi.Scheduler.Layout.Cores.{below}
use embb.Mtapi.Scheduler.Layout.Fresh.{cores_of, IsFresh}
use embb.Mtapi.System.Initialize.{Instance, Blocks, Machine, initialize}
use embb.Mtapi.System.Initialize.Life.{IsLimit, IsUsable, IsSized, IsReady, initialize-IsReady}

abbrev attributes : NodeAttributes
attributes = sample_node.attributes

abbrev remains : Instance
remains = record {
  system = sample_system;
  info = record { hardware_concurrency = 0; used_memory = 0 };
  is_scheduler_running = false;
}

abbrev memory : Blocks
memory = record {
  instance = some remains;
  jobs = no_job ∷ no_job ∷ [];
  job_actions = λ i. [];
  ids = λ n. replicate (n + 1) 9;
  actions = slots no_action;
  groups = slots no_group;
  tasks = slots no_task;
  queues = slots Q.no_queue;
  scheduler = true;
  buffers = λ n public l. none ∷ none ∷ [];
}

abbrev machine : Machine
machine = record {
  cores = 2;
  used_memory = 4096;
  starts = λ worker. true;
  gets_lock = λ public worker priority. true;
}

two_cores : below (cores_of attributes) 64 ≡ 2
unfolding below CoreSet.contains Bitset.is_set
two_cores = refl

two : IsLimit 2
two = record { some_object = omega arith; small = omega arith }

usable : IsUsable attributes
usable = record {
  cores = two_cores;
  some_task = omega arith;
  few_tasks = omega arith;
  actions = two;
  groups = two;
  tasks = two;
  queues = two;
}

sized : IsSized memory attributes
sized = record {
  jobs = refl;
  ids = λ n. length-replicate (n + 1) 9;
  actions = refl;
  groups = refl;
  tasks = refl;
  queues = refl;
  buffers = λ n public l. refl;
}

initialize-IsReady_example :
    let works = start_workers (λ worker. true) 2 0 in
    let result = initialize machine memory 1 1 (some attributes) none in
    (((true ≡ false) ⊎ (true ≡ false)) × (result ≡ some (err_node_initfailed, none, none)))
    ⊎ (((true ≡ true) × (true ≡ true) × (works ≡ false)) × (result ≡ none))
    ⊎ (((true ≡ true) × (works ≡ true))
        × (i : Instance) × (result ≡ some (success, some i.info, some i))
        × IsReady 1 1 attributes i
        × IsFresh (get_or (context_at i.system.scheduler 1).queue 3 no_queue)
        × IsFresh (get_or (context_at i.system.scheduler 1).private_queue 3 no_queue))
initialize-IsReady_example =
    initialize-IsReady machine memory 1 1 attributes remains 1 3 refl usable sized (omega arith)
      (omega arith)
