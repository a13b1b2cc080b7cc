-- ===== src/Mtapi/Scheduler/Layout.antt =====
-- How the scheduler lays out its workers: mtapi_c/src/embb_mtapi_thread_context_t.c and the
-- initialisation in embb_mtapi_scheduler_t.c. Whether the thread of a worker comes up is an argument.
pub mod Cores
pub mod Fresh
mod Examples
use embb.Common.{
  ℕ, zero, suc, ◌+◌, List, [], ◌∷◌, map, Option, none, some, Bool, true, false, not, ◌&&◌, ◌==◌,
  if◌then◌else◌,
}
use embb.Base.CoreSet
use embb.Base.CoreSet.{CoreSet}
use embb.Mtapi.Attributes.Node.{NodeAttributes}
use embb.Mtapi.TaskQueue
use embb.Mtapi.TaskQueue.{TaskQueue}
use embb.Mtapi.Scheduler.{Mode, work_steal_vhpf, work_steal_lf, ThreadContext, Scheduler}

-- The search for the core of worker `ii`: `ll` cores of the set have been met below `core_num`. At
-- most `fuel` cores are looked at; `none` while it goes on.
unfoldable pub find_core : CoreSet → ℕ → ℕ → ℕ → ℕ → Option ℕ
find_core set ii zero ll core_num = none
find_core set ii (suc fuel) ll core_num =
    let met = not (CoreSet.contains set core_num == 0) in
    let rest = find_core set ii fuel (if met then ll + 1 else ll) (core_num + 1) in
    if met && (ll == ii) then some core_num else rest

-- The rest of embb_mtapi_thread_context_struct that its initialisation sets, beside the queues.
pub record Worker (A : Type 0) : Type 0 where
  pub worker_index : ℕ
  pub core_num : ℕ
  pub priorities : ℕ
  pub run : ℕ
  pub is_sleeping : Bool
  pub context : ThreadContext A

-- The loop that starts the workers from `ii` on, up to the first that does not come up.
unfoldable pub start_workers : (ℕ → Bool) → ℕ → ℕ → Bool
start_workers starts zero ii = true
start_workers starts (suc rounds) ii =
    let rest = start_workers starts rounds (ii + 1) in if starts ii then rest else false

abbrev pub sanitized : Mode → Mode
sanitized work_steal_lf = work_steal_lf
sanitized _ = work_steal_vhpf

module _ {A : Type 0} where
  -- The queues of the levels from `ii` on, for the rounds left: `memory` gives the block of each.
  unfoldable pub initialize_levels : (ℕ → List (Option A)) → ℕ → ℕ → ℕ → List (TaskQueue A)
  initialize_levels memory limit zero ii = []
  initialize_levels memory limit (suc rounds) ii =
      TaskQueue.initialize_with_capacity (memory ii) limit
      ∷ initialize_levels memory limit rounds (ii + 1)

  -- `memory` gives the blocks of the public (`true`) and of the private queues.
  unfoldable pub initialize_with_node_worker_and_core :
      (Bool → ℕ → List (Option A)) → NodeAttributes → ℕ → ℕ → Worker A
  initialize_with_node_worker_and_core memory attributes worker_index core_num = record {
    worker_index = worker_index;
    core_num = core_num;
    priorities = attributes.max_priorities;
    run = 0;
    is_sleeping = false;
    context = record {
      queue = initialize_levels (memory true) attributes.queue_limit attributes.max_priorities 0;
      private_queue =
          initialize_levels (memory false) attributes.queue_limit attributes.max_priorities 0;
    };
  }

  abbrev pub and_worker :
      Option ℕ → (ℕ → Worker A) → Option (List (Worker A)) → Option (List (Worker A))
  and_worker (some core) new (some workers) = some (new core ∷ workers)
  and_worker _ new _ = none

  -- The loop over the workers from `ii` on, for the rounds left; `none` where it goes on for ever. A
  -- set has at most 64 cores.
  unfoldable pub initialize_workers :
      (ℕ → Bool → ℕ → List (Option A)) → NodeAttributes → ℕ → ℕ → Option (List (Worker A))
  initialize_workers memory attributes zero ii = some []
  initialize_workers memory attributes (suc rounds) ii =
      and_worker (find_core (record { rep = attributes.core_affinity }) ii 64 0 0)
        (initialize_with_node_worker_and_core (memory ii) attributes ii)
        (initialize_workers memory attributes rounds (ii + 1))

  abbrev pub with_workers :
      (ℕ → Bool)
      → (Bool → ℕ → ℕ → Bool)
      → Mode
      → NodeAttributes
      → Option (List (Worker A))
      → Option (Bool × Scheduler A × List (Worker A))
  with_workers starts gets_lock mode attributes none = none
  with_workers starts gets_lock mode attributes (some workers) = some (
    start_workers starts attributes.num_cores 0,
    record {
      worker_count = attributes.num_cores;
      worker_contexts = map (λ w. w.context) workers;
      mode = sanitized mode;
      affine_task_counter = 0;
      gets_lock = gets_lock;
    },
    workers,
  )

  -- embb_mtapi_scheduler_initialize_with_mode; `starts` tells whether a worker comes up.
  unfoldable pub initialize_with_mode :
      (ℕ → Bool)
      → (Bool → ℕ → ℕ → Bool)
      → (ℕ → Bool → ℕ → List (Option A))
      → NodeAttributes
      → Mode
      → Option (Bool × Scheduler A × List (Worker A))
  initialize_with_mode starts gets_lock memory attributes mode =
      with_workers starts gets_lock mode attributes
        (initialize_workers memory attributes attributes.num_cores 0)
