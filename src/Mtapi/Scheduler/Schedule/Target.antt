-- ===== src/Mtapi/Scheduler/Schedule/Target.antt =====
-- The worker that a task goes to (mtapi_c/src/embb_mtapi_scheduler_t.c).
use embb.Common.{
  ℕ, zero, suc, ap, ◌+◌, ◌%◌, ◌≤◌, ◌<◌, ◌≡◌, ◌⊎◌, List, [], ◌∷◌, ◌++◌, Option, none, some, Bool,
  true, false, arith, next, set, get_or, length, get_or-set_self,
}
use native.Mathlib.Nat.{mod_self, mod-eq_of_lt, mod-lt}
use embb.Mtapi.Affinity
use embb.Mtapi.IdPool.{uint_mod}
use embb.Mtapi.Pool
use embb.Mtapi.TaskQueue
use embb.Mtapi.TaskQueue.Valid
use embb.Mtapi.TaskQueue.Fifo.{push_cases}
use embb.Mtapi.Node.{Node}
use embb.Mtapi.Task.{Task}
use embb.Mtapi.Scheduler.{Scheduler, no_queue, no_context, context_at}
use embb.Mtapi.Scheduler.Schedule.{find_worker, target_affinity, schedule_task, push_public}

abbrev in_affinity : ℕ → ℕ → ℕ → Bool
in_affinity num_cores affinity ii = (Affinity.get (some num_cores) (some affinity) ii).1

-- What a search has found, if anything, is a core of the affinity.
pub found : ℕ → ℕ → Option ℕ → Bool
found num_cores affinity none = false
found num_cores affinity (some ii) = in_affinity num_cores affinity ii

mod-next : (size i : ℕ) → i < size → size < uint_mod → (i + 1) % uint_mod % size ≡ next size i
mod-next size i h small = ground (
  arith,
  mod_self size,
  ap (λ x. x % size) {x = (i + 1) % uint_mod} {y = size},
  ap (λ x. x % size) {x = (i + 1) % uint_mod} {y = i + 1},
  mod-eq_of_lt {n = i + 1} {m = size},
)

found-find_worker :
    (num_cores affinity size k fuel ii : ℕ)
    → in_affinity num_cores affinity k ≡ true
    → k < size
    → ii < size
    → size < uint_mod
    → ((ii ≤ k) × (k ≤ ii + fuel)) ⊎ ((k < ii) × (size + k ≤ ii + fuel))
    → found num_cores affinity (find_worker num_cores affinity size fuel ii) ≡ true
unfolding find_worker found
found-find_worker num_cores affinity size k zero ii e h l small d =
    ground (arith, ap (in_affinity num_cores affinity) {x = k} {y = ii})
found-find_worker num_cores affinity size k (suc fuel) ii e h l small d =
    let wrap = mod-next size ii l small in
    let rest = found-find_worker num_cores affinity size k fuel (next size ii) e h in
    ground (
      arith,
      ap (find_worker num_cores affinity size fuel) wrap,
      ap (in_affinity num_cores affinity) {x = k} {y = ii},
    )

past_end-in_affinity :
    (num_cores affinity ii : ℕ) → num_cores ≤ ii → in_affinity num_cores affinity ii ≡ false
unfolding Affinity.get
past_end-in_affinity num_cores affinity ii h = ground arith

-- On a node whose workers are its cores, fewer than 2^32, the search for a worker of an affinity that some worker is
-- in ends within as many steps as there are workers, at a worker of the affinity, wherever the
-- counter stands.
pub found-any_start :
    (worker_count affinity k start : ℕ)
    → (Affinity.get (some worker_count) (some affinity) k).1 ≡ true
    → k < worker_count
    → worker_count < uint_mod
    → found worker_count affinity
        (find_worker worker_count affinity worker_count worker_count start)
      ≡ true
unfolding find_worker found
found-any_start zero affinity k start e h small = absurd (omega arith)
found-any_start (suc n) affinity k start e h small = ground (
  arith,
  past_end-in_affinity (suc n) affinity start,
  found-find_worker (suc n) affinity (suc n) k (suc n) start e h,
  found-find_worker (suc n) affinity (suc n) k n ((start + 1) % uint_mod % suc n) e h,
  mod-lt ((start + 1) % uint_mod) {m = suc n} (omega arith),
)

-- The search for a worker of an affinity without a core of the node goes on for ever.
pub find_worker-never :
    (worker_count affinity fuel start : ℕ)
    → ((core : ℕ)
        → core < worker_count
        → (Affinity.get (some worker_count) (some affinity) core).1 ≡ false)
    → find_worker worker_count affinity worker_count fuel start ≡ none
unfolding find_worker
find_worker-never worker_count affinity zero start outside =
    ground (arith, past_end-in_affinity worker_count affinity start, outside start)
find_worker-never worker_count affinity (suc fuel) start outside =
    let rest =
      find_worker-never worker_count affinity fuel ((start + 1) % uint_mod % worker_count)
        outside in
    ground (arith, past_end-in_affinity worker_count affinity start, outside start)

pub succeeded : Option (Bool × Node × Scheduler ℕ) → Bool
succeeded none = false
succeeded (some (pushed, node, s)) = pushed

-- The tasks in the public queue of a worker afterwards.
pub public_tasks : Option (Bool × Node × Scheduler ℕ) → ℕ → ℕ → List (Option ℕ)
public_tasks none worker priority = []
public_tasks (some (pushed, node, s)) worker priority =
    TaskQueue.tasks (get_or (context_at s worker).queue priority no_queue)

-- A task of a valid action whose affinity is that of all cores goes to the worker (task +
-- instance) modulo the number of workers: where the public queue there, of the task's priority,
-- exists, is valid and has room, the call succeeds and the task stands behind those that were
-- there.
pub public_tasks-schedule_task :
    (node : Node) (affinity_all : ℕ) (s : Scheduler ℕ) (task : ℕ) (that : Task) (instance' : ℕ)
    → Pool.is_handle_valid node.action_pool that.action ≡ true
    → target_affinity node affinity_all that ≡ affinity_all
    → let worker = (task + instance') % uint_mod % s.worker_count in
      let priority = that.attributes.priority in
      let q = get_or (context_at s worker).queue priority no_queue in
      worker < length s.worker_contexts
      → priority < length (context_at s worker).queue
      → Valid.IsValid q
      → length (TaskQueue.tasks q) < q.limit
      → let r = schedule_task node affinity_all s task that instance' in
        (succeeded r ≡ true)
        × (public_tasks r worker priority ≡ TaskQueue.tasks q ++ (some task ∷ []))
unfolding schedule_task push_public succeeded public_tasks
public_tasks-schedule_task node affinity_all s task that instance' valid all h k fits room =
    let worker = (task + instance') % uint_mod % s.worker_count in
    let priority = that.attributes.priority in
    let c = context_at s worker in
    let pushed = push_cases (some task) fits in
    let q' = (TaskQueue.push true (get_or c.queue priority no_queue) (some task)).1 in
    ground (
      arith,
      get_or-set_self s.worker_contexts worker (record c { queue = set c.queue priority q' })
          no_context,
      get_or-set_self c.queue priority q' no_queue,
    )
