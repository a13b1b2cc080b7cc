-- ===== src/Mtapi/Scheduler/Layout/Fresh.antt =====
-- The workers that the scheduler starts with (mtapi_c/src/embb_mtapi_scheduler_t.c and
-- embb_mtapi_thread_context_t.c).
use embb.Common.{
  ℕ, zero, suc, ap, sym, ◌∙◌, ◌+◌, ◌≤◌, ◌<◌, ◌≡◌, refl, List, [], ◌∷◌, map, Option, some, Bool,
  true, false, arith, length, get_or,
}
use mathlib.Core.Path.{subst}
use embb.Base.CoreSet.{CoreSet}
use embb.Mtapi.IdPool.{uint_mod}
use embb.Mtapi.Attributes.Node.{NodeAttributes}
use embb.Mtapi.TaskQueue
use embb.Mtapi.TaskQueue.Valid.{IsValid, initialize_with_capacity-IsValid}
use embb.Mtapi.Scheduler.{Scheduler, Mode, no_queue, no_context, context_at}
use embb.Mtapi.Scheduler.Layout.{
  Worker, initialize_levels, initialize_with_node_worker_and_core, initialize_workers, and_worker,
  initialize_with_mode, with_workers, start_workers,
}
use embb.Mtapi.Scheduler.Layout.Cores.{has, below, find_core-found}

abbrev pub cores_of : NodeAttributes → CoreSet
cores_of attributes = record { rep = attributes.core_affinity }

module _ {A : Type 0} where
  -- What stands behind a worker pointer out of bounds.
  abbrev pub no_worker : Worker A
  no_worker = record {
    worker_index = 0;
    core_num = 0;
    priorities = 0;
    run = 0;
    is_sleeping = false;
    context = no_context;
  }

  -- The worker `ii` of the node: on the core of the set that has `ii` cores of the set below it, with
  -- the queues that its initialisation gives it.
  pub record IsPlaced (memory : ℕ → Bool → ℕ → List (Option A)) (attributes : NodeAttributes)
      (ii : ℕ) (w : Worker A) : Type 0 where
    pub in_set : has (cores_of attributes) w.core_num ≡ true
    pub position : below (cores_of attributes) w.core_num ≡ ii
    pub low : w.core_num < 64
    pub made : w ≡ initialize_with_node_worker_and_core (memory ii) attributes ii w.core_num

  placed-cons :
      (P : ℕ → Worker A → Type 0) (w : Worker A) (ws : List (Worker A)) (ii n : ℕ)
      → P ii w
      → ((j : ℕ) → j < n → P (ii + 1 + j) (get_or ws j no_worker))
      → (j : ℕ) → j < suc n
      → P (ii + j) (get_or (w ∷ ws) j no_worker)
  placed-cons P w ws ii n first rest zero l = let e : ii ≡ ii + 0 = omega arith in rw (← e) first
  placed-cons P w ws ii n first rest (suc j) l =
      let e : ii + 1 + j ≡ ii + suc j = omega arith in rw (← e) (rest j (omega arith))

  workers-IsPlaced :
      (memory : ℕ → Bool → ℕ → List (Option A)) (attributes : NodeAttributes) (rounds ii : ℕ)
      → ii + rounds ≤ below (cores_of attributes) 64
      → (ws : List (Worker A)) × (initialize_workers memory attributes rounds ii ≡ some ws)
        × (length ws ≡ rounds)
        × ((j : ℕ) → j < rounds → IsPlaced memory attributes (ii + j) (get_or ws j no_worker))
  unfolding initialize_workers initialize_with_node_worker_and_core
  workers-IsPlaced memory attributes zero ii h = ([], refl, refl, λ j l. absurd (omega arith))
  workers-IsPlaced memory attributes (suc rounds) ii h =
      let (c, e, member, place, low) = find_core-found (cores_of attributes) ii (omega arith) in
      let (ws, e', len, placed) =
        workers-IsPlaced memory attributes rounds (ii + 1) (omega arith) in
      let new = initialize_with_node_worker_and_core (memory ii) attributes ii in
      (
        new c ∷ ws,
        ap (λ x. and_worker x new (initialize_workers memory attributes rounds (ii + 1))) e
            ∙ ap (and_worker (some c) new) e',
        omega (arith, len),
        placed-cons (IsPlaced memory attributes) (new c) ws ii rounds
            (record { in_set = member; position = place; low = low; made = refl }) placed,
      )

  get_or-map_context :
      (ws : List (Worker A)) (i : ℕ)
      → get_or (map (λ w. w.context) ws) i no_context ≡ (get_or ws i no_worker).context
  get_or-map_context [] i = refl
  get_or-map_context (w ∷ ws) zero = refl
  get_or-map_context (w ∷ ws) (suc i) = get_or-map_context ws i

  abbrev pub IsFresh : TaskQueue.TaskQueue A → Type 0
  IsFresh q = IsValid q × (TaskQueue.tasks q ≡ [])

  -- The queues of a worker's context at a level below its priorities are valid and empty, where each
  -- block has queue_limit entries.
  levels-IsFresh :
      (memory : ℕ → List (Option A)) (limit rounds ii k : ℕ)
      → ((n : ℕ) → length (memory n) ≡ limit)
      → limit < uint_mod
      → 0 < limit
      → k < rounds
      → let q = get_or (initialize_levels memory limit rounds ii) k no_queue in IsFresh q
  unfolding initialize_levels TaskQueue.initialize_with_capacity
  levels-IsFresh memory limit zero ii k e small pos h = absurd (omega arith)
  levels-IsFresh memory limit (suc rounds) ii zero e small pos h =
      (initialize_with_capacity-IsValid (memory ii) limit (e ii) small pos, refl)
  levels-IsFresh memory limit (suc rounds) ii (suc k) e small pos h =
      levels-IsFresh memory limit rounds (ii + 1) k e small pos (omega arith)

  IsFresh-made :
      (memory : ℕ → Bool → ℕ → List (Option A)) (attributes : NodeAttributes) (ii k : ℕ)
      (w : Worker A)
      → ((n : ℕ) → (public : Bool) → (l : ℕ) → length (memory n public l) ≡ attributes.queue_limit)
      → attributes.queue_limit < uint_mod
      → 0 < attributes.queue_limit
      → k < attributes.max_priorities
      → w ≡ initialize_with_node_worker_and_core (memory ii) attributes ii w.core_num
      → IsFresh (get_or w.context.queue k no_queue)
        × IsFresh (get_or w.context.private_queue k no_queue)
  unfolding initialize_with_node_worker_and_core
  IsFresh-made memory attributes ii k w e small pos h made =
      let levels = λ (public : Bool).
        levels-IsFresh (memory ii public) attributes.queue_limit attributes.max_priorities 0 k
          (e ii public) small pos h in
      (
        subst (λ (x : Worker A). IsFresh (get_or x.context.queue k no_queue)) (sym made)
            (levels true),
        subst (λ (x : Worker A). IsFresh (get_or x.context.private_queue k no_queue)) (sym made)
            (levels false),
      )

  -- The initialisation of the scheduler of a node with at least one priority, whose core_affinity has
  -- num_cores cores below 64, at least one, with blocks of queue_limit entries, at least one and fewer than 2^32, returns, with the result that
  -- the workers' threads give; every worker below num_cores is on the core of the set that has as many
  -- cores of the set below it as the worker's number says, and its public and its private queue for
  -- every priority below max_priorities are valid and hold no task.
  pub initialize_with_mode-IsPlaced :
      (starts : ℕ → Bool) (gets_lock : Bool → ℕ → ℕ → Bool)
      (memory : ℕ → Bool → ℕ → List (Option A)) (attributes : NodeAttributes) (mode : Mode)
      (ii k : ℕ)
      → below (cores_of attributes) 64 ≡ attributes.num_cores
      → ii < attributes.num_cores
      → ((n : ℕ) → (public : Bool) → (l : ℕ) → length (memory n public l) ≡ attributes.queue_limit)
      → attributes.queue_limit < uint_mod
      → 0 < attributes.queue_limit
      → k < attributes.max_priorities
      → (s : Scheduler A) × (ws : List (Worker A)) × (initialize_with_mode starts gets_lock memory
            attributes mode
          ≡ some (start_workers starts attributes.num_cores 0, s, ws))
        × (s.worker_count ≡ attributes.num_cores)
        × IsPlaced memory attributes ii (get_or ws ii no_worker)
        × IsFresh (get_or (context_at s ii).queue k no_queue)
        × IsFresh (get_or (context_at s ii).private_queue k no_queue)
  unfolding initialize_with_mode
  initialize_with_mode-IsPlaced starts gets_lock memory attributes mode ii k e h blocks small pos
        l =
      let (ws, made, len, placed) =
        workers-IsPlaced memory attributes attributes.num_cores 0 (omega (arith, e)) in
      let w = get_or ws ii no_worker in
      let same : 0 + ii ≡ ii = omega arith in
      let here : IsPlaced memory attributes ii w =
        subst (λ x. IsPlaced memory attributes x w) same (placed ii h) in
      let fresh = IsFresh-made memory attributes ii k w blocks small pos l here.made in
      let at = get_or-map_context ws ii in
      (
        _,
        ws,
        ap (with_workers starts gets_lock mode attributes) made,
        refl,
        here,
        subst (λ c. IsFresh (get_or c.queue k no_queue)) (sym at) fresh.0,
        subst (λ c. IsFresh (get_or c.private_queue k no_queue)) (sym at) fresh.1,
      )
