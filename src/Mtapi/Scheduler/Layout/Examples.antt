-- ===== src/Mtapi/Scheduler/Layout/Examples.antt =====
-- A node of two workers on the cores 1 and 3 (mtapi_c/src/embb_mtapi_scheduler_t.c).
use embb.Common.{ℕ, ◌≡◌, refl, List, [], ◌∷◌, Option, none, some, Bool, true, arith, get_or}
use embb.Base.CoreSet
use embb.Base.Bitset
use embb.Mtapi.Attributes.Node.{NodeAttributes}
use embb.Mtapi.Samples.{sample_node}
use embb.Mtapi.Scheduler.{Scheduler, work_steal_lf, no_queue, context_at}
use embb.Mtapi.Scheduler.Layout.{Worker, find_core, initialize_with_mode, start_workers}
use embb.Mtapi.Scheduler.Layout.Cores.{below}
use embb.Mtapi.Scheduler.Layout.Fresh.{
  cores_of, no_worker, IsPlaced, IsFresh, initialize_with_mode-IsPlaced,
}

abbrev two_of_four : NodeAttributes
two_of_four = record sample_node.attributes { core_affinity = 10 }

abbrev blocks : ℕ → Bool → ℕ → List (Option ℕ)
blocks n public l = none ∷ none ∷ []

two_cores : below (cores_of two_of_four) 64 ≡ 2
unfolding below CoreSet.contains Bitset.is_set
two_cores = refl

find_core_test : find_core (cores_of two_of_four) 1 64 0 0 ≡ some 3
unfolding find_core CoreSet.contains Bitset.is_set
find_core_test = refl

initialize_with_mode-IsPlaced_test :
    (s : Scheduler ℕ) × (ws : List (Worker ℕ)) × (initialize_with_mode
        (λ i. true)
        (λ p i k. true)
        blocks
        two_of_four
        work_steal_lf
      ≡ some (start_workers (λ i. true) 2 0, s, ws))
    × (s.worker_count ≡ 2)
    × IsPlaced blocks two_of_four 1 (get_or ws 1 no_worker)
    × IsFresh (get_or (context_at s 1).queue 3 no_queue)
    × IsFresh (get_or (context_at s 1).private_queue 3 no_queue)
initialize_with_mode-IsPlaced_test =
    initialize_with_mode-IsPlaced (λ i. true) (λ p i k. true) blocks two_of_four work_steal_lf 1 3
      two_cores (omega arith) (λ n public l. refl) (omega arith) (omega arith) (omega arith)
