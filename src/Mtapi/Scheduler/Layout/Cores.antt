-- ===== src/Mtapi/Scheduler/Layout/Cores.antt =====
-- The cores and the queues of the workers (mtapi_c/src/embb_mtapi_scheduler_t.c and
-- embb_mtapi_thread_context_t.c).
use embb.Common.{
  ℕ, zero, suc, ap, sym, ◌+◌, ◌≤◌, ◌<◌, ◌≡◌, refl, some, Bool, true, not, ◌&&◌, ◌==◌, if◌then◌else◌,
  arith, Bool-cases, inl, inr,
}
use embb.Base.CoreSet
use embb.Base.CoreSet.{CoreSet}
use embb.Mtapi.Scheduler.Layout.{find_core}

-- Whether a core is in the set, and how many of its cores are below a number.
abbrev pub has : CoreSet → ℕ → Bool
has set core = not (CoreSet.contains set core == 0)

unfoldable pub below : CoreSet → ℕ → ℕ
below set zero = 0
below set (suc n) = if has set n then below set n + 1 else below set n

below-add_one :
    (set : CoreSet) (n : ℕ)
    → below set (n + 1) ≡ (if has set n then below set n + 1 else below set n)
unfolding below
below-add_one set n = ap (below set) {x = n + 1} {y = suc n} (omega arith)

below-zero : (set : CoreSet) → below set 0 ≡ 0
unfolding below
below-zero set = refl

find_core-below :
    (set : CoreSet) (ii fuel ll core end : ℕ)
    → core + fuel ≡ end
    → ll ≡ below set core
    → ll ≤ ii
    → ii < below set end
    → (c : ℕ) × (find_core set ii fuel ll core ≡ some c)
      × (has set c ≡ true)
      × (below set c ≡ ii)
      × (c < end)
unfolding find_core
find_core-below set ii zero ll core end e l low up =
    absurd (omega (arith, ap (below set) {x = core} {y = end}))
find_core-below set ii (suc fuel) ll core end e l low up =
    elim (Bool-cases (has set core && (ll == ii))) [
      | inl here ↦ rw here (core, refl, ground arith, ground arith, omega arith)
      | inr on ↦ rw on (
          find_core-below set ii fuel (if has set core then ll + 1 else ll) (core + 1) end
            (omega arith) (ground (arith, below-add_one set core)) (ground arith) up)
    ]

-- The search for the core of a worker ends within 64 cores where the set has more cores than the
-- worker's index: at a core of the set below 64 that has as many cores of the set below it as the
-- index says, so that the workers get the cores of the set in order, each its own.
pub find_core-found :
    (set : CoreSet) (ii : ℕ)
    → ii < below set 64
    → (c : ℕ) × (find_core set ii 64 0 0 ≡ some c)
      × (has set c ≡ true)
      × (below set c ≡ ii)
      × (c < 64)
find_core-found set ii h =
    find_core-below set ii 64 0 0 64 refl (sym (below-zero set)) (omega arith) h
