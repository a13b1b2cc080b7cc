-- ===== src/Mtapi/Spinlock/Exclusion.antt =====
-- Threads at a spinlock (mtapi_c/src/embb_mtapi_spinlock_t.c).
use embb.Common.{
  ℕ, zero, suc, ap, ◌∙◌, some, ◌+◌, ◌≤◌, ◌<◌, ◌≡◌, ◌≢◌, refl, List, [], ◌∷◌, true, false, arith,
  length, ◌==◌, if◌then◌else◌, multiplicity, erase, length-erase,
}
use embb.Mtapi.Spinlock.{
  compare_and_swap, initialize, try_acquire, release, acquire, spin_from, tries,
  acquire_with_spincount,
}

-- The lock, and the threads that acquired it and have not released it.
pub record Lock : Type 0 where
  pub value : ℕ
  pub holders : List ℕ

unfoldable pub try : ℕ → Lock → Lock
try thread l =
    let (acquired, value) = try_acquire l.value in
    record { value = value; holders = if acquired then thread ∷ l.holders else l.holders }

unfoldable pub give_up : ℕ → Lock → Lock
give_up thread l = record { value = (release l.value).1; holders = erase thread l.holders }

-- A try of any thread, and a release by a thread that holds the lock.
pub data Step : Lock → Lock → Type 0 where
  tries_to_acquire : (thread : ℕ) (l : Lock) → Step l (try thread l)
  releases : (thread : ℕ) (l : Lock) → 0 < multiplicity thread l.holders → Step l (give_up thread l)

pub data Reach (start : Lock) : Lock → Type 0 where
  here : Reach start start
  later : {l l' : Lock} → Reach start l → Step l l' → Reach start l'

abbrev pub free : Lock
free = record { value = initialize; holders = [] }

IsExclusive : Lock → Type 0
IsExclusive l = (length l.holders ≡ l.value) × (l.value ≤ 1)

Step-IsExclusive : {l l' : Lock} → Step l l' → IsExclusive l → IsExclusive l'
unfolding IsExclusive try give_up try_acquire release compare_and_swap
Step-IsExclusive (tries_to_acquire thread l) (e, h) = ground arith
Step-IsExclusive (releases thread l held) (e, h) =
    let shorter = length-erase thread l.holders held in ground arith

Reach-IsExclusive : {l : Lock} → Reach free l → IsExclusive l
unfolding IsExclusive initialize
Reach-IsExclusive here = (refl, omega arith)
Reach-IsExclusive (later r s) = Step-IsExclusive s (Reach-IsExclusive r)

-- Whatever the threads do from the free lock on, at most one of them holds it, the lock is free just
-- when none does, and the release of one that holds it succeeds.
pub Reach-exclusive :
    {l : Lock}
    → Reach free l
    → (length l.holders ≤ 1)
      × ((try_acquire l.value).0 ≡ (length l.holders == 0))
      × ((release l.value).0 ≡ (length l.holders == 1))
unfolding IsExclusive try_acquire release compare_and_swap
Reach-exclusive r = let exclusive = Reach-IsExclusive r in ground arith

spin_from-found :
    (seen : ℕ → ℕ) (i k spin_count : ℕ)
    → seen (i + k) ≡ 0
    → k < spin_count
    → spin_from seen i spin_count ≡ true
unfolding spin_from try_acquire compare_and_swap
spin_from-found seen i k zero e h = absurd (omega arith)
spin_from-found seen i zero (suc spin_count) e h =
    ground (arith, ap seen {x = i + zero} {y = i} (omega arith))
spin_from-found seen i (suc k) (suc spin_count) e h =
    let same = ap seen {x = i + 1 + k} {y = i + suc k} (omega arith) in
    let rest = spin_from-found seen (i + 1) k spin_count (same ∙ e) (omega arith) in ground arith

spin_from-busy :
    (seen : ℕ → ℕ) (i spin_count : ℕ)
    → ((k : ℕ) → k < spin_count → seen (i + k) ≢ 0)
    → spin_from seen i spin_count ≡ false
unfolding spin_from try_acquire compare_and_swap
spin_from-busy seen i zero busy = refl
spin_from-busy seen i (suc spin_count) busy =
    let now = ap seen {x = i + zero} {y = i} (omega arith) in
    let first = busy 0 (omega arith) in
    let rest = spin_from-busy seen (i + 1) spin_count λ k h e.
      busy (suc k) (omega (arith, h)) (ap seen {x = i + suc k} {y = i + 1 + k} (omega arith) ∙ e) in
    ground arith

-- The try with a spin count succeeds where the lock is free at one of that many tries, or of 2^32
-- tries for a count of 0.
pub acquire_with_spincount-found :
    (seen : ℕ → ℕ) (k max_spin_count : ℕ)
    → seen k ≡ 0
    → k < tries max_spin_count
    → acquire_with_spincount seen max_spin_count ≡ true
unfolding acquire_with_spincount
acquire_with_spincount-found seen k max_spin_count e h =
    spin_from-found seen 0 k (tries max_spin_count) (ap seen {x = 0 + k} {y = k} (omega arith) ∙ e)
      h

-- The try with a spin count fails where the lock is taken at each of that many tries, or of 2^32
-- tries for a count of 0.
pub acquire_with_spincount-busy :
    (seen : ℕ → ℕ) (max_spin_count : ℕ)
    → ((k : ℕ) → k < tries max_spin_count → seen k ≢ 0)
    → acquire_with_spincount seen max_spin_count ≡ false
unfolding acquire_with_spincount
acquire_with_spincount-busy seen max_spin_count busy =
    spin_from-busy seen 0 (tries max_spin_count)
      λ k h e. busy k h (ap seen {x = k} {y = 0 + k} (omega arith) ∙ e)

-- embb_mtapi_spinlock_acquire returns at the first try that finds the lock free: k + 1 tries are
-- enough where try k does.
pub acquire-first :
    (seen : ℕ → ℕ) (i k : ℕ)
    → ((j : ℕ) → j < k → seen (i + j) ≢ 0)
    → seen (i + k) ≡ 0
    → acquire seen i (suc k) ≡ some (i + k)
unfolding acquire try_acquire compare_and_swap
acquire-first seen i zero busy e = ground (arith, ap seen {x = i + zero} {y = i} (omega arith))
acquire-first seen i (suc k) busy e =
    let now = ap seen {x = i + zero} {y = i} (omega arith) in
    let first = busy 0 (omega arith) in
    let rest =
      acquire-first seen (i + 1) k
        (λ j h d.
          busy (suc j) (omega (arith, h))
            (ap seen {x = i + suc j} {y = i + 1 + j} (omega arith) ∙ d))
        (ap seen {x = i + 1 + k} {y = i + suc k} (omega arith) ∙ e) in
    ground arith
