-- ===== src/Mtapi/IdPool/Owners.antt =====
-- Clients of the id pool, and which ids they hold (mtapi_c/src/embb_mtapi_id_pool_t.c).
use embb.Common.{
  ℕ, zero, suc, ◌+◌, ◌≤◌, ◌<◌, ◌≡◌, ◌⊎◌, refl, ap, ◌∙◌, inl, inr, true, List, [], ◌∷◌, arith,
  length, multiplicity, erase, multiplicity-append, multiplicity-cons_self, multiplicity-erase,
  length-erase, count_up, multiplicity-count_up_out, ◌==◌, if◌then◌else◌,
}
use embb.Mtapi.IdPool.{IdPool, uint_mod, invalid_id, initialize, allocate, deallocate, available}
use embb.Mtapi.IdPool.Valid.{IsValid, initialize-IsValid, allocate-IsValid, deallocate-IsValid}
use embb.Mtapi.IdPool.Initial.{available-initialize}
use embb.Mtapi.IdPool.Refine.{allocate_cases, deallocate_cases}

-- The pool, and the ids that its clients have been given and have not given back.
pub record Clients : Type 0 where
  pub pool : IdPool
  pub held : List ℕ

unfoldable pub take : Clients → Clients
take c =
    let (id, pool) = allocate true c.pool in
    record { pool = pool; held = if id == invalid_id then c.held else id ∷ c.held }

pub give : Clients → ℕ → Clients
give c id = record { pool = deallocate true c.pool id; held = erase id c.held }

-- A client may ask for an id at any time, and give back an id that is held.
pub data Step : Clients → Clients → Type 0 where
  takes : (c : Clients) → Step c (take c)
  gives : (c : Clients) (id : ℕ) → 0 < multiplicity id c.held → Step c (give c id)

pub data Reach (s : Clients) : Clients → Type 0 where
  here : Reach s s
  later : {t u : Clients} → Reach s t → Step t u → Reach s u

unfoldable pub start : List ℕ → ℕ → Clients
start memory capacity = record { pool = initialize memory capacity; held = [] }

-- Each id from 1 to the capacity is available once or held once, and no other number is either.
pub record IsOwned (capacity : ℕ) (c : Clients) : Type 0 where
  pub valid : IsValid c.pool
  pub same : c.pool.capacity ≡ capacity
  pub all : length c.held + c.pool.ids_available ≡ capacity
  pub once :
      (a : ℕ)
      → multiplicity a (available c.pool) + multiplicity a c.held
        ≡ multiplicity a (count_up capacity 1)

start-IsOwned :
    (memory : List ℕ) (capacity : ℕ)
    → length memory ≡ capacity + 1
    → capacity + 1 < uint_mod
    → 0 < capacity
    → IsOwned capacity (start memory capacity)
unfolding start
start-IsOwned memory capacity e h pos = record {
  valid = initialize-IsValid memory capacity e h pos;
  same = unfold initialize in refl;
  all = unfold initialize in omega arith;
  once = λ a. omega (arith, ap (multiplicity a) (available-initialize memory capacity e));
}

count_up_bounds :
    (a n first : ℕ) → 0 < multiplicity a (count_up n first) → (first ≤ a) × (a < first + n)
count_up_bounds a zero first h = absurd (omega arith)
count_up_bounds a (suc n) first h = ground (arith, count_up_bounds a n (first + 1))

multiplicity-count_up-le : (a n first : ℕ) → multiplicity a (count_up n first) ≤ 1
multiplicity-count_up-le a zero first = omega arith
multiplicity-count_up-le a (suc n) first =
    ground
      (arith, multiplicity-count_up-le a n (first + 1), multiplicity-count_up_out a n (first + 1))

-- What `allocate` gives to a client: no id if all are held, and else an id of the pool that nobody
-- holds.
fresh :
    {capacity : ℕ} (c : Clients)
    → IsOwned capacity c
    → let id = (allocate true c.pool).0 in
      ((length c.held ≡ capacity) × (id ≡ invalid_id) × (take c ≡ c))
      ⊎ ((0 < id)
          × (id ≤ capacity)
          × (multiplicity id c.held ≡ 0)
          × ((take c).held ≡ id ∷ c.held)
          × (available c.pool ≡ id ∷ available (take c).pool)
          × (c.pool.ids_available ≡ (take c).pool.ids_available + 1)
          × ((take c).pool.capacity ≡ capacity))
unfolding take
fresh {capacity} c o = elim (allocate_cases o.valid) [
  | inl (empty, e, same) ↦ inl (omega arith, e, ground arith)
  | inr (e, n, kept) ↦
      let id = (allocate true c.pool).0 in
      let h : (0 < id) × (id ≤ capacity) × (multiplicity id c.held ≡ 0) = omega (
        arith,
        o.once id,
        ap (multiplicity id) e ∙ multiplicity-cons_self id _,
        count_up_bounds id capacity 1,
        multiplicity-count_up-le id capacity 1,
      ) in
      inr (h.0, h.1, h.2, ground arith, e, omega arith, kept ∙ o.same)
]

take-IsOwned : {capacity : ℕ} (c : Clients) → IsOwned capacity c → IsOwned capacity (take c)
take-IsOwned {capacity} c o = elim (fresh c o) [
  | inl (_, _, e) ↦ rw e o
  | inr (pos, le, new, h, av, n, kept) ↦ record {
    valid = unfold take in allocate-IsValid true o.valid;
    same = kept;
    all = omega (arith, o.all, ap length h);
    once = λ a. omega (arith, o.once a, ap (multiplicity a) h, ap (multiplicity a) av);
  }
]

give-IsOwned :
    {capacity : ℕ} (c : Clients) (id : ℕ)
    → 0 < multiplicity id c.held
    → IsOwned capacity c
    → IsOwned capacity (give c id)
unfolding give
give-IsOwned {capacity} c id h o =
    let d = deallocate_cases id o.valid (omega (arith, length-erase id c.held h)) in
    record {
      valid = deallocate-IsValid true id o.valid;
      same = d.2 ∙ o.same;
      all = omega (arith, length-erase id c.held h);
      once = λ a. ground (
        arith,
        o.once a,
        multiplicity-erase a id c.held,
        ap (multiplicity a) d.0,
        multiplicity-append a (available c.pool) (id ∷ []),
      );
    }

Step-IsOwned : {capacity : ℕ} {c d : Clients} → Step c d → IsOwned capacity c → IsOwned capacity d
Step-IsOwned (takes c) o = take-IsOwned c o
Step-IsOwned (gives c id h) o = give-IsOwned c id h o

Reach-IsOwned : {capacity : ℕ} {c d : Clients} → IsOwned capacity c → Reach c d → IsOwned capacity d
Reach-IsOwned o here = o
Reach-IsOwned o (later r s) = Step-IsOwned s (Reach-IsOwned o r)

-- After any sequence of calls of `allocate` and of `deallocate` on held ids, starting from a fresh
-- pool, each id from 1 to the capacity is available once or held once, and no other number is.
pub Reach-start_once :
    (memory : List ℕ) (capacity : ℕ) {c : Clients} (a : ℕ)
    → length memory ≡ capacity + 1
    → capacity + 1 < uint_mod
    → 0 < capacity
    → Reach (start memory capacity) c
    → multiplicity a (available c.pool) + multiplicity a c.held
      ≡ multiplicity a (count_up capacity 1)
Reach-start_once memory capacity a e h pos r =
    (Reach-IsOwned (start-IsOwned memory capacity e h pos) r).once a

-- At any such point `allocate` gives the invalid id, and changes nothing, if all ids are held, and
-- otherwise an id from 1 to the capacity that nobody holds.
pub Reach-start_fresh :
    (memory : List ℕ) (capacity : ℕ) {c : Clients}
    → length memory ≡ capacity + 1
    → capacity + 1 < uint_mod
    → 0 < capacity
    → Reach (start memory capacity) c
    → let id = (allocate true c.pool).0 in
      ((length c.held ≡ capacity) × (id ≡ invalid_id) × (take c ≡ c))
      ⊎ ((0 < id) × (id ≤ capacity) × (multiplicity id c.held ≡ 0) × ((take c).held ≡ id ∷ c.held))
Reach-start_fresh memory capacity {c} e h pos r =
    ground (arith, fresh c (Reach-IsOwned (start-IsOwned memory capacity e h pos) r))
