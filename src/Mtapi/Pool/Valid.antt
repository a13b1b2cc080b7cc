-- ===== src/Mtapi/Pool/Valid.antt =====
-- What the object pools keep true (mtapi_c/src/embb_mtapi_pool_template-inl.h).
use embb.Common.{
  ℕ, zero, suc, ◌+◌, ◌≤◌, ◌<◌, ◌≡◌, ◌⊎◌, refl, ap, true, none, some, List, [], ◌∷◌, arith, length,
  update, length-update, multiplicity, multiplicity-append, multiplicity-cons_self,
  multiplicity-count_up_out,
}
use embb.Mtapi.IdPool
use embb.Mtapi.IdPool.{IdPool, uint_mod, available}
use embb.Mtapi.IdPool.Valid
use embb.Mtapi.IdPool.Valid.{capacity-initialize, capacity-deallocate}
use embb.Mtapi.IdPool.Refine.{allocate_cases, deallocate_refines}
use embb.Mtapi.IdPool.Initial.{available-initialize}
use embb.Mtapi.Pool.{
  Pool, Entry, tag_at, id_at, with_id, retire, clear_handle, clear_handles, initialize, allocate,
  deallocate, is_handle_valid, handle_of,
}

-- The id pool is in order, there is an entry for each id and the invalid entry 0, and the ids that
-- can be given are ids of entries.
pub record IsValid {A : Type 0} (p : Pool A) : Type 0 where
  pub ids : Valid.IsValid p.id_pool
  pub slots : length p.storage ≡ p.id_pool.capacity + 1
  pub in_range :
      (id : ℕ) → 0 < multiplicity id (available p.id_pool) → (0 < id) × (id ≤ p.id_pool.capacity)

module _ {A : Type 0} where
  length-clear_handles :
      (rounds ii : ℕ) (entries : List (Entry A))
      → length (clear_handles rounds ii entries) ≡ length entries
  unfolding clear_handles
  length-clear_handles zero ii entries = refl
  length-clear_handles (suc rounds) ii entries = omega (
    arith,
    length-clear_handles rounds (ii + 1) (update entries ii clear_handle),
    length-update entries ii clear_handle,
  )

  pub initialize-IsValid :
      (initialize_object : A → A) (ids : List ℕ) (entries : List (Entry A)) (capacity : ℕ)
      → length ids ≡ capacity + 1
      → length entries ≡ capacity + 1
      → capacity + 1 < uint_mod
      → 0 < capacity
      → IsValid (initialize initialize_object ids entries capacity)
  unfolding initialize
  initialize-IsValid f ids entries capacity e k small pos = record {
    ids = Valid.initialize-IsValid ids capacity e small pos;
    slots = omega (
      arith,
      length-update (clear_handles (capacity + 1) 0 entries) 0
          (λ e. record e { object = f e.object }),
      length-clear_handles (capacity + 1) 0 entries,
      capacity-initialize ids capacity,
      k,
    );
    in_range = λ id h. ground (
      arith,
      ap (multiplicity id) (available-initialize ids capacity e),
      multiplicity-count_up_out id capacity 1,
      capacity-initialize ids capacity,
    );
  }

  id_at-with_id :
      (entries : List (Entry A)) (i id : ℕ)
      → i < length entries
      → id_at (update entries i (with_id id)) i ≡ id
  unfolding id_at
  id_at-with_id [] i id h = absurd (omega arith)
  id_at-with_id (e ∷ entries) zero id h = refl
  id_at-with_id (e ∷ entries) (suc i) id h = id_at-with_id entries i id (omega arith)

  pub allocate-IsValid : {p : Pool A} → IsValid p → IsValid (allocate true p).1
  unfolding allocate
  allocate-IsValid {p} v =
      let ids = Valid.allocate-IsValid true v.ids in
      let cases = allocate_cases v.ids in
      record {
        ids = ground arith;
        slots = ground (
          arith,
          length-update p.storage (IdPool.allocate true p.id_pool).0
              (with_id (IdPool.allocate true p.id_pool).0),
        );
        in_range = λ id h. ground (arith, v.in_range id);
      }

  pub deallocate-IsValid :
      (finalize_object : A → A) {p : Pool A} (object : ℕ)
      → IsValid p
      → 0 < object
      → object ≤ p.id_pool.capacity
      → id_at p.storage object ≡ object
      → IsValid (deallocate finalize_object true p object)
  unfolding deallocate
  deallocate-IsValid fin {p} object v pos low e = record {
    ids = Valid.deallocate-IsValid true _ v.ids;
    slots = omega (
      arith,
      length-update p.storage object (retire fin),
      capacity-deallocate true p.id_pool (id_at p.storage object),
      v.slots,
    );
    in_range = λ id h. ground (
      arith,
      v.in_range id,
      deallocate_refines (id_at p.storage object) v.ids,
      multiplicity-append id (available p.id_pool) (id_at p.storage object ∷ []),
      capacity-deallocate true p.id_pool (id_at p.storage object),
    );
  }

  -- allocate on a valid pool fails where no id is available, and otherwise returns the entry of the
  -- id that was first available: it then carries its own index as id, and its handle is valid.
  pub allocate-handle :
      {p : Pool A}
      → IsValid p
      → let (result, p') = allocate true p in
        let id = (IdPool.allocate true p.id_pool).0 in
        ((result ≡ none) × (p.id_pool.ids_available ≡ 0) × (p' ≡ p))
        ⊎ ((result ≡ some id)
            × (available p.id_pool ≡ id ∷ available p'.id_pool)
            × (id_at p'.storage id ≡ id)
            × (is_handle_valid p' (record { tag = tag_at p'.storage id; id = id }) ≡ true))
  unfolding allocate is_handle_valid
  allocate-handle {p} v =
      let id = (IdPool.allocate true p.id_pool).0 in
      let cases = allocate_cases v.ids in
      ground (
        arith,
        v.in_range id,
        id_at-with_id p.storage id id,
        multiplicity-cons_self id (available (IdPool.allocate true p.id_pool).1),
      )

  -- The two outcomes of `allocate` on a valid pool, for the caller that goes on with the entry.
  pub allocate_ready :
      {p : Pool A}
      → IsValid p
      → let (result, p') = allocate true p in
        let id = (IdPool.allocate true p.id_pool).0 in
        ((result ≡ none) × (p.id_pool.ids_available ≡ 0) × (p' ≡ p))
        ⊎ ((result ≡ some id)
            × (0 < p.id_pool.ids_available)
            × (0 < id)
            × (id < length p'.storage)
            × ((handle_of p' id).id ≡ id)
            × (is_handle_valid p' (handle_of p' id) ≡ true))
  unfolding handle_of is_handle_valid allocate
  allocate_ready {p} v =
      let id = (IdPool.allocate true p.id_pool).0 in
      let cases = allocate_cases v.ids in
      ground (
        arith,
        v.in_range id,
        id_at-with_id p.storage id id,
        length-update p.storage id (with_id id),
        multiplicity-cons_self id (available (IdPool.allocate true p.id_pool).1),
      )
