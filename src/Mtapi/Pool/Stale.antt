-- ===== src/Mtapi/Pool/Stale.antt =====
-- Handles of freed objects are told apart by their tags
-- (mtapi_c/src/embb_mtapi_pool_template-inl.h).
use embb.Common.{
  ℕ, zero, suc, ◌+◌, ◌%◌, ◌<◌, ◌≡◌, refl, List, [], ◌∷◌, Bool, true, arith, length, update, ◌==◌,
  if◌then◌else◌, length-update,
}
use embb.Mtapi.IdPool
use embb.Mtapi.IdPool.{uint_mod}
use embb.Mtapi.IdPool.Valid.{capacity-allocate, capacity-deallocate}
use embb.Mtapi.Pool.{
  Pool, Handle, Entry, tag_at, id_at, with_id, retire, allocate, deallocate, is_handle_valid,
}

pub data Op : Type 0 where
  allocates : Bool → Op
  deallocates : Bool → ℕ → Op

-- How often a list of calls frees the entry at an index.
pub freed : ℕ → List Op → ℕ
freed i [] = 0
freed i (allocates locked ∷ ops) = freed i ops
freed i (deallocates locked object ∷ ops) = (if object == i then 1 else 0) + freed i ops

module _ {A : Type 0} where
  tag_at-with_id :
      (entries : List (Entry A)) (i id j : ℕ)
      → tag_at (update entries i (with_id id)) j ≡ tag_at entries j
  unfolding tag_at
  tag_at-with_id [] i id j = refl
  tag_at-with_id (e ∷ entries) zero id zero = refl
  tag_at-with_id (e ∷ entries) zero id (suc j) = refl
  tag_at-with_id (e ∷ entries) (suc i) id zero = refl
  tag_at-with_id (e ∷ entries) (suc i) id (suc j) = tag_at-with_id entries i id j

  tag_at-retire :
      (finalize_object : A → A) (entries : List (Entry A)) (i j : ℕ)
      → j < length entries
      → tag_at (update entries i (retire finalize_object)) j
        ≡ (if i == j then (tag_at entries j + 1) % uint_mod else tag_at entries j)
  unfolding tag_at
  tag_at-retire fin [] i j h = absurd (omega arith)
  tag_at-retire fin (e ∷ entries) zero zero h = ground arith
  tag_at-retire fin (e ∷ entries) zero (suc j) h = ground arith
  tag_at-retire fin (e ∷ entries) (suc i) zero h = ground arith
  tag_at-retire fin (e ∷ entries) (suc i) (suc j) h = ground (arith, tag_at-retire fin entries i j)

  module _ (finalize_object : A → A) where
    pub run : Pool A → List Op → Pool A
    run p [] = p
    run p (allocates locked ∷ ops) = run (allocate locked p).1 ops
    run p (deallocates locked object ∷ ops) = run (deallocate finalize_object locked p object) ops

    allocate-shape :
        (locked : Bool) (p : Pool A) (i : ℕ)
        → let p' = (allocate locked p).1 in
          (p'.id_pool.capacity ≡ p.id_pool.capacity)
          × (length p'.storage ≡ length p.storage)
          × (tag_at p'.storage i ≡ tag_at p.storage i)
    unfolding allocate
    allocate-shape locked p i =
        let id = (IdPool.allocate locked p.id_pool).0 in
        ground (
          arith,
          capacity-allocate locked p.id_pool,
          length-update p.storage id (with_id id),
          tag_at-with_id p.storage id id i,
        )

    pub deallocate-shape :
        (locked : Bool) (p : Pool A) (object i : ℕ)
        → i < length p.storage
        → let p' = deallocate finalize_object locked p object in
          (p'.id_pool.capacity ≡ p.id_pool.capacity)
          × (length p'.storage ≡ length p.storage)
          × (tag_at p'.storage i
              ≡ (if object == i then (tag_at p.storage i + 1) % uint_mod else tag_at p.storage i))
    unfolding deallocate
    deallocate-shape locked p object i h = (
      capacity-deallocate locked p.id_pool _,
      length-update p.storage object (retire finalize_object),
      tag_at-retire finalize_object p.storage object i h,
    )

    capacity-run : (p : Pool A) (ops : List Op) → (run p ops).id_pool.capacity ≡ p.id_pool.capacity
    unfolding run deallocate
    capacity-run p [] = refl
    capacity-run p (allocates locked ∷ ops) =
        ground (arith, capacity-run (allocate locked p).1 ops, allocate-shape locked p 0)
    capacity-run p (deallocates locked object ∷ ops) = ground (
      arith,
      capacity-run (deallocate finalize_object locked p object) ops,
      capacity-deallocate locked p.id_pool (id_at p.storage object),
    )

    tag_at-run :
        (p : Pool A) (ops : List Op) (i : ℕ)
        → i < length p.storage
        → tag_at p.storage i < uint_mod
        → tag_at (run p ops).storage i ≡ (tag_at p.storage i + freed i ops) % uint_mod
    unfolding run freed
    tag_at-run p [] i h small = ground arith
    tag_at-run p (allocates locked ∷ ops) i h small =
        ground (arith, tag_at-run (allocate locked p).1 ops i, allocate-shape locked p i)
    tag_at-run p (deallocates locked object ∷ ops) i h small = ground (
      arith,
      tag_at-run (deallocate finalize_object locked p object) ops i,
      deallocate-shape locked p object i,
    )

    -- In a pool with an entry for each id and entry 0, after any calls of allocate and deallocate,
    -- a handle that was valid, of a tag below 2^32, is valid just when its entry has been freed a
    -- multiple of 2^32 times since.
    pub is_handle_valid-run :
        (p : Pool A) (ops : List Op) (handle : Handle)
        → length p.storage ≡ p.id_pool.capacity + 1
        → handle.tag < uint_mod
        → is_handle_valid p handle ≡ true
        → is_handle_valid (run p ops) handle ≡ (freed handle.id ops % uint_mod == 0)
    unfolding is_handle_valid
    is_handle_valid-run p ops handle slots small valid =
        ground (arith, tag_at-run p ops handle.id, capacity-run p ops)
