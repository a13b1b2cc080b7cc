-- ===== src/Mtapi/Pool/Modify.antt =====
-- Objects of a pool that are changed in place (mtapi_c/src/embb_mtapi_pool_template-inl.h).
use embb.Common.{
  ℕ, zero, suc, ◌+◌, ◌≤◌, ◌<◌, ◌≡◌, refl, true, false, List, [], ◌∷◌, arith, length, update,
  length-update,
}
use embb.Mtapi.IdPool.{uint_mod}
use embb.Mtapi.Pool.{
  Pool, Handle, Entry, tag_at, id_at, object_at, with_object, deallocate, is_handle_valid, modify,
  get_object, handle_of,
}
use embb.Mtapi.Pool.Stale.{deallocate-shape}

module _ {A : Type 0} where
  tag_at-with_object :
      (entries : List (Entry A)) (i j : ℕ) (change : A → A)
      → tag_at (update entries i (with_object change)) j ≡ tag_at entries j
  unfolding tag_at
  tag_at-with_object [] i j change = refl
  tag_at-with_object (e ∷ entries) zero zero change = refl
  tag_at-with_object (e ∷ entries) zero (suc j) change = refl
  tag_at-with_object (e ∷ entries) (suc i) zero change = refl
  tag_at-with_object (e ∷ entries) (suc i) (suc j) change = tag_at-with_object entries i j change

  id_at-with_object :
      (entries : List (Entry A)) (i j : ℕ) (change : A → A)
      → id_at (update entries i (with_object change)) j ≡ id_at entries j
  unfolding id_at
  id_at-with_object [] i j change = refl
  id_at-with_object (e ∷ entries) zero zero change = refl
  id_at-with_object (e ∷ entries) zero (suc j) change = refl
  id_at-with_object (e ∷ entries) (suc i) zero change = refl
  id_at-with_object (e ∷ entries) (suc i) (suc j) change = id_at-with_object entries i j change

  object_at-with_object :
      (entries : List (Entry A)) (i : ℕ) (change : A → A) (d : A)
      → i < length entries
      → object_at (update entries i (with_object change)) i d ≡ change (object_at entries i d)
  unfolding object_at
  object_at-with_object [] i change d h = absurd (omega arith)
  object_at-with_object (e ∷ entries) zero change d h = refl
  object_at-with_object (e ∷ entries) (suc i) change d h =
      object_at-with_object entries i change d (omega arith)

  -- A change in place keeps every handle.
  pub is_handle_valid-modify :
      (p : Pool A) (object : ℕ) (change : A → A) (handle : Handle)
      → is_handle_valid (modify p object change) handle ≡ is_handle_valid p handle
  unfolding is_handle_valid modify
  is_handle_valid-modify p object change handle =
      ground (arith, tag_at-with_object p.storage object handle.id change)

  pub handle_of-modify :
      (p : Pool A) (object i : ℕ) (change : A → A)
      → handle_of (modify p object change) i ≡ handle_of p i
  unfolding handle_of modify
  handle_of-modify p object i change = ground (
    arith,
    tag_at-with_object p.storage object i change,
    id_at-with_object p.storage object i change,
  )

  pub get_object-modify :
      (p : Pool A) (object : ℕ) (change : A → A) (d : A)
      → object < length p.storage
      → get_object (modify p object change) object d ≡ change (get_object p object d)
  unfolding get_object modify
  get_object-modify p object change d h = object_at-with_object p.storage object change d h

  pub length-modify :
      (p : Pool A) (object : ℕ) (change : A → A)
      → (length (modify p object change).storage ≡ length p.storage)
        × ((modify p object change).id_pool ≡ p.id_pool)
  unfolding modify
  length-modify p object change = (length-update p.storage object (with_object change), refl)

  -- Freeing an object makes its valid handle, of a tag below 2^32, invalid.
  pub is_handle_valid-deallocate :
      (finalize_object : A → A) (p : Pool A) (handle : Handle)
      → length p.storage ≡ p.id_pool.capacity + 1
      → handle.tag < uint_mod
      → is_handle_valid p handle ≡ true
      → is_handle_valid (deallocate finalize_object true p handle.id) handle ≡ false
  unfolding is_handle_valid
  is_handle_valid-deallocate fin p handle slots small valid =
      ground (arith, deallocate-shape fin true p handle.id handle.id)

  pub is_handle_valid-in_range :
      (p : Pool A) (handle : Handle)
      → is_handle_valid p handle ≡ true
      → (0 < handle.id) × (handle.id ≤ p.id_pool.capacity)
  unfolding is_handle_valid
  is_handle_valid-in_range p handle valid = ground arith
