-- ===== src/Mtapi/Pool.antt =====
-- The pool of objects of a type, mtapi_c/src/embb_mtapi_pool_template-inl.h. A pointer into the
-- storage is the index of the entry. `locked` is what acquiring the id pool's lock returned.
pub mod Valid
pub mod Stale
pub mod Modify
mod Examples
use embb.Common.{
  ℕ, zero, suc, ◌+◌, ◌%◌, List, [], ◌∷◌, Bool, ◌&&◌, Option, none, some, ltb, leb, ◌==◌,
  if◌then◌else◌, update,
}
use embb.Mtapi.IdPool
use embb.Mtapi.IdPool.{IdPool, uint_mod, invalid_id}

pub record Handle : Type 0 where
  pub tag : ℕ
  pub id : ℕ

-- What each pooled struct begins with, its handle, and the rest of the struct.
pub record Entry (A : Type 0) : Type 0 where
  pub tag : ℕ
  pub id : ℕ
  pub object : A

pub record Pool (A : Type 0) : Type 0 where
  pub id_pool : IdPool
  pub storage : List (Entry A)

module _ {A : Type 0} where
  -- The tag and the id of the entry at an index, 0 out of bounds.
  unfoldable pub tag_at : List (Entry A) → ℕ → ℕ
  tag_at [] i = 0
  tag_at (e ∷ entries) zero = e.tag
  tag_at (e ∷ entries) (suc i) = tag_at entries i

  unfoldable pub id_at : List (Entry A) → ℕ → ℕ
  id_at [] i = 0
  id_at (e ∷ entries) zero = e.id
  id_at (e ∷ entries) (suc i) = id_at entries i

  -- The rest of the struct at an index, `d` out of bounds.
  unfoldable pub object_at : List (Entry A) → ℕ → A → A
  object_at [] i d = d
  object_at (e ∷ entries) zero d = e.object
  object_at (e ∷ entries) (suc i) d = object_at entries i d

  abbrev pub with_object : (A → A) → Entry A → Entry A
  with_object change e = record e { object = change e.object }

  abbrev pub with_id : ℕ → Entry A → Entry A
  with_id id e = record e { id = id }

  -- The object finalised, its id cleared and its tag stepped on.
  abbrev pub retire : (A → A) → Entry A → Entry A
  retire finalize_object e = record {
    tag = (e.tag + 1) % uint_mod;
    id = invalid_id;
    object = finalize_object e.object;
  }

  abbrev pub clear_handle : Entry A → Entry A
  clear_handle e = record e { tag = 0; id = invalid_id }

  -- `for (ii = first; ...; ii++)` over the handles, for that many rounds.
  unfoldable pub clear_handles : ℕ → ℕ → List (Entry A) → List (Entry A)
  clear_handles zero ii entries = entries
  clear_handles (suc rounds) ii entries =
      clear_handles rounds (ii + 1) (update entries ii clear_handle)

  -- `ids` and `entries` are the blocks that the allocator gave, of `capacity + 1` entries each.
  unfoldable pub initialize : (A → A) → List ℕ → List (Entry A) → ℕ → Pool A
  unfolding clear_handles
  initialize initialize_object ids entries capacity = record {
    id_pool = IdPool.initialize ids capacity;
    storage =
        update (clear_handles (capacity + 1) 0 entries) 0
          (λ e. record e { object = initialize_object e.object });
  }

  pub finalize : Pool A → Pool A
  finalize p = record { id_pool = IdPool.finalize p.id_pool; storage = [] }

  unfoldable pub allocate : Bool → Pool A → Option ℕ × Pool A
  allocate locked p =
      let (pool_id, id_pool) = IdPool.allocate locked p.id_pool in
      if pool_id == invalid_id then (none, record p { id_pool = id_pool }) else (
        some pool_id,
        record { id_pool = id_pool; storage = update p.storage pool_id (with_id pool_id) },
      )

  unfoldable pub deallocate : (A → A) → Bool → Pool A → ℕ → Pool A
  deallocate finalize_object locked p object =
      let pool_id = id_at p.storage object in
      record {
        id_pool = IdPool.deallocate locked p.id_pool pool_id;
        storage = update p.storage object (retire finalize_object);
      }

  unfoldable pub is_handle_valid : Pool A → Handle → Bool
  is_handle_valid p handle =
      ltb 0 handle.id
      && (leb handle.id p.id_pool.capacity && (tag_at p.storage handle.id == handle.tag))

  -- The source asserts that the handle is valid.
  pub get_storage_for_handle : Pool A → Handle → ℕ
  get_storage_for_handle p handle = handle.id

  -- The object at a pointer changed in place, the object there, and its handle.
  unfoldable pub modify : Pool A → ℕ → (A → A) → Pool A
  modify p object change = record p { storage = update p.storage object (with_object change) }

  unfoldable pub get_object : Pool A → ℕ → A → A
  get_object p object d = object_at p.storage object d

  unfoldable pub handle_of : Pool A → ℕ → Handle
  handle_of p object = record { tag = tag_at p.storage object; id = id_at p.storage object }
