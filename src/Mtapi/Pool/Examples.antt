-- ===== src/Mtapi/Pool/Examples.antt =====
-- A pool of two objects at work.
use embb.Common.{ℕ, ◌%◌, ◌≡◌, ◌⊎◌, refl, true, none, some, [], ◌∷◌, arith, ◌==◌}
use embb.Mtapi.IdPool
use embb.Mtapi.IdPool.{available, uint_mod}
use embb.Mtapi.Pool.{
  Pool, Handle, Entry, tag_at, id_at, clear_handles, initialize, allocate, is_handle_valid,
}
use embb.Mtapi.Pool.Valid.{IsValid, initialize-IsValid, allocate-IsValid, allocate-handle}
use embb.Mtapi.Pool.Stale.{allocates, deallocates, freed, run, is_handle_valid-run}

abbrev noise : Entry ℕ
noise = record { tag = 5; id = 6; object = 7 }

abbrev clear_object : ℕ → ℕ
clear_object _ = 0

abbrev two : Pool ℕ
two = initialize clear_object (9 ∷ 9 ∷ 9 ∷ []) (noise ∷ noise ∷ noise ∷ []) 2

abbrev first : Handle
first = record { tag = 0; id = 1 }

two-IsValid : IsValid two
two-IsValid =
    initialize-IsValid clear_object (9 ∷ 9 ∷ 9 ∷ []) (noise ∷ noise ∷ noise ∷ []) 2 refl refl
      (omega arith) (omega arith)

-- The first object is handed out as entry 1.
allocate-two : (allocate true two).0 ≡ some 1
unfolding allocate initialize clear_handles IdPool.allocate IdPool.initialize IdPool.fill
allocate-two = refl

first_valid : is_handle_valid (allocate true two).1 first ≡ true
unfolding is_handle_valid tag_at allocate initialize clear_handles IdPool.allocate IdPool.initialize
    IdPool.fill
first_valid = refl

is_handle_valid-run_example :
    is_handle_valid
      (run clear_object (allocate true two).1 (deallocates true 1 ∷ allocates true ∷ []))
      first
    ≡ (freed 1 (deallocates true 1 ∷ allocates true ∷ []) % uint_mod == 0)
is_handle_valid-run_example =
    is_handle_valid-run clear_object (allocate true two).1
      (deallocates true 1 ∷ allocates true ∷ []) first (allocate-IsValid two-IsValid).slots
      (omega arith) first_valid

allocate-handle_test :
    let (result, p') = allocate true two in
    let id = (IdPool.allocate true two.id_pool).0 in
    ((result ≡ none) × (two.id_pool.ids_available ≡ 0) × (p' ≡ two))
    ⊎ ((result ≡ some id)
        × (available two.id_pool ≡ id ∷ available p'.id_pool)
        × (id_at p'.storage id ≡ id)
        × (is_handle_valid p' (record { tag = tag_at p'.storage id; id = id }) ≡ true))
allocate-handle_test = allocate-handle two-IsValid
