-- ===== src/Mtapi/IdPool/Refine.antt =====
-- The id pool is a queue of ids (mtapi_c/src/embb_mtapi_id_pool_t.c).
use embb.Common.{
  ℕ, zero, suc, ◌+◌, ◌-◌, ◌<◌, ◌≡◌, ◌⊎◌, refl, true, List, [], ◌∷◌, ◌++◌, arith, get_or,
  window_of_pos, next, window, window-set_outside, window-set_end,
}
use embb.Mtapi.IdPool.{IdPool, invalid_id, allocate, deallocate, available, take_id}
use embb.Mtapi.IdPool.Valid.{IsValid}

take_id-window :
    (size d : ℕ) (buffer : List ℕ) (h n : ℕ)
    → 0 < n
    → take_id (window size d buffer h n)
      ≡ (get_or buffer h d, window size d buffer (next size h) (n - 1))
unfolding take_id
take_id-window size d buffer h zero pos = absurd (omega arith)
take_id-window size d buffer h (suc n) pos = ground arith

take_id-window_empty :
    (size d : ℕ) (buffer : List ℕ) (h n : ℕ)
    → n ≡ 0
    → take_id (window size d buffer h n) ≡ (invalid_id, window size d buffer h n)
unfolding take_id
take_id-window_empty size d buffer h zero e = refl
take_id-window_empty size d buffer h (suc n) e = absurd (omega arith)

-- `allocate` gives the id that has been available longest and takes it off the queue; with no id
-- available it gives the invalid id and changes nothing.
pub allocate_refines :
    {p : IdPool}
    → IsValid p
    → let (id, p') = allocate true p in (id, available p') ≡ take_id (available p)
unfolding allocate
allocate_refines {p} v = ground (
  arith,
  take_id-window size invalid_id buffer h n,
  take_id-window_empty size invalid_id buffer h n,
  window-set_outside size invalid_id buffer invalid_id (next size h) (n - 1) p.capacity h,
)
  where
    size : ℕ
    size = p.capacity + 1

    open p use {id_buffer as buffer, get_id_position as h, ids_available as n}

-- `deallocate` puts the id at the end of the queue, unless that holds `capacity` ids already.
pub deallocate_refines :
    {p : IdPool} (id : ℕ)
    → IsValid p
    → ((p.ids_available < p.capacity)
        × (available (deallocate true p id) ≡ available p ++ (id ∷ [])))
      ⊎ ((p.ids_available ≡ p.capacity) × (deallocate true p id ≡ p))
unfolding deallocate
deallocate_refines {p} id v = ground (
  arith,
  window-set_end (p.capacity + 1) invalid_id p.id_buffer id p.get_id_position p.ids_available
      p.put_id_position,
)

-- The two outcomes of `allocate` on a valid pool.
pub allocate_cases :
    {p : IdPool}
    → IsValid p
    → let (id, p') = allocate true p in
      ((p.ids_available ≡ 0) × (id ≡ invalid_id) × (p' ≡ p))
      ⊎ ((available p ≡ id ∷ available p')
          × (p'.ids_available + 1 ≡ p.ids_available)
          × (p'.capacity ≡ p.capacity))
unfolding allocate
allocate_cases {p} v = ground (
  arith,
  window_of_pos (p.capacity + 1) invalid_id buffer h n,
  window-set_outside (p.capacity + 1) invalid_id buffer invalid_id (next (p.capacity + 1) h) (n - 1)
      p.capacity h,
)
  where
    open p use {id_buffer as buffer, get_id_position as h, ids_available as n}

-- `deallocate` with room left.
pub deallocate_cases :
    {p : IdPool} (id : ℕ)
    → IsValid p
    → p.ids_available < p.capacity
    → let p' = deallocate true p id in
      (available p' ≡ available p ++ (id ∷ []))
      × (p'.ids_available ≡ p.ids_available + 1)
      × (p'.capacity ≡ p.capacity)
unfolding deallocate
deallocate_cases {p} id v room = ground (
  arith,
  window-set_end (p.capacity + 1) invalid_id p.id_buffer id p.get_id_position p.ids_available
      p.put_id_position,
)
