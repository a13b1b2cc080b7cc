-- ===== src/Mtapi/IdPool/Valid.antt =====
-- The representation invariant of the id pool (mtapi_c/src/embb_mtapi_id_pool_t.c).
use embb.Common.{
  ℕ, zero, suc, ◌+◌, ◌≤◌, ◌<◌, ◌≡◌, refl, Bool, List, arith, length, set, length-set, AtDistance,
}
use embb.Mtapi.IdPool.{IdPool, uint_mod, invalid_id, fill, initialize, allocate, deallocate}

-- The positions lie in the buffer, and `put_id_position` stands `ids_available` entries behind
-- `get_id_position`.
pub record IsValid (p : IdPool) : Type 0 where
  pub buffer_length : length p.id_buffer ≡ p.capacity + 1
  pub small : p.capacity + 1 < uint_mod
  pub within : p.ids_available ≤ p.capacity
  pub get_in : p.get_id_position ≤ p.capacity
  pub put_in : p.put_id_position ≤ p.capacity
  pub distance : AtDistance (p.capacity + 1) p.get_id_position p.ids_available p.put_id_position

pub length-fill : (rounds ii : ℕ) (buffer : List ℕ) → length (fill rounds ii buffer) ≡ length buffer
unfolding fill
length-fill zero ii buffer = refl
length-fill (suc rounds) ii buffer =
    omega (arith, length-fill rounds (ii + 1) (set buffer ii ii), length-set buffer ii ii)

pub initialize-IsValid :
    (memory : List ℕ) (capacity : ℕ)
    → length memory ≡ capacity + 1
    → capacity + 1 < uint_mod
    → 0 < capacity
    → IsValid (initialize memory capacity)
unfolding initialize
initialize-IsValid memory capacity e h pos =
    ground (arith, length-fill capacity 1 (set memory 0 invalid_id), length-set memory 0 invalid_id)

pub allocate-IsValid : (locked : Bool) {p : IdPool} → IsValid p → IsValid (allocate locked p).1
unfolding allocate
allocate-IsValid locked {p} v = ground (arith, length-set p.id_buffer p.get_id_position invalid_id)

pub deallocate-IsValid :
    (locked : Bool) {p : IdPool} (id : ℕ) → IsValid p → IsValid (deallocate locked p id)
unfolding deallocate
deallocate-IsValid locked {p} id v = ground (arith, length-set p.id_buffer p.put_id_position id)

pub capacity-allocate : (locked : Bool) (p : IdPool) → (allocate locked p).1.capacity ≡ p.capacity
unfolding allocate
capacity-allocate locked p = ground arith

pub capacity-deallocate :
    (locked : Bool) (p : IdPool) (id : ℕ) → (deallocate locked p id).capacity ≡ p.capacity
unfolding deallocate
capacity-deallocate locked p id = ground arith

pub capacity-initialize :
    (memory : List ℕ) (capacity : ℕ) → (initialize memory capacity).capacity ≡ capacity
unfolding initialize
capacity-initialize memory capacity = refl
