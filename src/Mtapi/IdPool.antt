-- ===== src/Mtapi/IdPool.antt =====
-- mtapi_c/src/embb_mtapi_id_pool_t.c. `mtapi_uint_t` is 32 bits wide. The lock is modelled by what
-- `embb_mtapi_spinlock_acquire` returned to the call, `locked`.
pub mod Valid
pub mod Refine
pub mod Initial
pub mod Owners
mod Examples
use embb.Common.{
  ℕ, zero, suc, ◌+◌, ◌-◌, ◌%◌, ◌^◌, List, [], ◌∷◌, Bool, get_or, set, window, ltb, if◌then◌else◌,
}

abbrev pub uint_mod : ℕ
uint_mod = 2 ^ 32

-- EMBB_MTAPI_IDPOOL_INVALID_ID
abbrev pub invalid_id : ℕ
invalid_id = 0

pub record IdPool : Type 0 where
  pub capacity : ℕ
  pub id_buffer : List ℕ
  pub ids_available : ℕ
  pub get_id_position : ℕ
  pub put_id_position : ℕ

-- `for (ii = first; ...; ii++) id_buffer[ii] = ii`, for that many rounds.
unfoldable pub fill : ℕ → ℕ → List ℕ → List ℕ
fill zero ii buffer = buffer
fill (suc rounds) ii buffer = fill rounds (ii + 1) (set buffer ii ii)

-- `memory` is the block that the allocator gave, of `capacity + 1` entries.
unfoldable pub initialize : List ℕ → ℕ → IdPool
unfolding fill
initialize memory capacity = record {
  capacity = capacity;
  id_buffer = fill capacity 1 (set memory 0 invalid_id);
  ids_available = capacity;
  get_id_position = 1;
  put_id_position = 0;
}

pub finalize : IdPool → IdPool
finalize p = record {
  capacity = 0;
  id_buffer = [];
  ids_available = 0;
  get_id_position = 0;
  put_id_position = 0;
}

-- `position++`, and back to 0 behind the last entry.
abbrev pub advance : ℕ → ℕ → ℕ
advance capacity position =
    let position' = (position + 1) % uint_mod in if ltb capacity position' then 0 else position'

unfoldable pub allocate : Bool → IdPool → ℕ × IdPool
allocate locked p =
    if locked
    then (if ltb 0 p.ids_available
        then (
          get_or p.id_buffer p.get_id_position invalid_id,
          record p {
            ids_available = p.ids_available - 1;
            get_id_position = advance p.capacity p.get_id_position;
            id_buffer = set p.id_buffer p.get_id_position invalid_id;
          },
        )
        else (invalid_id, p))
    else (invalid_id, p)

unfoldable pub deallocate : Bool → IdPool → ℕ → IdPool
deallocate locked p id =
    if locked
    then (if ltb p.ids_available p.capacity
        then record p {
          put_id_position = advance p.capacity p.put_id_position;
          id_buffer = set p.id_buffer p.put_id_position id;
          ids_available = (p.ids_available + 1) % uint_mod;
        }
        else p)
    else p

-- The ids that the pool can give, the next one first.
abbrev pub available : IdPool → List ℕ
available p = window (p.capacity + 1) invalid_id p.id_buffer p.get_id_position p.ids_available

-- The abstract pool: a queue of ids.
unfoldable pub take_id : List ℕ → ℕ × List ℕ
take_id [] = (invalid_id, [])
take_id (id ∷ ids) = (id, ids)
