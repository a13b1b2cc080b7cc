-- ===== src/Mtapi/IdPool/Initial.antt =====
-- The ids that a fresh pool holds (mtapi_c/src/embb_mtapi_id_pool_t.c).
use embb.Common.{
  ℕ, zero, suc, ◌+◌, ◌≤◌, ◌<◌, ◌≡◌, ◌⊎◌, refl, List, arith, length, get_or, set, length-set, window,
  get_or-set_self, get_or-set_ne, count_up,
}
use embb.Mtapi.IdPool.{invalid_id, fill, initialize, available}

get_or-fill_out :
    (rounds ii j : ℕ) (buffer : List ℕ)
    → (j < ii) ⊎ (ii + rounds ≤ j)
    → get_or (fill rounds ii buffer) j invalid_id ≡ get_or buffer j invalid_id
unfolding fill
get_or-fill_out zero ii j buffer h = refl
get_or-fill_out (suc rounds) ii j buffer h = ground (
  arith,
  get_or-fill_out rounds (ii + 1) j (set buffer ii ii),
  get_or-set_ne buffer {i = ii} {j = j} ii invalid_id (omega arith),
)

get_or-fill_in :
    (rounds ii j : ℕ) (buffer : List ℕ)
    → ii ≤ j
    → j < ii + rounds
    → ii + rounds ≤ length buffer
    → get_or (fill rounds ii buffer) j invalid_id ≡ j
unfolding fill
get_or-fill_in zero ii j buffer h k l = absurd (omega arith)
get_or-fill_in (suc rounds) ii j buffer h k l = ground (
  arith,
  get_or-fill_in rounds (ii + 1) j (set buffer ii ii),
  get_or-fill_out rounds (ii + 1) j (set buffer ii ii),
  get_or-set_self buffer ii ii invalid_id,
  length-set buffer ii ii,
)

window-count_up :
    (size : ℕ) (buffer : List ℕ) (n h : ℕ)
    → h + n ≤ size
    → ((j : ℕ) → h ≤ j → j < h + n → get_or buffer j invalid_id ≡ j)
    → window size invalid_id buffer h n ≡ count_up n h
window-count_up size buffer zero h l e = refl
window-count_up size buffer (suc zero) h l e = ground (arith, e h)
window-count_up size buffer (suc (suc n)) h l e = ground (
  arith,
  e h,
  window-count_up size buffer (suc n) (h + 1) (omega arith)
      (λ j p q. e j (omega arith) (omega arith)),
)

-- The fresh pool holds the ids 1 to `capacity`, in order.
pub available-initialize :
    (memory : List ℕ) (capacity : ℕ)
    → length memory ≡ capacity + 1
    → available (initialize memory capacity) ≡ count_up capacity 1
unfolding initialize
available-initialize memory capacity e =
    window-count_up (capacity + 1) _ capacity 1 (omega arith) λ j p q.
      get_or-fill_in capacity 1 j (set memory 0 invalid_id) p (omega arith)
        (omega (arith, length-set memory 0 invalid_id))
