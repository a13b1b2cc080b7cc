-- ===== src/Mtapi/IdPool/Examples.antt =====
-- The id pool at concrete values.
use embb.Common.{
  ◌+◌, ◌≤◌, ◌<◌, ◌≡◌, ◌⊎◌, refl, true, List, [], ◌∷◌, ◌++◌, ℕ, arith, length, multiplicity,
  count_up,
}
use embb.Mtapi.IdPool.{IdPool, invalid_id, initialize, allocate, deallocate, available, take_id}
use embb.Mtapi.IdPool.Refine.{allocate_refines, deallocate_refines}
use embb.Mtapi.IdPool.Owners.{
  Clients, Reach, here, later, takes, gives, start, take, give, Reach-start_once, Reach-start_fresh,
}

abbrev block : List ℕ
block = 9 ∷ 9 ∷ 9 ∷ []

abbrev two_ids : IdPool
two_ids = record {
  capacity = 2;
  id_buffer = 0 ∷ 1 ∷ 2 ∷ [];
  ids_available = 2;
  get_id_position = 1;
  put_id_position = 0;
}

fresh_two : initialize block 2 ≡ two_ids
unfolding initialize
fresh_two = refl

allocate_refines_test :
    let (id, p') = allocate true two_ids in (id, available p') ≡ take_id (available two_ids)
allocate_refines_test = allocate_refines (omega arith)

-- One id is out; it comes back.
abbrev one_left : IdPool
one_left = record {
  capacity = 2;
  id_buffer = 0 ∷ 0 ∷ 2 ∷ [];
  ids_available = 1;
  get_id_position = 2;
  put_id_position = 0;
}

deallocate_refines_test :
    ((one_left.ids_available < one_left.capacity)
      × (available (deallocate true one_left 1) ≡ available one_left ++ (1 ∷ [])))
    ⊎ ((one_left.ids_available ≡ one_left.capacity) × (deallocate true one_left 1 ≡ one_left))
deallocate_refines_test = deallocate_refines 1 (omega arith)

given_back :
    (allocate true two_ids ≡ (1, one_left)) × (available (deallocate true one_left 1) ≡ 2 ∷ 1 ∷ [])
unfolding allocate deallocate
given_back = (refl, refl)

-- Two ids are taken, and the first is given back.
abbrev busy : Clients
busy = give (take (take (start block 2))) 1

busy_reached : Reach (start block 2) busy
unfolding take start initialize allocate
busy_reached =
    later (later (later here (takes (start block 2))) (takes (take (start block 2))))
      (gives (take (take (start block 2))) 1 (omega arith))

Reach-start_once_test :
    multiplicity 2 (available busy.pool) + multiplicity 2 busy.held ≡ multiplicity 2 (count_up 2 1)
Reach-start_once_test = Reach-start_once block 2 2 refl (omega arith) (omega arith) busy_reached

Reach-start_fresh_example :
    let id = (allocate true busy.pool).0 in
    ((length busy.held ≡ 2) × (id ≡ invalid_id) × (take busy ≡ busy))
    ⊎ ((0 < id) × (id ≤ 2) × (multiplicity id busy.held ≡ 0) × ((take busy).held ≡ id ∷ busy.held))
Reach-start_fresh_example = Reach-start_fresh block 2 refl (omega arith) (omega arith) busy_reached
