-- ===== src/Network/Buffer/Examples.antt =====
-- A message of three parts, and the integers at their bounds.
use embb.Common.{ℕ, ◌+◌, ◌≤◌, ◌<◌, ◌≡◌, ◌⊎◌, refl, true, some, List, [], ◌∷◌, ◌++◌, arith, length}
use embb.Network.Buffer.{Buffer, initialize, read, to_bytes, push_back_rawdata, pop_front_rawdata}
use embb.Network.Buffer.Valid.{
  IsValid, contents, initialize-IsValid, push_back_rawdata_refines, pop_front_rawdata_refines,
}
use embb.Network.Buffer.Items.{
  Item, int8, int16, rawdata, pop_all, push_all, blank_all, encode_all, encode, all_fit, fits,
}
use embb.Network.Buffer.RoundTrip.{pop_all-push_all}

abbrev zeros : List ℕ
zeros = 0 ∷ 0 ∷ 0 ∷ 0 ∷ 0 ∷ 0 ∷ 0 ∷ 0 ∷ []

abbrev eight : Buffer
eight = initialize (some zeros) 8

eight-IsValid : IsValid eight
eight-IsValid = initialize-IsValid zeros 8 refl

abbrev message : List Item
message = int8 255 ∷ int16 513 ∷ rawdata (7 ∷ 8 ∷ 9 ∷ []) ∷ []

message_bytes : encode_all message ≡ 255 ∷ 1 ∷ 2 ∷ 7 ∷ 8 ∷ 9 ∷ []
unfolding encode_all encode to_bytes
message_bytes = refl

eight-empty : contents eight ≡ []
unfolding initialize read
eight-empty = refl

message_fits : all_fit message ≡ true
unfolding all_fit fits
message_fits = refl

message_short : eight.size + length (encode_all message) ≤ eight.capacity
unfolding initialize encode_all encode to_bytes
message_short = omega arith

pop_all-push_all_example :
    let (values, b') = pop_all (push_all eight message) (blank_all message) in
    (values ≡ message) × (contents b' ≡ [])
pop_all-push_all_example =
    pop_all-push_all message eight-IsValid eight-empty message_fits message_short

push_back_rawdata_refines_test :
    let (pushed, b') = push_back_rawdata eight 2 (3 ∷ 4 ∷ []) in
    ((eight.size + 2 ≤ eight.capacity)
      × (pushed ≡ 2)
      × (contents b' ≡ contents eight ++ (3 ∷ 4 ∷ []))
      × (b'.size ≡ eight.size + 2)
      × (b'.capacity ≡ eight.capacity))
    ⊎ ((eight.capacity < eight.size + 2) × (pushed ≡ 0) × (b' ≡ eight))
push_back_rawdata_refines_test = push_back_rawdata_refines (3 ∷ 4 ∷ []) eight-IsValid

pop_front_rawdata_refines_test :
    let (popped, rawdata', b') = pop_front_rawdata eight 1 (5 ∷ []) in
    ((1 ≤ length (contents eight))
      × (popped ≡ 1)
      × (length rawdata' ≡ 1)
      × (contents eight ≡ rawdata' ++ contents b'))
    ⊎ ((length (contents eight) < 1) × (popped ≡ 0) × (rawdata' ≡ 5 ∷ []) × (b' ≡ eight))
pop_front_rawdata_refines_test = pop_front_rawdata_refines 1 (5 ∷ []) eight-IsValid
