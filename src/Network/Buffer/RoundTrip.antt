-- ===== src/Network/Buffer/RoundTrip.antt =====
-- Messages written to a network buffer and read again
-- (mtapi_network_c/src/embb_mtapi_network_buffer.c).
use embb.Common.{
  ℕ, ◌+◌, ◌-◌, ◌≤◌, ◌<◌, ◌≡◌, refl, sym, ap, ◌∙◌, true, List, [], ◌∷◌, ◌++◌, arith, length,
  replicate, length-append, length-replicate,
}
use mathlib.Core.List.{append-nil, append_assoc}
use embb.Network.Buffer.{
  Buffer, read, to_bytes, push_back_rawdata, pop_front_rawdata, push_back_int8, push_back_int16,
  push_back_int32, pop_front_int8, pop_front_int16, pop_front_int32,
}
use embb.Network.Buffer.Bytes.{values, length-to_bytes, from_bytes-to_bytes, length-read}
use embb.Network.Buffer.Valid.{
  IsValid, contents, push_back_rawdata-IsValid, pop_front_rawdata-IsValid,
  push_back_rawdata_refines, pop_front_rawdata_refines,
}
use embb.Network.Buffer.Items.{
  Item, int8, int16, int32, rawdata, encode, fits, push, pop, blank, push_all, pop_all, encode_all,
  all_fit, blank_all,
}

pub append-cancel :
    (xs zs : List ℕ) {ys ws : List ℕ}
    → length xs ≡ length zs
    → xs ++ ys ≡ zs ++ ws
    → (xs ≡ zs) × (ys ≡ ws)
append-cancel [] [] e f = (refl, f)
append-cancel [] (z ∷ zs) e f = absurd (omega (arith, e))
append-cancel (x ∷ xs) [] e f = absurd (omega (arith, e))
append-cancel (x ∷ xs) (z ∷ zs) {ys} {ws} e f =
    ground (arith, append-cancel xs zs {ys = ys} {ws = ws})

-- A push with room, and a pop with enough bytes.
Pushed : Buffer → List ℕ → Buffer → Type 0
Pushed b bytes b' =
    IsValid b'
    × (contents b' ≡ contents b ++ bytes)
    × (b'.size ≡ b.size + length bytes)
    × (b'.capacity ≡ b.capacity)
    × (b'.position ≡ b.position)

push-bytes :
    {b : Buffer} (bytes : List ℕ) (n : ℕ)
    → IsValid b
    → length bytes ≡ n
    → b.size + n ≤ b.capacity
    → Pushed b bytes (push_back_rawdata b n bytes).1
unfolding Pushed push_back_rawdata
push-bytes {b} bytes n v e h = ground (
  arith,
  push_back_rawdata_refines bytes v,
  push_back_rawdata-IsValid n bytes v,
  ap (λ k. push_back_rawdata b k bytes) e,
)

push-item :
    {b : Buffer} (item : Item)
    → IsValid b
    → b.size + length (encode item) ≤ b.capacity
    → Pushed b (encode item) (push b item)
unfolding push encode push_back_int8 push_back_int16 push_back_int32 push_back_rawdata
push-item (int8 value) v h =
    push-bytes (to_bytes 1 value) 1 v (length-to_bytes 1 value)
      (omega (arith, length-to_bytes 1 value))
push-item (int16 value) v h =
    push-bytes (to_bytes 2 value) 2 v (length-to_bytes 2 value)
      (omega (arith, length-to_bytes 2 value))
push-item (int32 value) v h =
    push-bytes (to_bytes 4 value) 4 v (length-to_bytes 4 value)
      (omega (arith, length-to_bytes 4 value))
push-item (rawdata bytes) v h = push-bytes bytes (length bytes) v refl h

pub pop-bytes :
    {b : Buffer} (bytes rest : List ℕ) (n : ℕ)
    → IsValid b
    → length bytes ≡ n
    → contents b ≡ bytes ++ rest
    → let b' = record b { position = b.position + n } in
      (b.position + n ≤ b.size)
      × (read b.bytes b.position n ≡ bytes)
      × IsValid b'
      × (contents b' ≡ rest)
unfolding pop_front_rawdata
pop-bytes {b} bytes rest n v e f =
    let whole = pop_front_rawdata_refines n (replicate n 0) v in
    let valid = pop_front_rawdata-IsValid n (replicate n 0) v in
    let long = length-append bytes rest in
    let same = length-read b.bytes b.position (b.size - b.position) in
    let bound = ap length f in
    let split =
      append-cancel (read b.bytes b.position n) bytes
        {ys = contents (record b { position = b.position + n })} {ws = rest} in
    ground (arith)

-- What one pop of an integer takes from the front.
pub pop_front_int8-bytes :
    {b : Buffer} (value old : ℕ) (rest : List ℕ)
    → IsValid b
    → value < values 1
    → contents b ≡ to_bytes 1 value ++ rest
    → let (popped, value', b') = pop_front_int8 b old in
      (value' ≡ value) × IsValid b' × (contents b' ≡ rest) × (b'.capacity ≡ b.capacity)
unfolding pop_front_int8
pop_front_int8-bytes {b} value old rest v h e =
    let q = pop-bytes {b = b} (to_bytes 1 value) rest 1 v (length-to_bytes 1 value) e in
    ground (arith, from_bytes-to_bytes 1 value)

pub pop_front_int32-bytes :
    {b : Buffer} (value old : ℕ) (rest : List ℕ)
    → IsValid b
    → value < values 4
    → contents b ≡ to_bytes 4 value ++ rest
    → let (popped, value', b') = pop_front_int32 b old in
      (value' ≡ value) × IsValid b' × (contents b' ≡ rest) × (b'.capacity ≡ b.capacity)
unfolding pop_front_int32
pop_front_int32-bytes {b} value old rest v h e =
    let q = pop-bytes {b = b} (to_bytes 4 value) rest 4 v (length-to_bytes 4 value) e in
    ground (arith, from_bytes-to_bytes 4 value)

pub pop_front_rawdata-bytes :
    {b : Buffer} (bytes old : List ℕ) (n : ℕ)
    → IsValid b
    → length bytes ≡ n
    → contents b ≡ bytes
    → (pop_front_rawdata b n old).1 ≡ bytes
unfolding pop_front_rawdata
pop_front_rawdata-bytes {b} bytes old n v e f =
    let q = pop-bytes {b = b} bytes [] n v e (f ∙ sym (append-nil bytes)) in ground arith

Popped : Item → List ℕ → Item × Buffer → Type 0
Popped item rest (value, b') = (value ≡ item) × IsValid b' × (contents b' ≡ rest)

pop-item :
    {b : Buffer} (item : Item) (rest : List ℕ)
    → IsValid b
    → fits item ≡ true
    → contents b ≡ encode item ++ rest
    → Popped item rest (pop b (blank item))
unfolding Popped pop encode blank fits pop_front_int8 pop_front_int16 pop_front_int32
    pop_front_rawdata
pop-item {b} (int8 value) rest v h e =
    let q = pop-bytes {b = b} (to_bytes 1 value) rest 1 v (length-to_bytes 1 value) e in
    ground (arith, from_bytes-to_bytes 1 value)
pop-item {b} (int16 value) rest v h e =
    let q = pop-bytes {b = b} (to_bytes 2 value) rest 2 v (length-to_bytes 2 value) e in
    ground (arith, from_bytes-to_bytes 2 value)
pop-item {b} (int32 value) rest v h e =
    let q = pop-bytes {b = b} (to_bytes 4 value) rest 4 v (length-to_bytes 4 value) e in
    ground (arith, from_bytes-to_bytes 4 value)
pop-item {b} (rawdata bytes) rest v h e =
    let q = pop-bytes {b = b} bytes rest (length bytes) v refl e in
    ground (arith, length-replicate {A = ℕ} (length bytes) 0)

pub push_all-bytes :
    {b : Buffer} (items : List Item)
    → IsValid b
    → b.size + length (encode_all items) ≤ b.capacity
    → IsValid (push_all b items)
      × (contents (push_all b items) ≡ contents b ++ encode_all items)
      × ((push_all b items).position ≡ b.position)
      × ((push_all b items).capacity ≡ b.capacity)
unfolding push_all encode_all Pushed
push_all-bytes {b} [] v h = (v, sym (append-nil (contents b)), refl, refl)
push_all-bytes {b} (item ∷ items) v h =
    let fit = length-append (encode item) (encode_all items) in
    let one = push-item item v (omega arith) in
    let others = push_all-bytes {b = push b item} items one.0 (omega arith) in
    (
      others.0,
      others.1
          ∙ ap (λ bs. bs ++ encode_all items) one.1
          ∙ append_assoc (contents b) (encode item) (encode_all items),
      others.2 ∙ one.4,
      others.3 ∙ one.3,
    )

pop_all-bytes :
    {b : Buffer} (items : List Item) (rest : List ℕ)
    → IsValid b
    → all_fit items ≡ true
    → contents b ≡ encode_all items ++ rest
    → let (values, b') = pop_all b (blank_all items) in (values ≡ items) × (contents b' ≡ rest)
unfolding pop_all encode_all Popped all_fit blank_all
pop_all-bytes {b} [] rest v h e = ground arith
pop_all-bytes {b} (item ∷ items) rest v h e =
    let one =
      pop-item {b = b} item (encode_all items ++ rest) v (ground arith)
        (e ∙ append_assoc (encode item) (encode_all items) rest) in
    let others = pop_all-bytes {b = (pop b (blank item)).1} items rest one.1 (ground arith) one.2 in
    ground arith

-- On a valid buffer with no byte waiting, what a caller pushes, integers no longer than they are
-- written and raw data that together fit into the capacity, is what the same pops then return, and
-- they leave no byte.
pub pop_all-push_all :
    {b : Buffer} (items : List Item)
    → IsValid b
    → contents b ≡ []
    → all_fit items ≡ true
    → b.size + length (encode_all items) ≤ b.capacity
    → let (values, b') = pop_all (push_all b items) (blank_all items) in
      (values ≡ items) × (contents b' ≡ [])
pop_all-push_all {b} items v empty h fit =
    let all = push_all-bytes {b = b} items v fit in
    pop_all-bytes {b = push_all b items} items [] all.0 h
      (all.1 ∙ ap (λ bs. bs ++ encode_all items) empty ∙ sym (append-nil (encode_all items)))
