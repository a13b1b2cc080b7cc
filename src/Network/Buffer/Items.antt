-- ===== src/Network/Buffer/Items.antt =====
-- Messages of several items in a network buffer, written and read item by item
-- (mtapi_network_c/src/embb_mtapi_network_buffer.c).
use embb.Common.{ℕ, Bool, true, ◌&&◌, List, [], ◌∷◌, ◌++◌, ltb, length, replicate}
use embb.Network.Buffer.{
  Buffer, to_bytes, push_back_rawdata, pop_front_rawdata, push_back_int8, push_back_int16,
  push_back_int32, pop_front_int8, pop_front_int16, pop_front_int32,
}
use embb.Network.Buffer.Bytes.{values}

-- What a message consists of.
pub data Item : Type 0 where
  int8 int16 int32 : ℕ → Item
  rawdata : List ℕ → Item

unfoldable pub encode : Item → List ℕ
encode (int8 value) = to_bytes 1 value
encode (int16 value) = to_bytes 2 value
encode (int32 value) = to_bytes 4 value
encode (rawdata bytes) = bytes

-- Whether an integer has no more bytes than it is written with.
unfoldable pub fits : Item → Bool
fits (int8 value) = ltb value (values 1)
fits (int16 value) = ltb value (values 2)
fits (int32 value) = ltb value (values 4)
fits (rawdata bytes) = true

unfoldable pub push : Buffer → Item → Buffer
push b (int8 value) = (push_back_int8 b value).1
push b (int16 value) = (push_back_int16 b value).1
push b (int32 value) = (push_back_int32 b value).1
push b (rawdata bytes) = (push_back_rawdata b (length bytes) bytes).1

-- The second argument is what stands in the caller's variable.
unfoldable pub pop : Buffer → Item → Item × Buffer
pop b (int8 old) = let (popped, value, b') = pop_front_int8 b old in (int8 value, b')
pop b (int16 old) = let (popped, value, b') = pop_front_int16 b old in (int16 value, b')
pop b (int32 old) = let (popped, value, b') = pop_front_int32 b old in (int32 value, b')
pop b (rawdata old) =
    let (popped, bytes, b') = pop_front_rawdata b (length old) old in (rawdata bytes, b')

-- A cleared variable of the item's type and size.
unfoldable pub blank : Item → Item
blank (int8 value) = int8 0
blank (int16 value) = int16 0
blank (int32 value) = int32 0
blank (rawdata bytes) = rawdata (replicate (length bytes) 0)

unfoldable pub push_all : Buffer → List Item → Buffer
push_all b [] = b
push_all b (item ∷ items) = push_all (push b item) items

unfoldable pub pop_all : Buffer → List Item → List Item × Buffer
pop_all b [] = ([], b)
pop_all b (item ∷ items) =
    let (value, b') = pop b item in let (rest, b'') = pop_all b' items in (value ∷ rest, b'')

unfoldable pub encode_all : List Item → List ℕ
encode_all [] = []
encode_all (item ∷ items) = encode item ++ encode_all items

unfoldable pub all_fit : List Item → Bool
all_fit [] = true
all_fit (item ∷ items) = fits item && all_fit items

unfoldable pub blank_all : List Item → List Item
blank_all [] = []
blank_all (item ∷ items) = blank item ∷ blank_all items
