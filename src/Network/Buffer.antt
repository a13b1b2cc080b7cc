-- ===== src/Network/Buffer.antt =====
-- mtapi_network_c/src/embb_mtapi_network_buffer.c. A byte is a number below 256, an integer of n
-- bytes its bit pattern, in memory with the low byte first. The `int` sizes and positions are not
-- negative and their sums stay below 2^31. The block of a null pointer is the empty list.
pub mod Bytes
pub mod Valid
pub mod Items
pub mod RoundTrip
mod Examples
use embb.Common.{
  ℕ, zero, suc, ◌+◌, ◌*◌, ◌/◌, ◌%◌, List, [], ◌∷◌, Option, none, some, get_or, set, ltb,
  if◌then◌else◌,
}

pub record Buffer : Type 0 where
  pub position : ℕ
  pub size : ℕ
  pub capacity : ℕ
  pub bytes : List ℕ

-- memcpy to the bytes from index `i` on, and from them.
pub write : List ℕ → ℕ → List ℕ → List ℕ
write bytes i [] = bytes
write bytes i (b ∷ rest) = write (set bytes i b) (i + 1) rest

unfoldable pub read : List ℕ → ℕ → ℕ → List ℕ
read bytes i zero = []
read bytes i (suc n) = get_or bytes i 0 ∷ read bytes (i + 1) n

-- An integer of n bytes in memory, and back.
unfoldable pub to_bytes : ℕ → ℕ → List ℕ
to_bytes zero value = []
to_bytes (suc n) value = value % 256 ∷ to_bytes n (value / 256)

pub from_bytes : List ℕ → ℕ
from_bytes [] = 0
from_bytes (b ∷ rest) = b + 256 * from_bytes rest

-- `memory` is what the allocator gave.
pub initialize : Option (List ℕ) → ℕ → Buffer
initialize none capacity = record { position = 0; size = 0; capacity = 0; bytes = [] }
initialize (some memory) capacity = record {
  position = 0;
  size = 0;
  capacity = capacity;
  bytes = memory;
}

pub finalize : Buffer → Buffer
finalize b = record { position = 0; size = 0; capacity = 0; bytes = [] }

unfoldable pub clear : Buffer → Buffer
clear b = record b { position = 0; size = 0 }

pub push_back_rawdata : Buffer → ℕ → List ℕ → ℕ × Buffer
push_back_rawdata b size rawdata =
    if ltb b.capacity (b.size + size)
    then (0, b)
    else (size, record b { bytes = write b.bytes b.size rawdata; size = b.size + size })

pub push_back_int8 : Buffer → ℕ → ℕ × Buffer
push_back_int8 b value =
    if ltb b.capacity (b.size + 1)
    then (0, b)
    else (1, record b { bytes = write b.bytes b.size (to_bytes 1 value); size = b.size + 1 })

pub push_back_int16 : Buffer → ℕ → ℕ × Buffer
push_back_int16 b value =
    if ltb b.capacity (b.size + 2)
    then (0, b)
    else (2, record b { bytes = write b.bytes b.size (to_bytes 2 value); size = b.size + 2 })

pub push_back_int32 : Buffer → ℕ → ℕ × Buffer
push_back_int32 b value =
    if ltb b.capacity (b.size + 4)
    then (0, b)
    else (4, record b { bytes = write b.bytes b.size (to_bytes 4 value); size = b.size + 4 })

-- The functions that pop take what stood in the caller's variable, and return what stands there.
pub pop_front_rawdata : Buffer → ℕ → List ℕ → ℕ × List ℕ × Buffer
pop_front_rawdata b size rawdata =
    if ltb b.size (b.position + size)
    then (0, rawdata, b)
    else (size, read b.bytes b.position size, record b { position = b.position + size })

pub pop_front_int8 : Buffer → ℕ → ℕ × ℕ × Buffer
pop_front_int8 b value =
    if ltb b.size (b.position + 1)
    then (0, value, b)
    else (1, from_bytes (read b.bytes b.position 1), record b { position = b.position + 1 })

pub pop_front_int16 : Buffer → ℕ → ℕ × ℕ × Buffer
pop_front_int16 b value =
    if ltb b.size (b.position + 2)
    then (0, value, b)
    else (2, from_bytes (read b.bytes b.position 2), record b { position = b.position + 2 })

pub pop_front_int32 : Buffer → ℕ → ℕ × ℕ × Buffer
pop_front_int32 b value =
    if ltb b.size (b.position + 4)
    then (0, value, b)
    else (4, from_bytes (read b.bytes b.position 4), record b { position = b.position + 4 })
