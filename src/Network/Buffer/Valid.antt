-- ===== src/Network/Buffer/Valid.antt =====
-- A network buffer is a queue of bytes (mtapi_network_c/src/embb_mtapi_network_buffer.c).
use embb.Common.{ℕ, ◌+◌, ◌-◌, ◌≤◌, ◌<◌, ◌≡◌, ◌⊎◌, ap, some, List, [], ◌++◌, arith, length}
use embb.Network.Buffer.{
  Buffer, write, read, initialize, clear, push_back_rawdata, pop_front_rawdata,
}
use embb.Network.Buffer.Bytes.{
  length-write, length-read, read-append, read-write_before, read-write_self,
}

pub record IsValid (b : Buffer) : Type 0 where
  pub popped : b.position ≤ b.size
  pub room : b.size ≤ b.capacity
  pub block : length b.bytes ≡ b.capacity

-- The bytes pushed and not yet popped, the next one first.
abbrev pub contents : Buffer → List ℕ
contents b = read b.bytes b.position (b.size - b.position)

pub initialize-IsValid :
    (memory : List ℕ) (capacity : ℕ)
    → length memory ≡ capacity
    → IsValid (initialize (some memory) capacity)
unfolding initialize
initialize-IsValid memory capacity e = omega arith

pub contents-clear : {b : Buffer} → IsValid b → IsValid (clear b) × (contents (clear b) ≡ [])
unfolding clear read
contents-clear v = ground arith

pub push_back_rawdata-IsValid :
    {b : Buffer} (size : ℕ) (rawdata : List ℕ)
    → IsValid b
    → IsValid (push_back_rawdata b size rawdata).1
unfolding push_back_rawdata
push_back_rawdata-IsValid {b} size rawdata v = ground (arith, length-write b.bytes b.size rawdata)

pub pop_front_rawdata-IsValid :
    {b : Buffer} (size : ℕ) (rawdata : List ℕ)
    → IsValid b
    → IsValid (pop_front_rawdata b size rawdata).2
unfolding pop_front_rawdata
pop_front_rawdata-IsValid {b} size rawdata v = ground arith

-- A push appends the bytes, or changes nothing where they do not fit.
pub push_back_rawdata_refines :
    {b : Buffer} (rawdata : List ℕ)
    → IsValid b
    → let (pushed, b') = push_back_rawdata b (length rawdata) rawdata in
      ((b.size + length rawdata ≤ b.capacity)
        × (pushed ≡ length rawdata)
        × (contents b' ≡ contents b ++ rawdata)
        × (b'.size ≡ b.size + length rawdata)
        × (b'.capacity ≡ b.capacity))
      ⊎ ((b.capacity < b.size + length rawdata) × (pushed ≡ 0) × (b' ≡ b))
unfolding push_back_rawdata
push_back_rawdata_refines {b} rawdata v =
    let n = b.size - b.position in
    ground (
      arith,
      ap (read (write b.bytes b.size rawdata) b.position) {x = b.size + length rawdata - b.position}
          {y = n + length rawdata} (omega arith),
      read-append (write b.bytes b.size rawdata) b.position n (length rawdata),
      ap (λ i. read (write b.bytes b.size rawdata) i (length rawdata)) {x = b.position + n}
          {y = b.size} (omega arith),
      read-write_before b.bytes b.position n b.size rawdata,
      read-write_self b.bytes b.size rawdata,
    )

-- A pop takes bytes off the front, or changes nothing where there are too few.
pub pop_front_rawdata_refines :
    {b : Buffer} (size : ℕ) (rawdata : List ℕ)
    → IsValid b
    → let (popped, rawdata', b') = pop_front_rawdata b size rawdata in
      ((size ≤ length (contents b))
        × (popped ≡ size)
        × (length rawdata' ≡ size)
        × (contents b ≡ rawdata' ++ contents b'))
      ⊎ ((length (contents b) < size) × (popped ≡ 0) × (rawdata' ≡ rawdata) × (b' ≡ b))
unfolding pop_front_rawdata
pop_front_rawdata_refines {b} size rawdata v =
    let n = b.size - b.position in
    ground (
      arith,
      length-read b.bytes b.position n,
      length-read b.bytes b.position size,
      ap (read b.bytes b.position) {x = n} {y = size + (b.size - (b.position + size))},
      read-append b.bytes b.position size (b.size - (b.position + size)),
    )
