-- ===== src/Network/Buffer/Bytes.antt =====
-- Bytes in memory (memcpy in mtapi_network_c/src/embb_mtapi_network_buffer.c).
use embb.Common.{
  ℕ, zero, suc, ◌+◌, ◌*◌, ◌/◌, ◌≤◌, ◌<◌, ◌≡◌, refl, ap, ap₂, List, [], ◌∷◌, ◌++◌, arith, length,
  get_or, set, length-set, get_or-set_self, get_or-set_ne,
}
use embb.Network.Buffer.{write, read, to_bytes, from_bytes}

pub length-write :
    (bytes : List ℕ) (i : ℕ) (new : List ℕ) → length (write bytes i new) ≡ length bytes
unfolding write
length-write bytes i [] = refl
length-write bytes i (b ∷ new) =
    omega (arith, length-write (set bytes i b) (i + 1) new, length-set bytes i b)

pub length-read : (bytes : List ℕ) (i n : ℕ) → length (read bytes i n) ≡ n
unfolding read
length-read bytes i zero = refl
length-read bytes i (suc n) = ap suc (length-read bytes (i + 1) n)

pub read-append :
    (bytes : List ℕ) (i n m : ℕ) → read bytes i (n + m) ≡ read bytes i n ++ read bytes (i + n) m
unfolding read
read-append bytes i zero m = ground arith
read-append bytes i (suc n) m = ground (
  arith,
  ap (read bytes i) {x = suc n + m} {y = suc (n + m)} (omega arith),
  read-append bytes (i + 1) n m,
)

get_or-write_before :
    (bytes : List ℕ) (i j : ℕ) (new : List ℕ)
    → j < i
    → get_or (write bytes i new) j 0 ≡ get_or bytes j 0
unfolding write
get_or-write_before bytes i j [] h = refl
get_or-write_before bytes i j (b ∷ new) h = ground (
  arith,
  get_or-write_before (set bytes i b) (i + 1) j new,
  get_or-set_ne bytes {i = i} {j = j} b 0 (omega arith),
)

pub read-write_before :
    (bytes : List ℕ) (i n j : ℕ) (new : List ℕ)
    → i + n ≤ j
    → read (write bytes j new) i n ≡ read bytes i n
unfolding read
read-write_before bytes i zero j new h = refl
read-write_before bytes i (suc n) j new h =
    ap₂ (λ b rest. b ∷ rest) (get_or-write_before bytes j i new (omega arith))
      (read-write_before bytes (i + 1) n j new (omega arith))

pub read-write_self :
    (bytes : List ℕ) (i : ℕ) (new : List ℕ)
    → i + length new ≤ length bytes
    → read (write bytes i new) i (length new) ≡ new
unfolding read write
read-write_self bytes i [] h = refl
read-write_self bytes i (b ∷ new) h = ground (
  arith,
  get_or-write_before (set bytes i b) (i + 1) i new,
  get_or-set_self bytes i b 0,
  read-write_self (set bytes i b) (i + 1) new,
  length-set bytes i b,
)

-- The number of values of n bytes.
abbrev pub values : ℕ → ℕ
values zero = 1
values (suc n) = 256 * values n

pub length-to_bytes : (n value : ℕ) → length (to_bytes n value) ≡ n
unfolding to_bytes
length-to_bytes zero value = refl
length-to_bytes (suc n) value = ap suc (length-to_bytes n (value / 256))

pub from_bytes-to_bytes : (n value : ℕ) → value < values n → from_bytes (to_bytes n value) ≡ value
unfolding to_bytes from_bytes
from_bytes-to_bytes zero value h = omega arith
from_bytes-to_bytes (suc n) value h =
    omega (arith, from_bytes-to_bytes n (value / 256) (omega arith))
