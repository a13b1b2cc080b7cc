-- ===== src/Base/Memory.antt =====
-- base_c/src/memory_allocation.c, the version with EMBB_DEBUG. An address is a number, and memory
-- holds a word of 8 bytes at each address that is written. What malloc returns is an argument.
pub mod Aligned
pub mod RoundTrip
mod Examples
use Prim.Native.Nat.{bit_and}
use embb.Common.{
  ℕ, zero, suc, ◌+◌, ◌-◌, ◌*◌, ◌/◌, ◌%◌, ◌^◌, Option, none, some, ltb, ◌==◌, if◌then◌else◌,
}

abbrev pub size_mod : ℕ
size_mod = 2 ^ 64

-- INVALID_ALLOCATION, ALIGNED_ALLOCATION and UNALIGNED_ALLOCATION.
abbrev pub invalid_allocation : ℕ
invalid_allocation = 2442236305

abbrev pub aligned_allocation : ℕ
aligned_allocation = 2578103057

abbrev pub unaligned_allocation : ℕ
unaligned_allocation = 296401817

-- `bytes_allocated` is embb_bytes_allocated, a `long` as its 64-bit pattern.
pub record Memory : Type 0 where
  pub words : ℕ → ℕ
  pub bytes_allocated : ℕ

unfoldable pub write : ℕ → ℕ → Memory → Memory
write address value m = record m { words = λ a. if a == address then value else m.words a }

-- embb_atomic_fetch_and_add_long on the count, and the same with a negated number.
abbrev pub count_up_by : ℕ → Memory → Memory
count_up_by bytes m = record m { bytes_allocated = (m.bytes_allocated + bytes) % size_mod }

abbrev pub count_down_by : ℕ → Memory → Memory
count_down_by bytes m = record m {
  bytes_allocated = (m.bytes_allocated + (size_mod - bytes % size_mod)) % size_mod;
}

-- `allocated` is what malloc returned, `none` for NULL.
unfoldable pub alloc : Option ℕ → ℕ → Memory → Option ℕ × Memory
alloc none bytes m = (none, m)
alloc (some allocated) bytes m =
    let bytes_to_allocate = (16 + bytes) % size_mod in
    (
      some (allocated + 16),
      write allocated bytes_to_allocate
          (write (allocated + 8) unaligned_allocation (count_up_by bytes_to_allocate m)),
    )

-- The address that is given to the system's free, and the memory.
unfoldable pub free : ℕ → Memory → ℕ × Memory
free ptr m =
    let m' = write (ptr - 8) invalid_allocation m in
    (ptr - 16, count_down_by (m'.words (ptr - 16)) m')

-- How many bytes embb_alloc_aligned asks malloc for.
unfoldable pub bytes_to_allocate : ℕ → ℕ → ℕ
bytes_to_allocate alignment size =
    let n = (size + (alignment - 1)) % size_mod / alignment in
    ((n + 1) * alignment + (3 * 8 - 1)) % size_mod

-- The next aligned address after an address.
unfoldable pub next_aligned : ℕ → ℕ → ℕ
next_aligned alignment allocated = bit_and (allocated + alignment) (size_mod - 1 - (alignment - 1))

-- `while ((x-allocated) < additional_bytes) x += alignment;`, for at most that many rounds.
unfoldable pub leave_space : ℕ → ℕ → ℕ → ℕ → ℕ
leave_space alignment allocated zero x = x
leave_space alignment allocated (suc rounds) x =
    let rest = leave_space alignment allocated rounds (x + alignment) in
    if ltb (x - allocated) (3 * 8) then rest else x

-- 24 rounds are enough for an alignment of 1 and so for any other.
unfoldable pub alloc_aligned : Option ℕ → ℕ → ℕ → Memory → Option ℕ × Memory
alloc_aligned none alignment size m = (none, m)
alloc_aligned (some allocated) alignment size m =
    let bytes = bytes_to_allocate alignment size in
    let x = leave_space alignment allocated 24 (next_aligned alignment allocated) in
    (
      some x,
      count_up_by bytes
          (write (x - 24) bytes (write (x - 16) allocated (write (x - 8) aligned_allocation m))),
    )

unfoldable pub free_aligned : ℕ → Memory → ℕ × Memory
free_aligned ptr m =
    let m' = write (ptr - 8) invalid_allocation m in
    (m'.words (ptr - 16), count_down_by (m'.words (ptr - 24)) m')

unfoldable pub get_bytes_allocated : Memory → ℕ
get_bytes_allocated m = m.bytes_allocated

-- EMBB_PLATFORM_CACHE_LINE_SIZE is an argument.
unfoldable pub alloc_cache_aligned : ℕ → Option ℕ → ℕ → Memory → Option ℕ × Memory
alloc_cache_aligned cache_line_size allocated size m =
    alloc_aligned allocated cache_line_size size m
