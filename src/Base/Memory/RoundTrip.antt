-- ===== src/Base/Memory/RoundTrip.antt =====
-- What is allocated is given back (base_c/src/memory_allocation.c).
use embb.Common.{ℕ, ◌+◌, ◌-◌, ◌*◌, ◌^◌, ◌≤◌, ◌<◌, ◌≡◌, some, refl, arith}
use embb.Base.Memory.{
  Memory, size_mod, write, alloc, free, bytes_to_allocate, next_aligned, leave_space, alloc_aligned,
  free_aligned, get_bytes_allocated, count_up_by, aligned_allocation,
}
use embb.Base.Memory.Aligned.{alloc_aligned-block, bytes-cover}

-- embb_free of what embb_alloc returned for a block of malloc, of 16 bytes more than were asked for,
-- below 2^64, gives that block back, and the count of bytes is what it was, modulo 2^64.
pub free-alloc :
    (allocated bytes : ℕ) (m : Memory)
    → 16 + bytes < size_mod
    → get_bytes_allocated m < size_mod
    → let (freed, m') = free (allocated + 16) (alloc (some allocated) bytes m).1 in
      ((alloc (some allocated) bytes m).0 ≡ some (allocated + 16))
      × (freed ≡ allocated)
      × (get_bytes_allocated m' ≡ get_bytes_allocated m)
unfolding free alloc write get_bytes_allocated
free-alloc allocated bytes m small counted = ground arith

free_aligned-words :
    (x bytes allocated : ℕ) (m : Memory)
    → 24 ≤ x
    → bytes < size_mod
    → m.bytes_allocated < size_mod
    → let filled =
        write (x - 24) bytes (write (x - 16) allocated (write (x - 8) aligned_allocation m)) in
      let (freed, m') = free_aligned x (count_up_by bytes filled) in
      (freed ≡ allocated) × (m'.bytes_allocated ≡ m.bytes_allocated)
unfolding free_aligned write
free_aligned-words x bytes allocated m high small counted = ground arith

-- For an alignment 2^k with k at most 63, a size that leaves twice the alignment and 23 bytes below
-- 2^64, and a block that malloc returned which ends by 2^64: embb_free_aligned of what
-- embb_alloc_aligned returned gives that block back, and the count of bytes is what it was.
pub free_aligned-alloc_aligned :
    (k size allocated : ℕ) (m : Memory)
    → k < 64
    → size + 2 * 2 ^ k + 23 < size_mod
    → allocated + bytes_to_allocate (2 ^ k) size ≤ size_mod
    → get_bytes_allocated m < size_mod
    → let (result, m1) = alloc_aligned (some allocated) (2 ^ k) size m in
      (x : ℕ) × (result ≡ some x)
      × ((free_aligned x m1).0 ≡ allocated)
      × (get_bytes_allocated (free_aligned x m1).1 ≡ get_bytes_allocated m)
unfolding alloc_aligned get_bytes_allocated
free_aligned-alloc_aligned k size allocated m h small fits counted =
    let x = leave_space (2 ^ k) allocated 24 (next_aligned (2 ^ k) allocated) in
    let (x', q, same, e, low, up) = alloc_aligned-block k size allocated m h small fits in
    let cover = bytes-cover k size small in
    let high : 24 ≤ x = ground arith in
    let words =
      free_aligned-words x (bytes_to_allocate (2 ^ k) size) allocated m high cover.1 counted in
    (x, refl, words.0, words.1)
