-- ===== src/Base/Memory/Examples.antt =====
-- Blocks of 100 bytes, plain and aligned to a cache line.
use embb.Common.{ℕ, ◌+◌, ◌*◌, ◌^◌, ◌≤◌, ◌<◌, ◌≡◌, some, arith}
use embb.Base.Memory.{
  Memory, size_mod, alloc, free, bytes_to_allocate, alloc_aligned, free_aligned,
  get_bytes_allocated,
}
use embb.Base.Memory.Aligned.{alloc_aligned-block}
use embb.Base.Memory.RoundTrip.{free-alloc, free_aligned-alloc_aligned}

abbrev fresh : Memory
fresh = record { words = λ a. 0; bytes_allocated = 5 }

none_lost : get_bytes_allocated fresh < size_mod
unfolding get_bytes_allocated
none_lost = omega arith

free-alloc_test :
    let (freed, m') = free (1000 + 16) (alloc (some 1000) 100 fresh).1 in
    ((alloc (some 1000) 100 fresh).0 ≡ some (1000 + 16))
    × (freed ≡ 1000)
    × (get_bytes_allocated m' ≡ get_bytes_allocated fresh)
free-alloc_test = free-alloc 1000 100 fresh (omega arith) none_lost

fits : 1000 + bytes_to_allocate (2 ^ 6) 100 ≤ size_mod
unfolding bytes_to_allocate
fits = omega arith

alloc_aligned-block_example :
    (x : ℕ) × (q : ℕ) × ((alloc_aligned (some 1000) (2 ^ 6) 100 fresh).0 ≡ some x)
    × (x ≡ q * 2 ^ 6)
    × (1000 + 24 ≤ x)
    × (x + 100 ≤ 1000 + bytes_to_allocate (2 ^ 6) 100)
alloc_aligned-block_example = alloc_aligned-block 6 100 1000 fresh (omega arith) (omega arith) fits

free_aligned-alloc_aligned_example :
    let (result, m1) = alloc_aligned (some 1000) (2 ^ 6) 100 fresh in
    (x : ℕ) × (result ≡ some x)
    × ((free_aligned x m1).0 ≡ 1000)
    × (get_bytes_allocated (free_aligned x m1).1 ≡ get_bytes_allocated fresh)
free_aligned-alloc_aligned_example =
    free_aligned-alloc_aligned 6 100 1000 fresh (omega arith) (omega arith) fits none_lost
