-- ===== src/Base/Memory/Aligned.antt =====
-- Where an aligned block lies (base_c/src/memory_allocation.c).
use Prim.Native.Nat.{bit_and, digits, min, bit_and-bitwise}
use embb.Common.{
  ℕ, zero, suc, ap, ◌∙◌, ◌+◌, ◌-◌, ◌*◌, ◌/◌, ◌%◌, ◌^◌, ◌≤◌, ◌<◌, ◌≡◌, refl, some, arith, ltb,
  Bool-cases, inl, inr,
}
use embb.Common.Bits.{pow_pos}
use native.Mathlib.Nat.{pow-suc, div-add-mod', mod-lt}
use embb.Base.Memory.{Memory, size_mod, bytes_to_allocate, next_aligned, leave_space, alloc_aligned}

-- What masking the digits of `a` below place `k` away gives: the multiple of 2^k below it.
IsFloor : ℕ → ℕ → ℕ → Type 0
IsFloor k a r = (q : ℕ) × (r ≡ q * 2 ^ k) × (r ≤ a) × (a < r + 2 ^ k)

digits_and-high :
    (n a w k : ℕ)
    → a ≤ n
    → a < 2 ^ w
    → k ≤ w
    → IsFloor k a (digits (λ c. zero) min n a (2 ^ w - 2 ^ k))
unfolding IsFloor
digits_and-high zero zero w k h small l = (0, omega arith, omega arith, omega (arith, pow_pos k))
digits_and-high zero (suc a) w k h small l = absurd (omega arith)
digits_and-high (suc n) zero w k h small l = (0, omega arith, omega arith, omega (arith, pow_pos k))
digits_and-high (suc n) (suc a) zero k h small l = absurd (omega arith)
digits_and-high (suc n) (suc a) (suc w) zero h small l =
    let half : (2 ^ suc w - 1) / 2 ≡ 2 ^ w - 1 = omega (arith, pow-suc 2 w, pow_pos w) in
    let (q, e, low, up) =
      digits_and-high n (suc a / 2) w 0 (omega arith) (omega (arith, pow-suc 2 w)) (omega arith) in
    let same = ap (digits (λ c. zero) min n (suc a / 2)) half in
    let odd : (2 ^ suc w - 1) % 2 ≡ 1 = omega (arith, pow-suc 2 w, pow_pos w) in
    (
      suc a,
      omega (arith, same, odd, e, low, up),
      omega (arith, same, odd, e, low, up),
      omega (arith, same, odd, e, low, up),
    )
digits_and-high (suc n) (suc a) (suc w) (suc k) h small l =
    let half : (2 ^ suc w - 2 ^ suc k) / 2 ≡ 2 ^ w - 2 ^ k =
      omega (arith, pow-suc 2 w, pow-suc 2 k) in
    let (q, e, low, up) =
      digits_and-high n (suc a / 2) w k (omega arith) (omega (arith, pow-suc 2 w)) (omega arith) in
    let same = ap (digits (λ c. zero) min n (suc a / 2)) half in
    let even : (2 ^ suc w - 2 ^ suc k) % 2 ≡ 0 = omega (arith, pow-suc 2 w, pow-suc 2 k) in
    let twice = ap (λ (t : ℕ). q * t) (pow-suc 2 k) in
    (
      q,
      omega (arith, same, even, e, twice),
      omega (arith, same, even, low),
      omega (arith, same, even, up, pow-suc 2 k),
    )

next_aligned-IsFloor :
    (k allocated : ℕ)
    → k ≤ 64
    → allocated + 2 ^ k < size_mod
    → IsFloor k (allocated + 2 ^ k) (next_aligned (2 ^ k) allocated)
unfolding next_aligned IsFloor
next_aligned-IsFloor k allocated h small =
    let a = allocated + 2 ^ k in
    let mask : size_mod - 1 - (2 ^ k - 1) ≡ 2 ^ 64 - 2 ^ k = omega (arith, pow_pos k) in
    let (q, e, low, up) = digits_and-high a a 64 k (omega arith) small h in
    let same = ap (bit_and a) mask ∙ bit_and-bitwise a (2 ^ 64 - 2 ^ k) in
    (q, same ∙ e, omega (arith, same, low), omega (arith, same, up))

leave_space-fits :
    (k allocated rounds x q : ℕ)
    → x ≡ q * 2 ^ k
    → allocated < x
    → x ≤ allocated + 23 + 2 ^ k
    → allocated + 24 ≤ x + rounds
    → let y = leave_space (2 ^ k) allocated rounds x in
      (p : ℕ) × (y ≡ p * 2 ^ k) × (allocated + 24 ≤ y) × (y ≤ allocated + 23 + 2 ^ k)
unfolding leave_space
leave_space-fits k allocated zero x q e low up far = (q, e, omega arith, up)
leave_space-fits k allocated (suc rounds) x q e low up far =
    elim (Bool-cases (ltb (x - allocated) (3 * 8))) [
      | inl near ↦ rw near (
          leave_space-fits k allocated rounds (x + 2 ^ k) (q + 1) (omega (arith, e)) (omega arith)
            (ground arith) (omega (arith, pow_pos k)))
      | inr done ↦ rw done (q, e, ground arith, up)
    ]

pub bytes-cover :
    (k size : ℕ)
    → size + 2 * 2 ^ k + 23 < size_mod
    → (size + 2 ^ k + 23 ≤ bytes_to_allocate (2 ^ k) size)
      × (bytes_to_allocate (2 ^ k) size < size_mod)
unfolding bytes_to_allocate
bytes-cover k size small =
    let al = 2 ^ k in
    let s = (size + (al - 1)) % size_mod in
    let whole = div-add-mod' s al in
    let part = mod-lt s {m = al} (pow_pos k) in ground (arith, whole, part, pow_pos k)

-- For an alignment 2^k with k at most 63, a size that leaves twice the alignment and 23 bytes below
-- 2^64, and a block that malloc returned which ends by 2^64: embb_alloc_aligned returns a multiple of
-- the alignment, with 24 bytes of the block before it and `size` bytes of it behind it.
pub alloc_aligned-block :
    (k size allocated : ℕ) (m : Memory)
    → k < 64
    → size + 2 * 2 ^ k + 23 < size_mod
    → allocated + bytes_to_allocate (2 ^ k) size ≤ size_mod
    → (x : ℕ) × (q : ℕ) × ((alloc_aligned (some allocated) (2 ^ k) size m).0 ≡ some x)
      × (x ≡ q * 2 ^ k)
      × (allocated + 24 ≤ x)
      × (x + size ≤ allocated + bytes_to_allocate (2 ^ k) size)
unfolding alloc_aligned IsFloor
alloc_aligned-block k size allocated m h small fits =
    let cover = bytes-cover k size small in
    let (q, e, low, up) = next_aligned-IsFloor k allocated (omega arith) (omega arith) in
    let x = next_aligned (2 ^ k) allocated in
    let (p, e', low', up') =
      leave_space-fits k allocated 24 x q e (omega arith) (omega arith) (omega arith) in
    (leave_space (2 ^ k) allocated 24 x, p, refl, e', low', omega arith)
