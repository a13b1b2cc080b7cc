-- ===== src/Common/Bits.antt =====
-- The binary digits of a number, and what the native bit operations do to each.
use Prim.Native.Nat.{
  ℕ, zero, suc, ◌+◌, ◌-◌, ◌*◌, ◌/◌, ◌%◌, ◌^◌, ◌≤◌, ◌<◌, min, max, bit_and, bit_or, digits,
  bit_and-bitwise, bit_or-bitwise,
}
use mathlib.Core.Path.{◌≡◌, refl, ap, ◌∙◌}
use native.Mathlib.Nat.{pow-suc}
use native.Mathlib.Omega.{arith}
use embb.Common.Tests.{ltb, ◌==◌, if◌then◌else◌}

-- The digit of `x` at place `i`, 0 or 1.
abbrev pub bit : ℕ → ℕ → ℕ
bit zero x = x % 2
bit (suc i) x = bit i (x / 2)

pub bit-le : (i x : ℕ) → bit i x ≤ 1
bit-le zero x = omega arith
bit-le (suc i) x = bit-le i (x / 2)

pub bit-zero : (i : ℕ) → bit i 0 ≡ 0
bit-zero zero = refl
bit-zero (suc i) = bit-zero i

bit-digits_and :
    (n a b i : ℕ) → a ≤ n → bit i (digits (λ c. zero) min n a b) ≡ min (bit i a) (bit i b)
bit-digits_and zero zero b i h = omega (arith, bit-zero i)
bit-digits_and zero (suc a) b i h = absurd (omega arith)
bit-digits_and (suc n) zero b i h = omega (arith, bit-zero i)
bit-digits_and (suc n) (suc a) b zero h = omega arith
bit-digits_and (suc n) (suc a) b (suc i) h =
    ap (bit i) (omega arith) ∙ bit-digits_and n (suc a / 2) (b / 2) i (omega arith)

pub bit-bit_and : (i a b : ℕ) → bit i (bit_and a b) ≡ min (bit i a) (bit i b)
bit-bit_and i a b = ap (bit i) (bit_and-bitwise a b) ∙ bit-digits_and a a b i (omega arith)

bit-digits_or : (n a b i : ℕ) → a ≤ n → bit i (digits (λ c. c) max n a b) ≡ max (bit i a) (bit i b)
bit-digits_or zero zero b i h = omega (arith, bit-zero i)
bit-digits_or zero (suc a) b i h = absurd (omega arith)
bit-digits_or (suc n) zero b i h = omega (arith, bit-zero i)
bit-digits_or (suc n) (suc a) b zero h = omega arith
bit-digits_or (suc n) (suc a) b (suc i) h =
    ap (bit i) (omega arith) ∙ bit-digits_or n (suc a / 2) (b / 2) i (omega arith)

pub bit-bit_or : (i a b : ℕ) → bit i (bit_or a b) ≡ max (bit i a) (bit i b)
bit-bit_or i a b = ap (bit i) (bit_or-bitwise a b) ∙ bit-digits_or a a b i (omega arith)

pub pow_pos : (i : ℕ) → 0 < 2 ^ i
pow_pos zero = omega arith
pow_pos (suc i) = omega (arith, pow_pos i, pow-suc 2 i)

-- A power of two has one digit 1.
pub bit-pow : (i j : ℕ) → bit i (2 ^ j) ≡ (if i == j then 1 else 0)
bit-pow zero zero = refl
bit-pow zero (suc j) = ground (arith, pow-suc 2 j)
bit-pow (suc i) zero = ground (arith, bit-zero i)
bit-pow (suc i) (suc j) = ap (bit i) (omega (arith, pow-suc 2 j)) ∙ bit-pow i j ∙ ground arith

-- The digits of 2^n - 1 are 1 below place n.
pub bit-ones : (i n : ℕ) → bit i (2 ^ n - 1) ≡ (if ltb i n then 1 else 0)
bit-ones i zero = ground (arith, bit-zero i)
bit-ones zero (suc n) = ground (arith, pow-suc 2 n, pow_pos n)
bit-ones (suc i) (suc n) =
    ap (bit i) (omega (arith, pow-suc 2 n, pow_pos n)) ∙ bit-ones i n ∙ ground arith

-- The complement within `w` digits turns each of them over.
pub bit-complement : (i w x : ℕ) → x < 2 ^ w → i < w → bit i (2 ^ w - 1 - x) ≡ 1 - bit i x
bit-complement i zero x h k = absurd (omega arith)
bit-complement zero (suc w) x h k = omega (arith, pow-suc 2 w)
bit-complement (suc i) (suc w) x h k =
    ap (bit i) (omega (arith, pow-suc 2 w))
    ∙ bit-complement i w (x / 2) (omega (arith, pow-suc 2 w)) (omega arith)

digits_and-zero : (n a : ℕ) → digits (λ c. zero) min n a 0 ≡ 0
digits_and-zero zero a = refl
digits_and-zero (suc n) zero = refl
digits_and-zero (suc n) (suc a) = omega (arith, digits_and-zero n (suc a / 2))

digits_and-pow : (n a i : ℕ) → a ≤ n → digits (λ c. zero) min n a (2 ^ i) ≡ bit i a * 2 ^ i
digits_and-pow zero zero i h = omega (arith, ap (λ (t : ℕ). t * 2 ^ i) (bit-zero i))
digits_and-pow zero (suc a) i h = absurd (omega arith)
digits_and-pow (suc n) zero i h = omega (arith, ap (λ (t : ℕ). t * 2 ^ i) (bit-zero i))
digits_and-pow (suc n) (suc a) zero h = omega (arith, digits_and-zero n (suc a / 2))
digits_and-pow (suc n) (suc a) (suc i) h =
    let half : 2 ^ suc i / 2 ≡ 2 ^ i = omega (arith, pow-suc 2 i) in
    omega (
      arith,
      pow-suc 2 i,
      ap (digits (λ c. zero) min n (suc a / 2)) half ∙ digits_and-pow n (suc a / 2) i (omega arith),
      ap (λ (t : ℕ). bit i (suc a / 2) * t) (pow-suc 2 i),
    )

-- Masking one place gives its digit there.
pub bit_and-pow : (a i : ℕ) → bit_and a (2 ^ i) ≡ bit i a * 2 ^ i
bit_and-pow a i = bit_and-bitwise a (2 ^ i) ∙ digits_and-pow a a i (omega arith)

pub pow_mono : (i j : ℕ) → i < j → 2 ^ i < 2 ^ j
pow_mono i zero h = absurd (omega arith)
pow_mono zero (suc j) h = omega (arith, pow-suc 2 j, pow_pos j)
pow_mono (suc i) (suc j) h = omega (arith, pow-suc 2 i, pow-suc 2 j, pow_mono i j (omega arith))

pub pow-add_one : (i : ℕ) → 2 ^ (i + 1) ≡ 2 ^ i * 2
pow-add_one i = ap (λ (k : ℕ). 2 ^ k) (omega arith) ∙ pow-suc 2 i
