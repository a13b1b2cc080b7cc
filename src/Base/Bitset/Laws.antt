-- ===== src/Base/Bitset/Laws.antt =====
-- Each operation as an operation on sets (base_c/include/embb/base/c/internal/bitset.h).
use Prim.Native.Nat.{min, max, bit_and, bit_or}
use embb.Common.{
  ℕ, ◌-◌, ◌^◌, ◌<◌, ◌≡◌, arith, ltb, ◌==◌, if◌then◌else◌, Bool-cases, ==_iff, inl, inr, ◌∙◌,
}
use embb.Common.Bits.{
  bit, bit-le, bit-bit_and, bit-bit_or, bit-pow, bit-ones, bit-complement, bit_and-pow, pow_pos,
  pow_mono,
}
use embb.Base.Bitset.{u64_mod, set, set_n, clear, is_set, intersect, union}

-- `is_set` gives the binary digit.
pub is_set-eq-bit : (that place : ℕ) → is_set that place ≡ bit place that
unfolding is_set
is_set-eq-bit that place = ground (arith, bit_and-pow that place, bit-le place that, pow_pos place)

-- `set` adds the place to the set, and `clear` takes it out; all other places stay as they were.
pub is_set-set-clear :
    (that place i : ℕ)
    → place < 64
    → i < 64
    → (is_set (set that place) i ≡ (if i == place then 1 else is_set that i))
      × (is_set (clear that place) i ≡ (if i == place then 0 else is_set that i))
unfolding set clear
is_set-set-clear that place i k l = ground (
  arith,
  is_set-eq-bit (bit_or that (2 ^ place)) i,
  is_set-eq-bit (bit_and that (u64_mod - 1 - 2 ^ place)) i,
  is_set-eq-bit that i,
  bit-bit_or i that (2 ^ place),
  bit-bit_and i that (u64_mod - 1 - 2 ^ place),
  bit-complement i 64 (2 ^ place) (pow_mono place 64 k) l,
  bit-pow i place,
  bit-le i that,
)

-- `intersect` keeps the places that both sets hold, and `union` those that one of them holds.
pub is_set-intersect-union :
    (that mask i : ℕ)
    → (is_set (intersect that mask) i ≡ min (is_set that i) (is_set mask i))
      × (is_set (union that mask) i ≡ max (is_set that i) (is_set mask i))
unfolding intersect union
is_set-intersect-union that mask i = omega (
  arith,
  is_set-eq-bit (bit_and that mask) i,
  is_set-eq-bit (bit_or that mask) i,
  is_set-eq-bit that i,
  is_set-eq-bit mask i,
  bit-bit_and i that mask,
  bit-bit_or i that mask,
)

-- `set_n` gives the set of the places below the count.
pub is_set-set_n : (n i : ℕ) → is_set (set_n n) i ≡ (if ltb i n then 1 else 0)
unfolding set_n
is_set-set_n n i = elim (Bool-cases (n == 64)) [
  | inl e ↦ rw ((==_iff n 64).0 e) (is_set-eq-bit (2 ^ 64 - 1) i ∙ bit-ones i 64)
  | inr e ↦ rw e (is_set-eq-bit (2 ^ n - 1) i ∙ bit-ones i n)
]

pub test-eq-is_set : (that place : ℕ) → ltb 0 (bit_and that (2 ^ place)) ≡ (is_set that place == 1)
unfolding is_set
test-eq-is_set that place = ground arith
