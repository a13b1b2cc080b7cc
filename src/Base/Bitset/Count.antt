-- ===== src/Base/Bitset/Count.antt =====
-- The number of elements of a set (base_c/include/embb/base/c/internal/bitset.h).
use Prim.Native.Nat.{min, bit_and}
use embb.Common.{
  ℕ, zero, suc, ◌+◌, ◌-◌, ◌*◌, ◌%◌, ◌^◌, ◌≤◌, ◌≡◌, refl, List, [], ◌∷◌, arith, ltb, ◌==◌,
  if◌then◌else◌, length, Bool-cases, inl, inr, ◌∙◌, ap,
}
use embb.Common.Bits.{pow_mono, pow-add_one}
use embb.Base.Bitset.{u64_mod, set_n, is_set, count, count_from}
use embb.Base.Bitset.Laws.{is_set-set_n, test-eq-is_set}

-- The elements of the set among the `rounds` places from `place` on.
pub members : ℕ → ℕ → ℕ → List ℕ
members that zero place = []
members that (suc rounds) place =
    let rest = members that rounds (place + 1) in
    if is_set that place == 1 then place ∷ rest else rest

count_from-length :
    (that rounds place mask n : ℕ)
    → place + rounds ≡ 64
    → mask ≡ 2 ^ place % u64_mod
    → count_from that rounds mask n ≡ n + length (members that rounds place)
unfolding count_from members
count_from-length that zero place mask n e m = omega arith
count_from-length that (suc rounds) place mask n e m =
    let here : mask ≡ 2 ^ place = omega (arith, pow_mono place 64 (omega arith)) in
    let after : mask * 2 % u64_mod ≡ 2 ^ (place + 1) % u64_mod = omega (arith, pow-add_one place) in
    let test = ap (λ k. ltb 0 (bit_and that k)) here ∙ test-eq-is_set that place in
    elim (Bool-cases (is_set that place == 1)) [
      | inl h ↦
          rw (test, h)
            (count_from-length that rounds (place + 1) _ (n + 1) (omega arith) after ∙ omega arith)
      | inr h ↦ rw (test, h) (count_from-length that rounds (place + 1) _ n (omega arith) after)
    ]

-- `embb_bitset_count` gives the number of elements.
pub count-eq-length : (that : ℕ) → count that ≡ length (members that 64 0)
unfolding count
count-eq-length that = count_from-length that 64 0 1 0 refl refl ∙ omega arith

length-members-set_n :
    (n rounds place : ℕ) → length (members (set_n n) rounds place) ≡ min (n - place) rounds
unfolding members
length-members-set_n n zero place = omega arith
length-members-set_n n (suc rounds) place =
    ground (arith, is_set-set_n n place, length-members-set_n n rounds (place + 1))

-- The set that `set_n` gives has the given number of elements, up to 64.
pub count-set_n : (n : ℕ) → n ≤ 64 → count (set_n n) ≡ n
count-set_n n h = omega (arith, count-eq-length (set_n n), length-members-set_n n 64 0)
