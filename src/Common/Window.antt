-- ===== src/Common/Window.antt =====
-- Arrays that are used round and round, as the buffers of the id pool and of the task queue are:
-- the entries from an index on, and what a write does to them.
use Prim.Native.Nat.{ℕ, zero, suc, ◌+◌, ◌-◌, ◌≤◌, ◌<◌}
use mathlib.Core.Path.{◌≡◌, refl, ap, ap₂}
use mathlib.Core.Logic.{◌⊎◌}
use mathlib.Core.List.{List, [], ◌∷◌, ◌++◌}
use native.Mathlib.Omega.{arith}
use embb.Common.Tests.{leb, if◌then◌else◌}
use embb.Common.Lists.{length, get_or, set, get_or-set_self, get_or-set_ne}

-- The index after `i` in an array of `size` entries.
abbrev pub next : ℕ → ℕ → ℕ
next size i = if leb size (i + 1) then 0 else i + 1

-- `i` is reached from `h` in `k` steps, at most one of which goes round.
abbrev pub AtDistance : ℕ → ℕ → ℕ → ℕ → Type 0
AtDistance size h k i = ((h + k < size) × (i ≡ h + k)) ⊎ ((size ≤ h + k) × (i + size ≡ h + k))

module _ {ℓ} {A : Type ℓ} (size : ℕ) (d : A) where
  -- The `n` entries from index `h` on.
  abbrev pub window : List A → ℕ → ℕ → List A
  window buf h zero = []
  window buf h (suc n) = get_or buf h d ∷ window buf (next size h) n

  pub length-window : (buf : List A) (h n : ℕ) → length (window buf h n) ≡ n
  length-window buf h zero = refl
  length-window buf h (suc n) = ap suc (length-window buf (next size h) n)

  -- A write at an index behind the window leaves it alone.
  pub window-set_outside :
      (buf : List A) (v : A) (h n k i : ℕ)
      → h < size
      → n ≤ k
      → k < size
      → AtDistance size h k i
      → window (set buf i v) h n ≡ window buf h n
  window-set_outside buf v h zero k i hh hn hk at = refl
  window-set_outside buf v h (suc n) zero i hh hn hk at = absurd (omega arith)
  window-set_outside buf v h (suc n) (suc k) i hh hn hk at =
      ap₂ ◌∷◌ (get_or-set_ne buf v d (omega arith)) (
        window-set_outside buf v (next size h) n k i (ground arith) (omega arith) (omega arith)
          (ground arith))

  -- A write at the index just behind the window extends it.
  pub window-set_end :
      (buf : List A) (v : A) (h n i : ℕ)
      → size ≤ length buf
      → h < size
      → n < size
      → AtDistance size h n i
      → window (set buf i v) h (suc n) ≡ window buf h n ++ (v ∷ [])
  window-set_end buf v h zero i hb hh hn at = ground (arith, get_or-set_self buf i v d)
  window-set_end buf v h (suc n) i hb hh hn at =
      ap₂ ◌∷◌ (get_or-set_ne buf v d (omega arith))
        (window-set_end buf v (next size h) n i hb (ground arith) (omega arith) (ground arith))

  -- `window` matches on `suc`, code tests `0 < n`.
  pub window_of_pos :
      (buf : List A) (h n : ℕ)
      → 0 < n
      → window buf h n ≡ get_or buf h d ∷ window buf (next size h) (n - 1)
  window_of_pos buf h zero pos = absurd (omega arith)
  window_of_pos buf h (suc n) pos = ap (λ k. window buf h (suc k)) (omega arith)

  pub window_of_zero : (buf : List A) (h n : ℕ) → n ≡ 0 → window buf h n ≡ []
  window_of_zero buf h zero e = refl
  window_of_zero buf h (suc n) e = absurd (omega arith)
