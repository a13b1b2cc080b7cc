-- ===== src/Base/CoreSet/Laws.antt =====
-- A core set is a set of core numbers (base_c/src/core_set.c).
use Prim.Native.Nat.{min, max}
use embb.Common.{ℕ, ◌<◌, ◌≡◌, refl, ap, ◌∙◌, List, [], ◌∷◌, ◌==◌, if◌then◌else◌, arith}
use embb.Common.Bits.{bit-zero}
use embb.Base.Bitset.Laws.{is_set-eq-bit, is_set-set-clear, is_set-intersect-union, is_set-set_n}
use embb.Base.CoreSet.{CoreSet, init, add, remove, contains, intersection, union}

pub data Op : Type 0 where
  adds : ℕ → Op
  removes : ℕ → Op
  intersects : CoreSet → Op
  unites : CoreSet → Op

pub apply : CoreSet → Op → CoreSet
apply s (adds c) = add s c
apply s (removes c) = remove s c
apply s (intersects t) = intersection s t
apply s (unites t) = union s t

pub run : CoreSet → List Op → CoreSet
run s [] = s
run s (op ∷ ops) = run (apply s op) ops

-- 1 if a core is in the set after the calls, from whether it was in the set before them, and 0 if
-- not.
pub member : ℕ → ℕ → List Op → ℕ
member core before [] = before
member core before (adds c ∷ ops) = member core (if core == c then 1 else before) ops
member core before (removes c ∷ ops) = member core (if core == c then 0 else before) ops
member core before (intersects t ∷ ops) = member core (min before (contains t core)) ops
member core before (unites t ∷ ops) = member core (max before (contains t core)) ops

-- Every core number named in the calls is below the number of cores.
abbrev pub InRange : ℕ → List Op → Type 0
InRange cores [] = Unit {0}
InRange cores (adds c ∷ ops) = (c < cores) × InRange cores ops
InRange cores (removes c ∷ ops) = (c < cores) × InRange cores ops
InRange cores (_ ∷ ops) = InRange cores ops

contains-apply :
    (s : CoreSet) (op : Op) (core : ℕ) (ops : List Op)
    → core < 64
    → InRange 64 (op ∷ ops)
    → member core (contains (apply s op) core) ops ≡ member core (contains s core) (op ∷ ops)
unfolding contains apply member add remove intersection union
contains-apply s (adds c) core ops h r =
    ap (λ b. member core b ops) (is_set-set-clear s.rep c core r.0 h).0
contains-apply s (removes c) core ops h r =
    ap (λ b. member core b ops) (is_set-set-clear s.rep c core r.0 h).1
contains-apply s (intersects t) core ops h r =
    ap (λ b. member core b ops) (is_set-intersect-union s.rep t.rep core).0
contains-apply s (unites t) core ops h r =
    ap (λ b. member core b ops) (is_set-intersect-union s.rep t.rep core).1

contains-run :
    (s : CoreSet) (core : ℕ) (ops : List Op)
    → core < 64
    → InRange 64 ops
    → contains (run s ops) core ≡ member core (contains s core) ops
unfolding run member
contains-run s core [] h r = refl
contains-run s core (adds c ∷ ops) h r =
    contains-run (apply s (adds c)) core ops h r.1 ∙ contains-apply s (adds c) core ops h r
contains-run s core (removes c ∷ ops) h r =
    contains-run (apply s (removes c)) core ops h r.1 ∙ contains-apply s (removes c) core ops h r
contains-run s core (intersects t ∷ ops) h r =
    contains-run (apply s (intersects t)) core ops h r
    ∙ contains-apply s (intersects t) core ops h r
contains-run s core (unites t ∷ ops) h r =
    contains-run (apply s (unites t)) core ops h r ∙ contains-apply s (unites t) core ops h r

contains-init :
    (cores initializer core : ℕ)
    → core < cores
    → contains (init cores initializer) core ≡ (if initializer == 0 then 0 else 1)
unfolding contains init
contains-init cores initializer core h =
    ground (arith, is_set-set_n cores core, is_set-eq-bit 0 core, bit-zero core)

-- On a machine of at most 63 cores, a core set that is initialised empty (`initializer` 0) or with
-- all cores, and then changed by any calls that add and remove cores of the machine and intersect
-- and unite with other sets, contains exactly the cores that such a set of numbers does.
pub contains-run-init :
    (cores initializer core : ℕ) (ops : List Op)
    → cores < 64
    → core < cores
    → InRange 64 ops
    → contains (run (init cores initializer) ops) core
      ≡ member core (if initializer == 0 then 0 else 1) ops
contains-run-init cores initializer core ops h k r =
    contains-run (init cores initializer) core ops (omega arith) r
    ∙ ap (λ b. member core b ops) (contains-init cores initializer core k)
