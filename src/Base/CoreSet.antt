-- ===== src/Base/CoreSet.antt =====
-- base_c/src/core_set.c, the POSIX version. `cores` is what embb_core_count_available() returns; the
-- functions assert that it is below 64, and that a core number is below it.
mod Laws
mod Examples
use embb.Common.{ℕ, ◌==◌, if◌then◌else◌}
use embb.Base.Bitset

pub record CoreSet : Type 0 where
  pub rep : ℕ

pub init : ℕ → ℕ → CoreSet
init cores initializer = record {
  rep = if initializer == 0 then Bitset.clear_all else Bitset.set_n cores;
}

pub add : CoreSet → ℕ → CoreSet
add s core_number = record { rep = Bitset.set s.rep core_number }

pub remove : CoreSet → ℕ → CoreSet
remove s core_number = record { rep = Bitset.clear s.rep core_number }

unfoldable pub contains : CoreSet → ℕ → ℕ
contains s core_number = Bitset.is_set s.rep core_number

pub intersection : CoreSet → CoreSet → CoreSet
intersection s t = record { rep = Bitset.intersect s.rep t.rep }

pub union : CoreSet → CoreSet → CoreSet
union s t = record { rep = Bitset.union s.rep t.rep }

pub count : CoreSet → ℕ
count s = Bitset.count s.rep
