-- ===== src/Base/Bitset.antt =====
-- base_c/include/embb/base/c/internal/bitset.h: a set of the numbers below 64 in a `uint64_t`.
-- The functions assert that a place is below 64.
pub mod Laws
pub mod Count
mod Examples
use Prim.Native.Nat.{bit_and, bit_or}
use embb.Common.{ℕ, zero, suc, ◌+◌, ◌-◌, ◌*◌, ◌%◌, ◌^◌, ◌<◌, ◌==◌, ltb, if◌then◌else◌}

abbrev pub u64_mod : ℕ
u64_mod = 2 ^ 64

pub set : ℕ → ℕ → ℕ
set that place = bit_or that (2 ^ place)

pub set_n : ℕ → ℕ
set_n count = if count == 64 then u64_mod - 1 else 2 ^ count - 1

pub clear : ℕ → ℕ → ℕ
clear that place = bit_and that (u64_mod - 1 - 2 ^ place)

abbrev pub clear_all : ℕ
clear_all = 0

unfoldable pub is_set : ℕ → ℕ → ℕ
is_set that place = if bit_and that (2 ^ place) == 0 then 0 else 1

unfoldable pub intersect : ℕ → ℕ → ℕ
intersect that mask = bit_and that mask

pub union : ℕ → ℕ → ℕ
union that mask = bit_or that mask

-- The loop of `embb_bitset_count` for the rounds left.
pub count_from : ℕ → ℕ → ℕ → ℕ → ℕ
count_from that zero mask count = count
count_from that (suc rounds) mask count =
    count_from that rounds (mask * 2 % u64_mod)
      (if ltb 0 (bit_and that mask) then count + 1 else count)

pub count : ℕ → ℕ
unfolding count_from
count that = count_from that 64 1 0
