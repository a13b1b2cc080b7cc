-- ===== src/Mtapi/Attributes.antt =====
-- mtapi_c/src/embb_mtapi_attr.c: writing and reading one attribute. Pointers are 64 bits wide, and
-- numbers lie in memory lowest byte first.
pub mod Action
pub mod Group
pub mod Queue
pub mod Task
pub mod Node
mod Examples
use embb.Common.{ℕ, ◌*◌, ◌%◌, ◌^◌, Option, none, some, Bool, ◌&&◌, not, ◌==◌, if◌then◌else◌}
use embb.Mtapi.Status.{Status, success, err_attr_size}

-- The argument `void* attribute`: the address, and the number that the first `k` bytes there hold.
pub record Attribute : Type 0 where
  pub pointer : ℕ
  pub content : ℕ → ℕ

-- MTAPI_ATTRIBUTE_POINTER_AS_VALUE
abbrev pub pointer_as_value : ℕ
pointer_as_value = 0

-- sizeof of mtapi_uint_t, mtapi_affinity_t and mtapi_boolean_t
abbrev pub uint_size : ℕ
uint_size = 4

abbrev pub affinity_size : ℕ
affinity_size = 8

abbrev pub boolean_size : ℕ
boolean_size = 1

-- `embb_mtapi_attr_set_TYPE` for a TYPE of `k` bytes: the status and the new `*target`.
unfoldable pub set_value : ℕ → ℕ → Attribute → ℕ → Status × ℕ
set_value k target attribute size =
    if k == size
    then (success, attribute.content k)
    else if pointer_as_value == size
    then (success, attribute.pointer % 2 ^ (8 * k))
    else (err_attr_size, target)

-- `embb_mtapi_attr_get_TYPE`: the status and what is written to `*attribute`, if anything.
unfoldable pub get_value : ℕ → ℕ → ℕ → Status × Option ℕ
get_value k source size = if k == size then (success, some source) else (err_attr_size, none)

-- The test at the start of each `mtapi_*attr_set`: no value and no address to read one from.
abbrev pub no_value : Attribute → ℕ → Bool
no_value attribute size = not (pointer_as_value == size) && (attribute.pointer == 0)

-- The status of such a call, with the attributes that its value goes into.
abbrev pub store : {A : Type 0} → Status × ℕ → (ℕ → A) → Status × A
store (status, value) update = (status, update value)

-- The value that a call hands over.
abbrev pub given : ℕ → Attribute → ℕ → ℕ
given k attribute size = if k == size then attribute.content k else attribute.pointer % 2 ^ (8 * k)
