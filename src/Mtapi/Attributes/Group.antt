-- ===== src/Mtapi/Attributes/Group.antt =====
-- mtapi_c/src/mtapi_group_attributes_t.c.
use embb.Common.{ℕ, Option, none, some, if◌then◌else◌}
use embb.Mtapi.Status.{Status, success, err_parameter, err_attr_num}
use embb.Mtapi.Attributes.{Attribute, no_value}

pub record GroupAttributes : Type 0 where
  pub some_value : ℕ

unfoldable pub init : Option GroupAttributes → Status × Option GroupAttributes
init none = (err_parameter, none)
init (some _) = (success, some (record { some_value = 0 }))

-- A group has no attributes to set, so the number is not read, and the attributes stay.
unfoldable pub set_at : Attribute → ℕ → Status
set_at v size = if no_value v size then err_parameter else err_attr_num

unfoldable pub set : Option GroupAttributes → Attribute → ℕ → Status
set none v size = err_parameter
set (some _) v size = set_at v size
