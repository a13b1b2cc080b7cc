-- ===== src/Mtapi/Attributes/Task.antt =====
-- mtapi_c/src/mtapi_task_attributes_t.c, and the switch of `mtapi_task_get_attribute`
-- (mtapi_c/src/embb_mtapi_task_t.c).
use embb.Common.{ℕ, ◌≡◌, Option, none, some, true, ◌&&◌, ◌==◌, if◌then◌else◌, arith}
use embb.Mtapi.Status.{Status, success, err_parameter, err_attr_num, is_success}
use embb.Mtapi.Affinity
use embb.Mtapi.Attributes.{
  Attribute, store, given, set_value, get_value, no_value, uint_size, affinity_size, boolean_size,
}

-- `complete_func` is 0 for MTAPI_NULL.
pub record TaskAttributes : Type 0 where
  pub is_detached : ℕ
  pub num_instances : ℕ
  pub priority : ℕ
  pub affinity : ℕ
  pub user_data : ℕ
  pub complete_func : ℕ

-- enum mtapi_task_attributes_enum; `unknown` is any other number.
pub data Num : Type 0 where
  detached instances priority affinity user_data complete_function unknown : Num

abbrev pub number : Num → ℕ
number detached = 0
number instances = 1
number priority = 2
number affinity = 3
number user_data = 4
number complete_function = 5
number unknown = 6

with_affinity : TaskAttributes → Status × Option ℕ → Status × Option TaskAttributes
with_affinity a (status, none) = (status, none)
with_affinity a (status, some mask) = (status, some (record a { affinity = mask }))

-- The node's `num_cores` is an argument, `none` where there is no node. `user_data` stays what it
-- was.
unfoldable pub init : Option ℕ → Option TaskAttributes → Status × Option TaskAttributes
unfolding with_affinity
init num_cores none = (err_parameter, none)
init num_cores (some a) =
    let a' = record a { num_instances = 1; is_detached = 0; priority = 0; complete_func = 0 } in
    with_affinity a' (Affinity.init num_cores (some a.affinity) true)

set_switch : TaskAttributes → Num → Attribute → ℕ → Status × TaskAttributes
set_switch a detached v size =
    store (set_value boolean_size a.is_detached v size) (λ x. record a { is_detached = x })
set_switch a instances v size =
    store (set_value uint_size a.num_instances v size) (λ x. record a { num_instances = x })
set_switch a priority v size =
    store (set_value uint_size a.priority v size) (λ x. record a { priority = x })
set_switch a affinity v size =
    store (set_value affinity_size a.affinity v size) (λ x. record a { affinity = x })
set_switch a user_data v size = (success, record a { user_data = v.pointer })
set_switch a complete_function v size = (success, record a { complete_func = v.pointer })
set_switch a unknown v size = (err_attr_num, a)

-- `mtapi_taskattr_set` on attributes whose address is not null.
unfoldable pub set_at : TaskAttributes → Num → Attribute → ℕ → Status × TaskAttributes
unfolding set_switch
set_at a num v size = if no_value v size then (err_parameter, a) else set_switch a num v size

unfoldable pub set : Option TaskAttributes → Num → Attribute → ℕ → Status × Option TaskAttributes
set none num v size = (err_parameter, none)
set (some a) num v size = let (status, a') = set_at a num v size in (status, some a')

-- The other attributes cannot be read.
unfoldable pub get : TaskAttributes → Num → ℕ → Status × Option ℕ
get a detached size = get_value boolean_size a.is_detached size
get a instances size = get_value uint_size a.num_instances size
get a priority size = get_value uint_size a.priority size
get a _ size = (err_attr_num, none)

-- The field that an attribute is kept in.
abbrev pub field : TaskAttributes → Num → ℕ
field a detached = a.is_detached
field a instances = a.num_instances
field a priority = a.priority
field a affinity = a.affinity
field a user_data = a.user_data
field a complete_function = a.complete_func
field a unknown = 0

-- The value that a call hands over for an attribute.
abbrev pub handed : Num → Attribute → ℕ → ℕ
handed detached v size = given boolean_size v size
handed instances v size = given uint_size v size
handed priority v size = given uint_size v size
handed affinity v size = given affinity_size v size
handed _ v size = v.pointer

-- After `set_at` with whatever outcome, the field of any attribute holds the value handed over if
-- `set_at` succeeded on that attribute, and what it held before if `set_at` failed or was on
-- another one.
pub field-set_task :
    (a : TaskAttributes) (num other : Num) (v : Attribute) (size : ℕ)
    → let (status, a') = set_at a num v size in
      field a' other ≡ (
        if is_success status && (number num == number other)
        then handed num v size
        else field a other)
unfolding set_at set_value
field-set_task a detached detached v size = ground arith
field-set_task a instances instances v size = ground arith
field-set_task a priority priority v size = ground arith
field-set_task a affinity affinity v size = ground arith
field-set_task a user_data user_data v size = ground arith
field-set_task a complete_function complete_function v size = ground arith
field-set_task a _ _ v size = ground arith
