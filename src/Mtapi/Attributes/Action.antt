-- ===== src/Mtapi/Attributes/Action.antt =====
-- mtapi_c/src/mtapi_action_attributes_t.c, and the switch of `mtapi_action_get_attribute`
-- (mtapi_c/src/embb_mtapi_action_t.c).
use embb.Common.{ℕ, ◌≡◌, Option, none, some, true, ◌&&◌, ◌==◌, if◌then◌else◌, arith}
use embb.Mtapi.Status.{Status, err_parameter, err_attr_num, is_success}
use embb.Mtapi.Affinity
use embb.Mtapi.Attributes.{
  Attribute, store, given, set_value, get_value, no_value, affinity_size, boolean_size,
}

pub record ActionAttributes : Type 0 where
  pub global : ℕ
  pub affinity : ℕ
  pub domain_shared : ℕ

-- enum mtapi_action_attributes_enum; `unknown` is any other number.
pub data Num : Type 0 where
  global affinity domain_shared unknown : Num

abbrev pub number : Num → ℕ
number global = 0
number affinity = 1
number domain_shared = 2
number unknown = 3

with_affinity : Status × Option ℕ → Status × Option ActionAttributes
with_affinity (status, none) = (status, none)
with_affinity (status, some mask) =
    (status, some (record { global = 1; affinity = mask; domain_shared = 1 }))

-- The node's `num_cores` is an argument, `none` where there is no node.
unfoldable pub init : Option ℕ → Option ActionAttributes → Status × Option ActionAttributes
unfolding with_affinity
init num_cores none = (err_parameter, none)
init num_cores (some a) = with_affinity (Affinity.init num_cores (some a.affinity) true)

set_switch : ActionAttributes → Num → Attribute → ℕ → Status × ActionAttributes
set_switch a global v size =
    store (set_value boolean_size a.global v size) (λ x. record a { global = x })
set_switch a affinity v size =
    store (set_value affinity_size a.affinity v size) (λ x. record a { affinity = x })
set_switch a domain_shared v size =
    store (set_value boolean_size a.domain_shared v size) (λ x. record a { domain_shared = x })
set_switch a unknown v size = (err_attr_num, a)

-- `mtapi_actionattr_set` on attributes whose address is not null.
unfoldable pub set_at : ActionAttributes → Num → Attribute → ℕ → Status × ActionAttributes
unfolding set_switch
set_at a num v size = if no_value v size then (err_parameter, a) else set_switch a num v size

unfoldable pub set :
    Option ActionAttributes → Num → Attribute → ℕ → Status × Option ActionAttributes
set none num v size = (err_parameter, none)
set (some a) num v size = let (status, a') = set_at a num v size in (status, some a')

unfoldable pub get : ActionAttributes → Num → ℕ → Status × Option ℕ
get a global size = get_value boolean_size a.global size
get a affinity size = get_value affinity_size a.affinity size
get a domain_shared size = get_value boolean_size a.domain_shared size
get a unknown size = (err_attr_num, none)

-- The size of an attribute's value.
abbrev pub size_of : Num → ℕ
size_of affinity = affinity_size
size_of _ = boolean_size

-- After `set_at` with whatever outcome, reading any attribute gives the value handed over if
-- `set_at` succeeded on that attribute, and what it gave before if `set_at` failed or was on
-- another one.
pub get-set_action :
    (a : ActionAttributes) (num other : Num) (v : Attribute) (size size' : ℕ)
    → let (status, a') = set_at a num v size in
      get a' other size' ≡ (
        if is_success status && (number num == number other)
        then get_value (size_of num) (given (size_of num) v size) size'
        else get a other size')
unfolding set_at get set_value
get-set_action a global global v size size' = ground arith
get-set_action a affinity affinity v size size' = ground arith
get-set_action a domain_shared domain_shared v size size' = ground arith
get-set_action a _ _ v size size' = ground arith
