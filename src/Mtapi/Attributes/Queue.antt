-- ===== src/Mtapi/Attributes/Queue.antt =====
-- mtapi_c/src/mtapi_queue_attributes_t.c, and the switch of `mtapi_queue_get_attribute`
-- (mtapi_c/src/embb_mtapi_queue_t.c).
use embb.Common.{ℕ, ◌≡◌, Option, none, some, ◌&&◌, ◌==◌, if◌then◌else◌, arith}
use embb.Mtapi.Status.{Status, success, err_parameter, err_attr_num, err_node_notinit, is_success}
use embb.Mtapi.Attributes.{
  Attribute, store, given, set_value, get_value, no_value, uint_size, boolean_size,
}

pub record QueueAttributes : Type 0 where
  pub global : ℕ
  pub priority : ℕ
  pub limit : ℕ
  pub ordered : ℕ
  pub retain : ℕ
  pub domain_shared : ℕ

-- enum mtapi_queue_attributes_enum; `unknown` is any other number.
pub data Num : Type 0 where
  global priority limit ordered retain domain_shared unknown : Num

abbrev pub number : Num → ℕ
number global = 0
number priority = 1
number limit = 2
number ordered = 3
number retain = 4
number domain_shared = 5
number unknown = 6

-- The node's `queue_limit` is an argument, `none` where there is no node, and the attributes are
-- `none` for a null pointer.
unfoldable pub init : Option ℕ → Option QueueAttributes → Status × Option QueueAttributes
init none attributes = (err_node_notinit, attributes)
init (some queue_limit) none = (err_parameter, none)
init (some queue_limit) (some _) = (
  success,
  some (record {
    global = 1;
    priority = 0;
    limit = queue_limit;
    ordered = 1;
    retain = 0;
    domain_shared = 1;
  }),
)

set_switch : QueueAttributes → Num → Attribute → ℕ → Status × QueueAttributes
set_switch a global v size =
    store (set_value boolean_size a.global v size) (λ x. record a { global = x })
set_switch a priority v size =
    store (set_value uint_size a.priority v size) (λ x. record a { priority = x })
set_switch a limit v size = store (set_value uint_size a.limit v size) (λ x. record a { limit = x })
set_switch a ordered v size =
    store (set_value boolean_size a.ordered v size) (λ x. record a { ordered = x })
set_switch a retain v size =
    store (set_value boolean_size a.retain v size) (λ x. record a { retain = x })
set_switch a domain_shared v size =
    store (set_value boolean_size a.domain_shared v size) (λ x. record a { domain_shared = x })
set_switch a unknown v size = (err_attr_num, a)

-- `mtapi_queueattr_set` on attributes whose address is not null.
unfoldable pub set_at : QueueAttributes → Num → Attribute → ℕ → Status × QueueAttributes
unfolding set_switch
set_at a num v size = if no_value v size then (err_parameter, a) else set_switch a num v size

unfoldable pub set : Option QueueAttributes → Num → Attribute → ℕ → Status × Option QueueAttributes
set none num v size = (err_parameter, none)
set (some a) num v size = let (status, a') = set_at a num v size in (status, some a')

unfoldable pub get : QueueAttributes → Num → ℕ → Status × Option ℕ
get a global size = get_value boolean_size a.global size
get a priority size = get_value uint_size a.priority size
get a limit size = get_value uint_size a.limit size
get a ordered size = get_value boolean_size a.ordered size
get a retain size = get_value boolean_size a.retain size
get a domain_shared size = get_value boolean_size a.domain_shared size
get a unknown size = (err_attr_num, none)

-- The size of an attribute's value.
abbrev pub size_of : Num → ℕ
size_of priority = uint_size
size_of limit = uint_size
size_of _ = boolean_size

-- After `set_at` with whatever outcome, reading any attribute gives the value handed over if
-- `set_at` succeeded on that attribute, and what it gave before if `set_at` failed or was on
-- another one.
pub get-set_queue :
    (a : QueueAttributes) (num other : Num) (v : Attribute) (size size' : ℕ)
    → let (status, a') = set_at a num v size in
      get a' other size' ≡ (
        if is_success status && (number num == number other)
        then get_value (size_of num) (given (size_of num) v size) size'
        else get a other size')
unfolding set_at get set_value
get-set_queue a global global v size size' = ground arith
get-set_queue a priority priority v size size' = ground arith
get-set_queue a limit limit v size size' = ground arith
get-set_queue a ordered ordered v size size' = ground arith
get-set_queue a retain retain v size size' = ground arith
get-set_queue a domain_shared domain_shared v size size' = ground arith
get-set_queue a _ _ v size size' = ground arith
