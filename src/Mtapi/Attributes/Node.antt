-- ===== src/Mtapi/Attributes/Node.antt =====
-- mtapi_c/src/mtapi_node_attributes_t.c, and the switch of `mtapi_node_get_attribute`
-- (mtapi_c/src/embb_mtapi_node_t.c).
use embb.Common.{ℕ, ◌≡◌, Option, none, some, ◌==◌, if◌then◌else◌, arith}
use embb.Base.Bitset
use embb.Mtapi.Status.{
  Status, success, err_parameter, err_attr_num, err_attr_size, err_attr_readonly, is_success,
}
use embb.Mtapi.Attributes.{
  Attribute, store, given, set_value, get_value, no_value, uint_size, affinity_size,
}

pub record NodeAttributes : Type 0 where
  pub core_affinity : ℕ
  pub num_cores : ℕ
  pub type : ℕ
  pub max_tasks : ℕ
  pub max_actions : ℕ
  pub max_groups : ℕ
  pub max_queues : ℕ
  pub queue_limit : ℕ
  pub max_jobs : ℕ
  pub max_actions_per_job : ℕ
  pub max_priorities : ℕ

-- enum mtapi_node_attributes_enum; `unknown` is any other number.
pub data Num : Type 0 where
  core_affinity numcores type max_tasks max_actions max_groups max_queues queue_limit : Num
  max_jobs max_actions_per_job max_priorities unknown : Num

abbrev pub number : Num → ℕ
number core_affinity = 0
number numcores = 1
number type = 2
number max_tasks = 3
number max_actions = 4
number max_groups = 5
number max_queues = 6
number queue_limit = 7
number max_jobs = 8
number max_actions_per_job = 9
number max_priorities = 10
number unknown = 11

-- `cores` is what embb_core_count_available() returns.
unfoldable pub init : ℕ → Option NodeAttributes → Status × Option NodeAttributes
init cores none = (err_parameter, none)
init cores (some _) =
    let affinity = Bitset.set_n cores in
    (
      success,
      some (record {
        core_affinity = affinity;
        num_cores = Bitset.count affinity;
        type = 1;
        max_tasks = 1024;
        max_actions = 1024;
        max_groups = 128;
        max_queues = 16;
        queue_limit = 1024;
        max_jobs = 256;
        max_actions_per_job = 4;
        max_priorities = 4;
      }),
    )

set_switch : NodeAttributes → Num → Attribute → ℕ → Status × NodeAttributes
set_switch a core_affinity v size =
    if affinity_size == size
    then (
      success,
      record a { core_affinity = v.content size; num_cores = Bitset.count (v.content size) },
    )
    else (err_attr_size, a)
set_switch a numcores v size = (err_attr_readonly, a)
set_switch a type v size = store (set_value uint_size a.type v size) (λ x. record a { type = x })
set_switch a max_tasks v size =
    store (set_value uint_size a.max_tasks v size) (λ x. record a { max_tasks = x })
set_switch a max_actions v size =
    store (set_value uint_size a.max_actions v size) (λ x. record a { max_actions = x })
set_switch a max_groups v size =
    store (set_value uint_size a.max_groups v size) (λ x. record a { max_groups = x })
set_switch a max_queues v size =
    store (set_value uint_size a.max_queues v size) (λ x. record a { max_queues = x })
set_switch a queue_limit v size =
    store (set_value uint_size a.queue_limit v size) (λ x. record a { queue_limit = x })
set_switch a max_jobs v size =
    store (set_value uint_size a.max_jobs v size) (λ x. record a { max_jobs = x })
set_switch a max_actions_per_job v size =
    store (set_value uint_size a.max_actions_per_job v size)
      (λ x. record a { max_actions_per_job = x })
set_switch a max_priorities v size =
    store (set_value uint_size a.max_priorities v size) (λ x. record a { max_priorities = x })
set_switch a unknown v size = (err_attr_num, a)

-- `mtapi_nodeattr_set` on attributes whose address is not null.
unfoldable pub set_at : NodeAttributes → Num → Attribute → ℕ → Status × NodeAttributes
unfolding set_switch
set_at a num v size = if no_value v size then (err_parameter, a) else set_switch a num v size

unfoldable pub set : Option NodeAttributes → Num → Attribute → ℕ → Status × Option NodeAttributes
set none num v size = (err_parameter, none)
set (some a) num v size = let (status, a') = set_at a num v size in (status, some a')

unfoldable pub get : NodeAttributes → Num → ℕ → Status × Option ℕ
get a core_affinity size = get_value affinity_size a.core_affinity size
get a numcores size = get_value uint_size a.num_cores size
get a type size = get_value uint_size a.type size
get a max_tasks size = get_value uint_size a.max_tasks size
get a max_actions size = get_value uint_size a.max_actions size
get a max_groups size = get_value uint_size a.max_groups size
get a max_queues size = get_value uint_size a.max_queues size
get a queue_limit size = get_value uint_size a.queue_limit size
get a max_jobs size = get_value uint_size a.max_jobs size
get a max_actions_per_job size = get_value uint_size a.max_actions_per_job size
get a max_priorities size = get_value uint_size a.max_priorities size
get a unknown size = (err_attr_num, none)

-- What reading `other` gives after `num` has been set to `v`: setting the core affinity sets the
-- number of cores too.
abbrev pub reads : NodeAttributes → Num → Attribute → ℕ → Num → ℕ → Status × Option ℕ
reads a core_affinity v size core_affinity size' = get_value affinity_size (v.content size) size'
reads a core_affinity v size numcores size' =
    get_value uint_size (Bitset.count (v.content size)) size'
reads a core_affinity v size other size' = get a other size'
reads a num v size other size' =
    if number num == number other
    then get_value uint_size (given uint_size v size) size'
    else get a other size'

-- After `set_at` on a node's attributes, reading any attribute gives what it gave before if `set_at`
-- failed. If it succeeded, reading gives the value handed over for the attribute that was set, the
-- number of elements of the new core affinity for the number of cores if the core affinity was
-- set, and otherwise what it gave before.
pub get-set_node :
    (a : NodeAttributes) (num other : Num) (v : Attribute) (size size' : ℕ)
    → let (status, a') = set_at a num v size in
      get a' other size'
      ≡ (if is_success status then reads a num v size other size' else get a other size')
unfolding set_at get set_value
get-set_node a core_affinity core_affinity v size size' = ground arith
get-set_node a core_affinity numcores v size size' = ground arith
get-set_node a core_affinity _ v size size' = ground arith
get-set_node a numcores core_affinity v size size' = ground arith
get-set_node a type type v size size' = ground arith
get-set_node a max_tasks max_tasks v size size' = ground arith
get-set_node a max_actions max_actions v size size' = ground arith
get-set_node a max_groups max_groups v size size' = ground arith
get-set_node a max_queues max_queues v size size' = ground arith
get-set_node a queue_limit queue_limit v size size' = ground arith
get-set_node a max_jobs max_jobs v size size' = ground arith
get-set_node a max_actions_per_job max_actions_per_job v size size' = ground arith
get-set_node a max_priorities max_priorities v size size' = ground arith
get-set_node a _ _ v size size' = ground arith
