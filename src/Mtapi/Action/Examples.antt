-- ===== src/Mtapi/Action/Examples.antt =====
-- An action is created in the job of a small node, and changed.
use embb.Common.{◌+◌, ◌≡◌, refl, true, none, some, ◌==◌, if◌then◌else◌, length}
use embb.Mtapi.Status.{success, err_parameter}
use embb.Mtapi.IdPool
use embb.Mtapi.Pool
use embb.Mtapi.Pool.{Handle}
use embb.Mtapi.Job
use embb.Mtapi.Attributes.{Attribute}
use embb.Mtapi.Attributes.Action as ActionAttr
use embb.Mtapi.Attributes.Action.{ActionAttributes, Num}
use embb.Mtapi.Node.{Node}
use embb.Mtapi.Action.{
  Request, action_at, create, create_with, set_attribute, get_attribute, enable,
}
use embb.Mtapi.Action.Life.{get_attribute-set_attribute}
use embb.Mtapi.Samples.{sample_node}

abbrev both_cores : ActionAttributes
both_cores = record { global = 1; affinity = 3; domain_shared = 1 }

abbrev request : Request
request = record {
  job_id = 1;
  action_function = 4096;
  node_local_data = 0;
  node_local_data_size = 0;
  attributes = some both_cores;
}

abbrev acting : Node
acting = (create sample_node request).2

abbrev first : Handle
first = record { tag = 0; id = 1 }

created :
    (acting.is_initialized ≡ true)
    × (length acting.action_pool.storage ≡ acting.action_pool.id_pool.capacity + 1)
    × (Pool.is_handle_valid acting.action_pool first ≡ true)
unfolding create create_with Pool.allocate Pool.initialize Pool.clear_handles Pool.modify
    Pool.is_handle_valid Pool.tag_at Pool.get_object Pool.object_at Pool.handle_of IdPool.allocate
    IdPool.initialize IdPool.fill Job.is_id_valid
created = (refl, refl, refl)

-- The number 5 at address 4096.
abbrev five : Attribute
five = record { pointer = 4096; content = λ k. 5 }

get_attribute-set_attribute_test :
    let (status, node') = set_attribute acting first Num.affinity five 8 in
    let (status', a) = ActionAttr.set_at (action_at acting 1).attributes Num.affinity five 8 in
    let (enabled, node'') = enable node' first in
    (status ≡ status')
    × (get_attribute node' first Num.affinity five 8
        ≡ (if five.pointer == 0 then (err_parameter, none) else ActionAttr.get a Num.affinity 8))
    × (enabled ≡ success)
    × ((action_at node'' 1).enabled ≡ true)
    × ((action_at node'' 1).attributes ≡ a)
    × (Pool.is_handle_valid node''.action_pool first
        ≡ Pool.is_handle_valid acting.action_pool first)
get_attribute-set_attribute_test =
    get_attribute-set_attribute acting first first Num.affinity Num.affinity five five 8 8 created.0
      created.1 created.2
