-- ===== src/Mtapi/Group/Examples.antt =====
-- A group is created and deleted on a small node.
use embb.Common.{
  ◌+◌, ◌<◌, ◌≡◌, ◌⊎◌, refl, true, false, ◌&&◌, none, [], ◌∷◌, arith, if◌then◌else◌, length,
}
use embb.Mtapi.Status.{success, err_group_invalid, err_group_limit, err_node_notinit}
use embb.Mtapi.IdPool
use embb.Mtapi.Pool
use embb.Mtapi.Pool.{Handle}
use embb.Mtapi.Attributes.{Attribute}
use embb.Mtapi.Node.{Node}
use embb.Mtapi.Objects.{initialize_group_with_node}
use embb.Mtapi.Attributes.Group as GroupAttr
use embb.Mtapi.Group.{no_group, group_at, create, create_with, delete, set_attribute, get_attribute}
use embb.Mtapi.Group.Life.{create-group, delete-delete, delete-invalid}
use embb.Mtapi.Samples.{sample_node, fresh_pool-IsValid}

create-group_test :
    let (status, group, node') = create (none ∷ none ∷ []) sample_node 7 none in
    ((sample_node.group_pool.id_pool.ids_available ≡ 0)
      × (status ≡ err_group_limit)
      × (node' ≡ sample_node))
    ⊎ ((0 < sample_node.group_pool.id_pool.ids_available)
        × (status ≡ success)
        × (Pool.is_handle_valid node'.group_pool group ≡ true)
        × ((group_at node' group.id).group_id ≡ 7)
        × ((group_at node' group.id).num_tasks ≡ 0)
        × ((group_at node' group.id).deleted ≡ false))
create-group_test = create-group (none ∷ none ∷ []) 7 none refl (fresh_pool-IsValid no_group)

abbrev grouped : Node
grouped = (create (none ∷ none ∷ []) sample_node 7 none).2

abbrev first : Handle
first = record { tag = 0; id = 1 }

created :
    (grouped.is_initialized ≡ true)
    × (Pool.is_handle_valid grouped.group_pool first ≡ true)
    × ((group_at grouped 1).deleted ≡ false)
unfolding create create_with Pool.allocate Pool.initialize Pool.clear_handles Pool.modify
    Pool.is_handle_valid Pool.tag_at Pool.get_object Pool.object_at Pool.handle_of IdPool.allocate
    IdPool.initialize IdPool.fill initialize_group_with_node GroupAttr.init
created = (refl, refl, refl)

created_slots : length grouped.group_pool.storage ≡ grouped.group_pool.id_pool.capacity + 1
unfolding create create_with Pool.allocate Pool.initialize Pool.clear_handles Pool.modify
    IdPool.allocate IdPool.initialize IdPool.fill GroupAttr.init
created_slots = refl

delete-delete_example :
    let (status, node') = delete grouped first in
    (status ≡ success)
    × (Pool.is_handle_valid node'.group_pool first ≡ false)
    × (delete node' first ≡ (err_group_invalid, node'))
delete-delete_example =
    delete-delete grouped first created.0 created_slots (omega arith) created.1 created.2

abbrev bytes : Attribute
bytes = record { pointer = 4096; content = λ k. 0 }

fresh_invalid :
    sample_node.is_initialized
      && Pool.is_handle_valid sample_node.group_pool (record { tag = 0; id = 3 })
    ≡ false
unfolding Pool.is_handle_valid Pool.tag_at Pool.initialize Pool.clear_handles IdPool.initialize
fresh_invalid = refl

delete-invalid_test :
    let group : Handle = record { tag = 0; id = 3 } in
    let expected = if sample_node.is_initialized then err_group_invalid else err_node_notinit in
    (delete sample_node group ≡ (expected, sample_node))
    × (set_attribute sample_node group bytes 4 ≡ expected)
    × (get_attribute sample_node group bytes ≡ expected)
delete-invalid_test = delete-invalid sample_node (record { tag = 0; id = 3 }) bytes 4 fresh_invalid
