-- ===== src/Mtapi/Group/Life.antt =====
-- The life of a group (mtapi_c/src/embb_mtapi_group_t.c).
use embb.Common.{
  ℕ, ◌+◌, ◌<◌, ◌≡◌, ◌⊎◌, refl, true, false, ◌&&◌, Option, none, some, List, arith, if◌then◌else◌,
  length,
}
use embb.Mtapi.Status.{success, err_group_invalid, err_group_limit, err_node_notinit}
use embb.Mtapi.IdPool
use embb.Mtapi.IdPool.{uint_mod}
use embb.Mtapi.Pool
use embb.Mtapi.Pool.{Handle}
use embb.Mtapi.Pool.Valid
use embb.Mtapi.Pool.Modify.{
  is_handle_valid-modify, handle_of-modify, get_object-modify, length-modify,
  is_handle_valid-deallocate,
}
use embb.Mtapi.Attributes.{Attribute}
use embb.Mtapi.Attributes.Group as GroupAttr
use embb.Mtapi.Attributes.Group.{GroupAttributes}
use embb.Mtapi.Objects.{Group, finalize_group, initialize_group_with_node}
use embb.Mtapi.Node.{Node}
use embb.Mtapi.Group.{
  group_at, no_group, create, create_with, choose_attributes, delete, set_attribute, get_attribute,
}

-- On an initialised node whose pool has an entry for each id and entry 0, `delete` on the live
-- group of a valid handle, of a tag below 2^32, succeeds and makes the handle invalid, and a
-- second `delete` fails and changes nothing.
pub delete-delete :
    (node : Node) (group : Handle)
    → node.is_initialized ≡ true
    → length node.group_pool.storage ≡ node.group_pool.id_pool.capacity + 1
    → group.tag < uint_mod
    → Pool.is_handle_valid node.group_pool group ≡ true
    → (group_at node group.id).deleted ≡ false
    → let (status, node') = delete node group in
      (status ≡ success)
      × (Pool.is_handle_valid node'.group_pool group ≡ false)
      × (delete node' group ≡ (err_group_invalid, node'))
unfolding delete
delete-delete node group init slots small valid live =
    let finalize = finalize_group node.attributes.queue_limit in
    let kept = is_handle_valid-modify node.group_pool group.id finalize group in
    let shape = length-modify node.group_pool group.id finalize in
    let gone =
      is_handle_valid-deallocate finalize (Pool.modify node.group_pool group.id finalize) group
        (ground arith) small (ground arith) in
    ground arith

choose_attributes-success :
    (attributes : Option GroupAttributes) (old : GroupAttributes)
    → (choose_attributes attributes old).0 ≡ success
unfolding GroupAttr.init
choose_attributes-success none old = refl
choose_attributes-success (some given) old = refl

-- On an initialised node with a valid pool of groups, `create` fails and changes nothing where no
-- id is left, and else succeeds with a valid handle of a group that has the given id, no task and
-- is not deleted.
pub create-group :
    {node : Node} (memory : List (Option ℕ)) (group_id : ℕ) (attributes : Option GroupAttributes)
    → node.is_initialized ≡ true
    → Valid.IsValid node.group_pool
    → let (status, group, node') = create memory node group_id attributes in
      ((node.group_pool.id_pool.ids_available ≡ 0) × (status ≡ err_group_limit) × (node' ≡ node))
      ⊎ ((0 < node.group_pool.id_pool.ids_available)
          × (status ≡ success)
          × (Pool.is_handle_valid node'.group_pool group ≡ true)
          × ((group_at node' group.id).group_id ≡ group_id)
          × ((group_at node' group.id).num_tasks ≡ 0)
          × ((group_at node' group.id).deleted ≡ false))
unfolding create create_with initialize_group_with_node
create-group {node} memory group_id attributes init v =
    let pool = (Pool.allocate true node.group_pool).1 in
    let id = (IdPool.allocate true node.group_pool.id_pool).0 in
    let ready = Valid.allocate_ready v in
    let chosen = choose_attributes attributes (Pool.get_object pool id no_group).attributes in
    let finish = λ (g : Group).
      record (initialize_group_with_node memory node.attributes.queue_limit g) {
        group_id = group_id;
        attributes = chosen.1;
      } in
    let fine = choose_attributes-success attributes (Pool.get_object pool id no_group).attributes in
    let kept = is_handle_valid-modify pool id finish (Pool.handle_of pool id) in
    let same = handle_of-modify pool id id finish in
    let made = get_object-modify pool id finish no_group in ground arith

-- On a node that is not initialised every function fails with MTAPI_ERR_NODE_NOTINIT, and on a
-- handle that is not valid with MTAPI_ERR_GROUP_INVALID; the node then stays as it is.
pub delete-invalid :
    (node : Node) (group : Handle) (attribute : Attribute) (size : ℕ)
    → node.is_initialized && Pool.is_handle_valid node.group_pool group ≡ false
    → let expected = if node.is_initialized then err_group_invalid else err_node_notinit in
      (delete node group ≡ (expected, node))
      × (set_attribute node group attribute size ≡ expected)
      × (get_attribute node group attribute ≡ expected)
unfolding delete set_attribute get_attribute
delete-invalid node group attribute size h = ground arith
