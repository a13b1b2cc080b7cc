-- ===== src/Mtapi/Group.antt =====
-- mtapi_c/src/embb_mtapi_group_t.c: the interface functions for groups that do not wait.
pub mod Life
mod Examples
use embb.Common.{ℕ, List, [], Option, none, some, true, false, update, ◌==◌, if◌then◌else◌}
use embb.Mtapi.Status.{
  Status, success, err_parameter, err_attr_num, err_group_invalid, err_group_limit,
  err_node_notinit, is_success,
}
use embb.Mtapi.Pool
use embb.Mtapi.Pool.{Pool, Handle}
use embb.Mtapi.Job.{no_handle}
use embb.Mtapi.Attributes.{Attribute}
use embb.Mtapi.Attributes.Group as GroupAttr
use embb.Mtapi.Attributes.Group.{GroupAttributes}
use embb.Mtapi.TaskQueue.{TaskQueue}
use embb.Mtapi.Objects.{Group, initialize_group_with_node, finalize_group, attributes_or}
use embb.Mtapi.Node.{Node}

-- What stands behind a group pointer out of bounds.
abbrev pub no_group : Group
no_group = record {
  group_id = 0;
  deleted = false;
  num_tasks = 0;
  attributes = record { some_value = 0 };
  queue = record {
    task_buffer = [];
    tasks_available = 0;
    get_task_position = 0;
    put_task_position = 0;
    limit = 0;
  };
}

-- The group at a pointer.
abbrev pub group_at : Node → ℕ → Group
group_at node group = Pool.get_object node.group_pool group no_group

-- embb_mtapi_group_finalize, and embb_mtapi_group_pool_deallocate, which finalises once more.
abbrev pub discard_group : Node → Pool Group → ℕ → Pool Group
discard_group node pool group =
    let finalize = finalize_group node.attributes.queue_limit in
    Pool.deallocate finalize true (Pool.modify pool group finalize) group

-- The attributes handed over, or the default ones.
abbrev pub choose_attributes : Option GroupAttributes → GroupAttributes → Status × GroupAttributes
choose_attributes (some given) old = (success, given)
choose_attributes none old =
    let result = GroupAttr.init (some old) in (result.0, attributes_or result old)

-- mtapi_group_create once the pool has given an entry, or none.
pub create_with :
    List (Option ℕ) → ℕ → Option GroupAttributes → Node → Option ℕ → Status × Handle × Node
create_with memory group_id attributes node none = (err_group_limit, no_handle, node)
create_with memory group_id attributes node (some group) =
    let choice = choose_attributes attributes (group_at node group).attributes in
    let finish = λ (g : Group).
      record (initialize_group_with_node memory node.attributes.queue_limit g) {
        group_id = group_id;
        attributes = choice.1;
      } in
    let pool = Pool.modify node.group_pool group finish in
    if is_success choice.0
    then (choice.0, Pool.handle_of pool group, record node { group_pool = pool })
    else (choice.0, no_handle, record node { group_pool = discard_group node pool group })

-- `memory` is the block that the allocator gives for the group's queue.
pub create : List (Option ℕ) → Node → ℕ → Option GroupAttributes → Status × Handle × Node
create memory node group_id attributes =
    let (group, pool) = Pool.allocate true node.group_pool in
    if node.is_initialized
    then create_with memory group_id attributes (record node { group_pool = pool }) group
    else (err_node_notinit, no_handle, node)

-- A group has no attribute to set or to get, so the number is not read and the node stays.
pub set_attribute : Node → Handle → Attribute → ℕ → Status
set_attribute node group attribute size =
    if node.is_initialized
    then (if Pool.is_handle_valid node.group_pool group
        then GroupAttr.set (some (group_at node group.id).attributes) attribute size
        else err_group_invalid)
    else err_node_notinit

pub get_attribute : Node → Handle → Attribute → Status
get_attribute node group attribute =
    if node.is_initialized
    then (if Pool.is_handle_valid node.group_pool group
        then (if attribute.pointer == 0 then err_parameter else err_attr_num)
        else err_group_invalid)
    else err_node_notinit

pub delete : Node → Handle → Status × Node
delete node group =
    if node.is_initialized
    then (if Pool.is_handle_valid node.group_pool group
        then (if (group_at node group.id).deleted then (err_group_invalid, node) else (
          success,
          record node { group_pool = discard_group node node.group_pool group.id },
        ))
        else (err_group_invalid, node))
    else (err_node_notinit, node)
