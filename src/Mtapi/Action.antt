-- ===== src/Mtapi/Action.antt =====
-- mtapi_c/src/embb_mtapi_action_t.c: the interface functions for actions that do not wait.
pub mod Life
pub mod Plugin
mod Examples
use embb.Common.{ℕ, Option, none, some, true, false, set, ◌==◌, if◌then◌else◌}
use embb.Mtapi.Status.{
  Status, success, err_parameter, err_action_invalid, err_action_limit, err_job_invalid,
  err_node_notinit, is_success,
}
use embb.Mtapi.Pool
use embb.Mtapi.Pool.{Pool, Handle}
use embb.Mtapi.Job
use embb.Mtapi.Job.{Job, no_handle}
use embb.Mtapi.Attributes.{Attribute}
use embb.Mtapi.Attributes.Action as ActionAttr
use embb.Mtapi.Attributes.Action.{ActionAttributes, Num}
use embb.Mtapi.Objects.{Action, finalize_action, attributes_or}
use embb.Mtapi.Node.{Node}

-- What stands behind an action pointer out of bounds.
abbrev pub no_action : Action
no_action = record {
  domain_id = 0;
  node_id = 0;
  job_id = 0;
  action_function = 0;
  node_local_data = 0;
  node_local_data_size = 0;
  attributes = record { global = 1; affinity = 0; domain_shared = 1 };
  enabled = false;
  is_plugin_action = false;
  plugin_data = 0;
  plugin_task_start_function = 0;
  plugin_task_cancel_function = 0;
  plugin_action_finalize_function = 0;
  num_tasks = 0;
}

-- The action at a pointer.
abbrev pub action_at : Node → ℕ → Action
action_at node action = Pool.get_object node.action_pool action no_action

-- The attributes handed over, or the default ones; an empty affinity is an error.
abbrev pub choose_attributes :
    ℕ → Option ActionAttributes → ActionAttributes → Status × ActionAttributes
choose_attributes num_cores (some given) old =
    (if given.affinity == 0 then err_parameter else success, given)
choose_attributes num_cores none old =
    let result = ActionAttr.init (some num_cores) (some old) in
    let chosen = attributes_or result old in
    (if chosen.affinity == 0 then err_parameter else result.0, chosen)

-- What a call of mtapi_action_create hands over.
pub record Request : Type 0 where
  pub job_id : ℕ
  pub action_function : ℕ
  pub node_local_data : ℕ
  pub node_local_data_size : ℕ
  pub attributes : Option ActionAttributes

-- The new action, before it is checked.
abbrev pub fill_in : Node → Request → ActionAttributes → Action → Action
fill_in node r attributes a = record a {
  domain_id = node.domain_id;
  node_id = node.node_id;
  job_id = r.job_id;
  node_local_data = r.node_local_data;
  node_local_data_size = r.node_local_data_size;
  enabled = true;
  is_plugin_action = false;
  num_tasks = 0;
  action_function = r.action_function;
  attributes = attributes;
}

-- mtapi_action_create once the pool has given an entry, or none. The result of
-- embb_mtapi_job_add_action is not read.
pub create_with : Node → Request → Option ℕ → Status × Handle × Node
create_with node r none = (err_action_limit, no_handle, node)
create_with node r (some action) =
    let choice =
      choose_attributes node.attributes.num_cores r.attributes (action_at node action).attributes in
    let pool = Pool.modify node.action_pool action (fill_in node r choice.1) in
    let handle = Pool.handle_of pool action in
    let job =
      Job.add_action (Job.get_storage_for_id node.job_list r.job_id) node.domain_id node.node_id
        handle in
    if is_success choice.0
    then (
      choice.0,
      handle,
      record node { action_pool = pool; job_list = set node.job_list r.job_id job.1 },
    )
    else (
      choice.0,
      no_handle,
      record node { action_pool = Pool.deallocate finalize_action true pool action },
    )

pub create : Node → Request → Status × Handle × Node
create node r =
    let (action, pool) = Pool.allocate true node.action_pool in
    if node.is_initialized
    then (if Job.is_id_valid node.attributes.max_jobs r.job_id
        then create_with (record node { action_pool = pool }) r action
        else (err_job_invalid, no_handle, node))
    else (err_node_notinit, no_handle, node)

pub set_attribute : Node → Handle → Num → Attribute → ℕ → Status × Node
set_attribute node action num attribute size =
    let (status, attributes) =
      ActionAttr.set_at (action_at node action.id).attributes num attribute size in
    if node.is_initialized
    then (if Pool.is_handle_valid node.action_pool action
        then (
          status,
          record node {
            action_pool =
                Pool.modify node.action_pool action.id (λ a. record a { attributes = attributes });
          },
        )
        else (err_action_invalid, node))
    else (err_node_notinit, node)

pub get_attribute : Node → Handle → Num → Attribute → ℕ → Status × Option ℕ
get_attribute node action num attribute size =
    if node.is_initialized
    then (if Pool.is_handle_valid node.action_pool action
        then (if attribute.pointer == 0
            then (err_parameter, none)
            else ActionAttr.get (action_at node action.id).attributes num size)
        else (err_action_invalid, none))
    else (err_node_notinit, none)

pub enable : Node → Handle → Status × Node
enable node action =
    if node.is_initialized
    then (if Pool.is_handle_valid node.action_pool action
        then (
          success,
          record node {
            action_pool = Pool.modify node.action_pool action.id (λ a. record a { enabled = true });
          },
        )
        else (err_action_invalid, node))
    else (err_node_notinit, node)
