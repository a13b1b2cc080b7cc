-- ===== src/Mtapi/Action/Plugin.antt =====
-- mtapi_c/src/embb_mtapi_action_plugin_t.c: the creation of an action that a plugin executes.
pub mod Laws
mod Examples
use embb.Common.{ℕ, Option, none, some, true, set, if◌then◌else◌}
use embb.Mtapi.Status.{Status, err_action_limit, err_job_invalid, err_node_notinit, is_success}
use embb.Mtapi.Pool
use embb.Mtapi.Pool.{Handle}
use embb.Mtapi.Job
use embb.Mtapi.Job.{no_handle}
use embb.Mtapi.Attributes.Action.{ActionAttributes}
use embb.Mtapi.Objects.{Action, finalize_action}
use embb.Mtapi.Node.{Node}
use embb.Mtapi.Action.{action_at, choose_attributes}

-- What a call of mtapi_ext_plugin_action_create hands over.
pub record PluginRequest : Type 0 where
  pub job_id : ℕ
  pub task_start_function : ℕ
  pub task_cancel_function : ℕ
  pub action_finalize_function : ℕ
  pub plugin_data : ℕ
  pub node_local_data : ℕ
  pub node_local_data_size : ℕ
  pub attributes : Option ActionAttributes

-- The new action, before it is checked; its action_function stays.
abbrev pub fill_in_plugin : Node → PluginRequest → ActionAttributes → Action → Action
fill_in_plugin node r attributes a = record a {
  domain_id = node.domain_id;
  node_id = node.node_id;
  job_id = r.job_id;
  node_local_data = r.node_local_data;
  node_local_data_size = r.node_local_data_size;
  enabled = true;
  is_plugin_action = true;
  num_tasks = 0;
  plugin_task_start_function = r.task_start_function;
  plugin_task_cancel_function = r.task_cancel_function;
  plugin_action_finalize_function = r.action_finalize_function;
  plugin_data = r.plugin_data;
  attributes = attributes;
}

-- The creation once the pool has given an entry, or none. The result of embb_mtapi_job_add_action is
-- not read.
pub plugin_create_with : Node → PluginRequest → Option ℕ → Status × Handle × Node
plugin_create_with node r none = (err_action_limit, no_handle, node)
plugin_create_with node r (some action) =
    let choice =
      choose_attributes node.attributes.num_cores r.attributes (action_at node action).attributes in
    let pool = Pool.modify node.action_pool action (fill_in_plugin node r choice.1) in
    let handle = Pool.handle_of pool action in
    let job =
      Job.add_action (Job.get_storage_for_id node.job_list r.job_id) node.domain_id node.node_id
        handle in
    if is_success choice.0
    then (
      choice.0,
      handle,
      record node { action_pool = pool; job_list = set node.job_list r.job_id job.1 },
    )
    else (
      choice.0,
      no_handle,
      record node { action_pool = Pool.deallocate finalize_action true pool action },
    )

pub plugin_create : Node → PluginRequest → Status × Handle × Node
plugin_create node r =
    let (action, pool) = Pool.allocate true node.action_pool in
    if node.is_initialized
    then (if Job.is_id_valid node.attributes.max_jobs r.job_id
        then plugin_create_with (record node { action_pool = pool }) r action
        else (err_job_invalid, no_handle, node))
    else (err_node_notinit, no_handle, node)
