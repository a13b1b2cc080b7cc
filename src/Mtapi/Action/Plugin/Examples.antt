-- ===== src/Mtapi/Action/Plugin/Examples.antt =====
-- An action of a plugin is created in the job of a small node.
use embb.Common.{◌≡◌, ◌<◌, ◌⊎◌, arith, refl, true, false, some, ◌==◌, get_or}
use embb.Mtapi.Status.{success, err_parameter}
use embb.Mtapi.Pool
use embb.Mtapi.IdPool
use embb.Mtapi.Job
use embb.Mtapi.Job.{no_job}
use embb.Mtapi.Attributes.Action.{ActionAttributes}
use embb.Mtapi.Action.{action_at, no_action}
use embb.Mtapi.Action.Plugin.{PluginRequest, plugin_create}
use embb.Mtapi.Action.Plugin.Laws.{plugin_create-action}
use embb.Mtapi.Samples.{sample_node, fresh_pool-IsValid}

abbrev both_cores : ActionAttributes
both_cores = record { global = 1; affinity = 3; domain_shared = 1 }

abbrev request : PluginRequest
request = record {
  job_id = 1;
  task_start_function = 4096;
  task_cancel_function = 8192;
  action_finalize_function = 12288;
  plugin_data = 0;
  node_local_data = 0;
  node_local_data_size = 0;
  attributes = some both_cores;
}

ready : (0 < sample_node.action_pool.id_pool.ids_available) × (Job.is_id_valid 1 1 ≡ true)
unfolding Pool.initialize IdPool.initialize Job.is_id_valid
ready = (omega arith, refl)

plugin_create-action_example :
    let (status, action, node') = plugin_create sample_node request in
    let new = action_at node' action.id in
    let job = get_or sample_node.job_list 1 no_job in
    (((3 == 0) ≡ false)
      × (status ≡ success)
      × (Pool.is_handle_valid node'.action_pool action ≡ true)
      × (new.enabled ≡ true)
      × (new.is_plugin_action ≡ true)
      × (new.job_id ≡ 1)
      × (new.plugin_task_start_function ≡ 4096)
      × (new.plugin_task_cancel_function ≡ 8192)
      × (new.num_tasks ≡ 0)
      × (get_or node'.job_list 1 no_job ≡ (Job.add_action job 1 1 action).1))
    ⊎ (((3 == 0) ≡ true)
        × (status ≡ err_parameter)
        × (node'.job_list ≡ sample_node.job_list)
        × (node'.action_pool.id_pool.ids_available ≡ sample_node.action_pool.id_pool.ids_available))
plugin_create-action_example =
    plugin_create-action sample_node request both_cores refl (fresh_pool-IsValid no_action) refl
      ready.0 ready.1 refl
