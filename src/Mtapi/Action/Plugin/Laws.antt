-- ===== src/Mtapi/Action/Plugin/Laws.antt =====
-- What the creation of a plugin's action does (mtapi_c/src/embb_mtapi_action_plugin_t.c).
use embb.Common.{
  ◌+◌, ◌≡◌, ◌<◌, ◌⊎◌, ap, true, false, some, arith, ◌==◌, length, get_or, get_or-set_self,
}
use embb.Mtapi.Status.{success, err_parameter}
use embb.Mtapi.IdPool
use embb.Mtapi.Pool
use embb.Mtapi.Pool.Valid
use embb.Mtapi.Pool.Modify.{is_handle_valid-modify, handle_of-modify, get_object-modify}
use embb.Mtapi.Job
use embb.Mtapi.Job.{no_job}
use embb.Mtapi.Attributes.Action.{ActionAttributes}
use embb.Mtapi.Objects.{finalize_action}
use embb.Mtapi.Node.{Node}
use embb.Mtapi.Action.{action_at, no_action, choose_attributes}
use embb.Mtapi.Action.Plugin.{PluginRequest, fill_in_plugin, plugin_create, plugin_create_with}

-- An entry that is allocated, changed and given back at once leaves as many ids available.
available-back :
    {A : Type 0} {p : Pool.Pool A}
    → Valid.IsValid p
    → 0 < p.id_pool.ids_available
    → (change finalize_object : A → A)
    → let id = (IdPool.allocate true p.id_pool).0 in
      let changed = Pool.modify (Pool.allocate true p).1 id change in
      (Pool.deallocate finalize_object true changed id).id_pool.ids_available
      ≡ p.id_pool.ids_available
unfolding Pool.deallocate Pool.allocate Pool.modify IdPool.allocate IdPool.deallocate
available-back {p = p} v some_left change fin = ground (arith, v.ids.small, v.ids.within)

-- On an initialised node with a valid pool of actions that has an id left, a list of max_jobs + 1
-- jobs and a valid job, with attributes handed over: if their affinity is not empty, the creation of
-- a plugin's action succeeds with a valid handle, of an enabled plugin's action of that job with the
-- functions handed over and no tasks, and adds it to the job as embb_mtapi_job_add_action does; if
-- it is empty, the creation reports MTAPI_ERR_PARAMETER, the jobs stay, and as many ids are
-- available as before.
pub plugin_create-action :
    (node : Node) (r : PluginRequest) (given : ActionAttributes)
    → node.is_initialized ≡ true
    → Valid.IsValid node.action_pool
    → length node.job_list ≡ node.attributes.max_jobs + 1
    → 0 < node.action_pool.id_pool.ids_available
    → Job.is_id_valid node.attributes.max_jobs r.job_id ≡ true
    → r.attributes ≡ some given
    → let (status, action, node') = plugin_create node r in
      let new = action_at node' action.id in
      let job = get_or node.job_list r.job_id no_job in
      (((given.affinity == 0) ≡ false)
        × (status ≡ success)
        × (Pool.is_handle_valid node'.action_pool action ≡ true)
        × (new.enabled ≡ true)
        × (new.is_plugin_action ≡ true)
        × (new.job_id ≡ r.job_id)
        × (new.plugin_task_start_function ≡ r.task_start_function)
        × (new.plugin_task_cancel_function ≡ r.task_cancel_function)
        × (new.num_tasks ≡ 0)
        × (get_or node'.job_list r.job_id no_job
            ≡ (Job.add_action job node.domain_id node.node_id action).1))
      ⊎ (((given.affinity == 0) ≡ true)
          × (status ≡ err_parameter)
          × (node'.job_list ≡ node.job_list)
          × (node'.action_pool.id_pool.ids_available ≡ node.action_pool.id_pool.ids_available))
unfolding plugin_create plugin_create_with Job.get_storage_for_id Job.is_id_valid
plugin_create-action node r given init v jobs left valid e =
    let pool = (Pool.allocate true node.action_pool).1 in
    let id = (IdPool.allocate true node.action_pool.id_pool).0 in
    let ready = Valid.allocate_ready v in
    let finish = fill_in_plugin node r given in
    let kept = is_handle_valid-modify pool id finish (Pool.handle_of pool id) in
    let same = handle_of-modify pool id id finish in
    let made = get_object-modify pool id finish no_action in
    let chosen =
      ap
        (λ a.
          choose_attributes node.attributes.num_cores a
            (Pool.get_object pool id no_action).attributes)
        e in
    let added =
      Job.add_action (get_or node.job_list r.job_id no_job) node.domain_id node.node_id
        (Pool.handle_of (Pool.modify pool id finish) id) in
    ground (
      arith,
      get_or-set_self node.job_list r.job_id added.1 no_job,
      available-back v left finish finalize_action,
    )
