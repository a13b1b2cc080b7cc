-- ===== src/Opencl/Setup.antt =====
-- The plugin and its actions are set up and torn down (mtapi_opencl_c/src/embb_mtapi_opencl.c and
-- embb_mtapi_opencl_runtimelinker.c).
use embb.Common.{ℕ, List, [], ◌∷◌, none, Bool, false, ◌==◌, if◌then◌else◌, ltb}
use embb.Mtapi.Status.{Status, success, err_unknown}
use embb.Mtapi.Pool
use embb.Mtapi.Pool.{Handle}
use embb.Mtapi.Job.{no_handle}
use embb.Mtapi.Action.{action_at}
use embb.Mtapi.Action.Plugin.{PluginRequest, plugin_create}
use embb.Opencl.{
  Access, Call, get_platform_ids, get_device_ids, create_context, get_device_info,
  create_command_queue, release_command_queue, release_context, create_program, build_program,
  get_program_build_info, release_program, create_kernel, set_kernel_arg, release_kernel,
  create_buffer, release_mem_object, enqueue_write_buffer, Driver, cl_success, OpenclAction, Opencl,
  to_int, to_size, put,
}

-- embb_mtapi_opencl_link_at_runtime: whether the library opens, and the addresses of the functions
-- in it. The pointers that are set are not kept.
pub link_at_runtime : Bool → List ℕ → ℕ
link_at_runtime opened [] = if opened then 1 else 0
link_at_runtime opened (address ∷ addresses) =
    let rest = link_at_runtime opened addresses in if address == 0 then 0 else rest

-- What is there after a call that is made where there is no error so far: what stood there, the
-- error code and the calls before.
unfoldable pub attempt : Driver → Call → ℕ → ℕ → List Call → ℕ × ℕ × List Call
attempt d c old err calls =
    if err == cl_success then (d.result calls c, d.error calls c, c ∷ calls) else (old, err, calls)

-- mtapi_opencl_plugin_initialize, where the linker returned `linked`.
pub plugin_initialize : Driver → ℕ → Opencl → Status × Opencl
plugin_initialize d linked w =
    let p = w.plugin in
    let (platform, e1, k1) = attempt d get_platform_ids p.platform_id cl_success w.calls in
    let (device, e2, k2) = attempt d (get_device_ids platform) p.device_id e1 k1 in
    let (context, e3, k3) = attempt d (create_context device) p.context e2 k2 in
    let (group, e4, k4) = attempt d (get_device_info device 0x1004 8) p.work_group_size e3 k3 in
    let (items, e5, k5) = attempt d (get_device_info device 0x1005 24) p.work_item_sizes e4 k4 in
    let (queue, e6, k6) = attempt d (create_command_queue context device) p.command_queue e5 k5 in
    if linked == 0 then (err_unknown, w) else (
      if e6 == cl_success then success else err_unknown,
      record w {
        plugin = record {
          platform_id = platform;
          device_id = device;
          context = context;
          command_queue = queue;
          work_group_size = group;
          work_item_sizes = items;
        };
        calls = k6;
      },
    )

-- mtapi_opencl_plugin_finalize; the errors are asserted not to be there.
pub plugin_finalize : Opencl → Status × Opencl
plugin_finalize w = (
  success,
  record w {
    calls =
        release_context w.plugin.context ∷ release_command_queue w.plugin.command_queue ∷ w.calls;
  },
)

-- The calls of opencl_action_finalize.
unfoldable pub release_action : OpenclAction → List Call → List Call
release_action action calls =
    release_program action.program
    ∷ release_kernel action.kernel
    ∷ (if action.node_local_data == 0
        then calls
        else release_mem_object action.node_local_data ∷ calls)

pub action_finalize : Opencl → Handle → Status × Opencl
action_finalize w action =
    let node = w.system.node in
    let address = (action_at node action.id).plugin_data in
    if node.is_initialized
    then (if Pool.is_handle_valid node.action_pool action
        then (success, record w { calls = release_action (w.actions address) w.calls })
        else (err_unknown, w))
    else (err_unknown, w)

-- What a call of mtapi_opencl_action_create hands over, and the length of the source.
pub record ActionRequest : Type 0 where
  pub job_id : ℕ
  pub kernel_source : ℕ
  pub kernel_length : ℕ
  pub kernel_name : ℕ
  pub local_work_size : ℕ
  pub element_size : ℕ
  pub node_local_data : ℕ
  pub node_local_data_size : ℕ

-- What the creation has come to: the action, the error code, the calls, and what is freed on error.
pub record Draft : Type 0 where
  pub action : OpenclAction
  pub err : ℕ
  pub calls : List Call
  pub free_program : Bool
  pub free_kernel : Bool
  pub free_node_local_data : Bool

-- The program and the kernel, in the block that embb_alloc gave.
unfoldable pub draft_kernel : Driver → Opencl → ActionRequest → OpenclAction → Draft
draft_kernel d w r block =
    let creating = create_program w.plugin.context r.kernel_source r.kernel_length in
    let program = d.result w.calls creating in
    let e1 = d.error w.calls creating in
    let k1 = creating ∷ w.calls in
    let c2 =
      if e1 == cl_success
      then build_program program w.plugin.device_id
      else get_program_build_info program w.plugin.device_id in
    let e2 = d.error k1 c2 in
    let (kernel, e3, k3) =
      attempt d (create_kernel program r.kernel_name) block.kernel e2 (c2 ∷ k1) in
    record {
      action = record block {
        program = program;
        kernel = kernel;
        local_work_size = r.local_work_size;
        element_size = r.element_size;
      };
      err = e3;
      calls = k3;
      free_program = e1 == cl_success;
      free_kernel = e3 == cl_success;
      free_node_local_data = false;
    }

-- The buffer for the node-local data, which is created whatever the error code is.
unfoldable pub draft_data : Driver → Opencl → ActionRequest → Draft → Draft
draft_data d w r x =
    let creating = create_buffer w.plugin.context Access.read_only r.node_local_data_size in
    let mem = d.result x.calls creating in
    let e = d.error x.calls creating in
    let size = to_int r.node_local_data_size in
    let writing =
      enqueue_write_buffer w.plugin.command_queue mem (to_size size) r.node_local_data in
    let (written, e', k) = attempt d writing 0 e (creating ∷ x.calls) in
    if ltb 0 r.node_local_data_size
    then record x {
      action = record x.action { node_local_data = mem; node_local_data_size = size };
      err = e';
      calls = k;
      free_node_local_data = e == cl_success;
    }
    else record x { action = record x.action { node_local_data = 0; node_local_data_size = 0 } }

-- The last arguments of the kernel.
unfoldable pub draft_arguments : Driver → Draft → Draft
draft_arguments d x =
    let a = x.action in
    let (set4, e, k) = attempt d (set_kernel_arg a.kernel 4 8 a.node_local_data) 0 x.err x.calls in
    let (set5, e', k') = attempt d (set_kernel_arg a.kernel 5 4 a.node_local_data_size) 0 e k in
    record x { err = e'; calls = k' }

-- What is released on error.
unfoldable pub discard_draft : Draft → List Call
discard_draft x =
    let k1 =
      if x.free_node_local_data
      then release_mem_object x.action.node_local_data ∷ x.calls
      else x.calls in
    let k2 = if x.free_kernel then release_kernel x.action.kernel ∷ k1 else k1 in
    if x.free_program then release_program x.action.program ∷ k2 else k2

-- What the plugin asks of mtapi_ext_plugin_action_create, with the addresses of its functions.
abbrev pub plugin_request : ℕ × ℕ × ℕ → ℕ → ActionRequest → PluginRequest
plugin_request (start, cancel, finalize) address r = record {
  job_id = r.job_id;
  task_start_function = start;
  task_cancel_function = cancel;
  action_finalize_function = finalize;
  plugin_data = address;
  node_local_data = r.node_local_data;
  node_local_data_size = r.node_local_data_size;
  attributes = none;
}

unfoldable pub draft : Driver → Opencl → ActionRequest → OpenclAction → Draft
draft d w r block = draft_arguments d (draft_data d w r (draft_kernel d w r block))

-- mtapi_opencl_action_create, where embb_alloc gave the address.
unfoldable pub action_create :
    Driver → ℕ × ℕ × ℕ → ℕ → Opencl → ActionRequest → Status × Handle × Opencl
action_create d functions address w r =
    let x = draft d w r (w.actions address) in
    let (status, handle, node) = plugin_create w.system.node (plugin_request functions address r) in
    if x.err == cl_success
    then (
      status,
      handle,
      record w {
        system = record w.system { node = node };
        actions = put w.actions address x.action;
        calls = x.calls;
      },
    )
    else (err_unknown, no_handle, record w { calls = discard_draft x })
