-- ===== src/Opencl.antt =====
-- mtapi_opencl_c/src/embb_mtapi_opencl.c: actions whose tasks run as kernels of OpenCL. The calls of
-- OpenCL are kept as a list, and what it answers to a call is an argument. A null pointer is 0.
pub mod Setup
pub mod WorkItems
pub mod Release
pub mod Unnoticed
pub mod Create
pub mod Stale
mod Examples
use embb.Common.{ℕ, ◌+◌, ◌-◌, ◌/◌, ◌%◌, ◌^◌, List, ◌∷◌, ◌==◌, if◌then◌else◌, ltb}
use embb.Mtapi.Status.{Status, success, err_unknown}
use embb.Mtapi.Pool
use embb.Mtapi.Pool.{Handle}
use embb.Mtapi.Action.{action_at}
use embb.Mtapi.Task.{Task, running, completed, set_state}
use embb.Mtapi.System.{System, task_at}

pub data Access : Type 0 where
  read_only write_only : Access

-- A call of OpenCL with the arguments that differ from call to call.
pub data Call : Type 0 where
  get_platform_ids : Call
  get_device_ids : (platform : ℕ) → Call
  create_context : (device : ℕ) → Call
  get_device_info : (device param size : ℕ) → Call
  create_command_queue : (context device : ℕ) → Call
  release_command_queue : (command_queue : ℕ) → Call
  release_context : (context : ℕ) → Call
  create_program : (context source length : ℕ) → Call
  build_program : (program device : ℕ) → Call
  get_program_build_info : (program device : ℕ) → Call
  release_program : (program : ℕ) → Call
  create_kernel : (program name : ℕ) → Call
  set_kernel_arg : (kernel index size value : ℕ) → Call
  release_kernel : (kernel : ℕ) → Call
  create_buffer : (context : ℕ) (access : Access) (size : ℕ) → Call
  release_mem_object : (mem : ℕ) → Call
  enqueue_write_buffer : (command_queue mem size address : ℕ) → Call
  enqueue_kernel : (command_queue kernel global_size local_size : ℕ) → Call
  enqueue_read_buffer : (command_queue mem size address : ℕ) → Call
  set_event_callback : (event data_pointer : ℕ) → Call
  flush : (command_queue : ℕ) → Call
  wait_for_events : (event : ℕ) → Call

-- What OpenCL answers to a call after others, the newest of them first: what the call returns or
-- what then stands where it writes, and its error code.
pub record Driver : Type 0 where
  pub result : List Call → Call → ℕ
  pub error : List Call → Call → ℕ

abbrev pub cl_success : ℕ
cl_success = 0

pub record OpenclPlugin : Type 0 where
  pub platform_id : ℕ
  pub device_id : ℕ
  pub context : ℕ
  pub command_queue : ℕ
  pub work_group_size : ℕ
  pub work_item_sizes : ℕ

-- `node_local_data_size` is an `int`.
pub record OpenclAction : Type 0 where
  pub program : ℕ
  pub kernel : ℕ
  pub node_local_data : ℕ
  pub node_local_data_size : ℕ
  pub local_work_size : ℕ
  pub element_size : ℕ

-- The sizes are `int`s.
pub record OpenclTask : Type 0 where
  pub arguments : ℕ
  pub arguments_size : ℕ
  pub result_buffer : ℕ
  pub result_buffer_size : ℕ
  pub kernel_finish_event : ℕ
  pub task : Handle

-- The node with the plugin, what stands at the addresses of OpenCL actions and tasks, and the calls
-- of OpenCL, the newest first.
pub record Opencl : Type 0 where
  pub system : System
  pub plugin : OpenclPlugin
  pub actions : ℕ → OpenclAction
  pub tasks : ℕ → OpenclTask
  pub calls : List Call

abbrev pub size_mod : ℕ
size_mod = 2 ^ 64

-- (int) of a size, as its 32-bit pattern, and (size_t) of an `int`.
abbrev pub to_int : ℕ → ℕ
to_int size = size % 2 ^ 32

abbrev pub to_size : ℕ → ℕ
to_size n = if ltb n (2 ^ 31) then n else n + (2 ^ 64 - 2 ^ 32)

unfoldable pub round_up : ℕ → ℕ → ℕ
round_up group_size global_size =
    let r = global_size % group_size in
    if r == 0 then global_size else (global_size + (group_size - r)) % size_mod

-- The work items that a task of this result size asks for.
unfoldable pub elements_of : ℕ → ℕ → ℕ
elements_of result_size element_size =
    let elements = result_size / element_size in if elements == 0 then 1 else elements

-- The buffer for a size, null for 0, and the calls.
unfoldable pub buffer_for : Driver → ℕ → Access → ℕ → List Call → ℕ × List Call
buffer_for d context access size calls =
    let c = create_buffer context access size in
    if ltb 0 size then (d.result calls c, c ∷ calls) else (0, calls)

-- The calls of opencl_task_start behind the creation of the buffers. No error code is read.
unfoldable pub launch :
    Driver
    → OpenclPlugin
    → OpenclAction
    → Task
    → ℕ
    → OpenclTask
    → List Call
    → OpenclTask × List Call
launch d plugin action that address t calls =
    let queue = plugin.command_queue in
    let global_work_size =
      round_up action.local_work_size (elements_of that.result_size action.element_size) in
    let k1 = set_kernel_arg action.kernel 0 8 t.arguments ∷ calls in
    let k2 = set_kernel_arg action.kernel 1 4 t.arguments_size ∷ k1 in
    let k3 = set_kernel_arg action.kernel 2 8 t.result_buffer ∷ k2 in
    let k4 = set_kernel_arg action.kernel 3 4 t.result_buffer_size ∷ k3 in
    let k5 =
      enqueue_write_buffer queue t.arguments (to_size t.arguments_size) that.arguments ∷ k4 in
    let k6 = enqueue_kernel queue action.kernel global_work_size action.local_work_size ∷ k5 in
    let reading =
      enqueue_read_buffer queue t.result_buffer (to_size t.result_buffer_size) that.result_buffer in
    let event = d.result k6 reading in
    (
      record t { kernel_finish_event = event },
      flush queue ∷ set_event_callback event address ∷ reading ∷ k6,
    )

-- Memory with a value written to an address.
abbrev pub put : {A : Type 0} → (ℕ → A) → ℕ → A → ℕ → A
put memory address value = λ a. if a == address then value else memory a

-- The body of opencl_task_start for a task of a valid action, where embb_alloc gave the address.
unfoldable pub start_kernel : Driver → ℕ → Opencl → Handle → Opencl
start_kernel d address w task =
    let s = w.system in
    let that = task_at s task.id in
    let action = w.actions (action_at s.node that.action.id).plugin_data in
    let (arguments, k1) = buffer_for d w.plugin.context read_only that.arguments_size w.calls in
    let (result_buffer, k2) = buffer_for d w.plugin.context write_only that.result_size k1 in
    let (t, calls) =
      launch d w.plugin action that address
        (record {
          arguments = arguments;
          arguments_size = to_int that.arguments_size;
          result_buffer = result_buffer;
          result_buffer_size = to_int that.result_size;
          kernel_finish_event = (w.tasks address).kernel_finish_event;
          task = task;
        })
        k2 in
    record w {
      system = record s { task_pool = Pool.modify s.task_pool task.id (λ t. set_state t running) };
      tasks = put w.tasks address t;
      calls = calls;
    }

unfoldable pub opencl_task_start : Driver → ℕ → Opencl → Handle → Status × Opencl
opencl_task_start d address w task =
    let s = w.system in
    if s.node.is_initialized
    then (if Pool.is_handle_valid s.task_pool task
        then (if Pool.is_handle_valid s.node.action_pool (task_at s task.id).action
            then (success, start_kernel d address w task)
            else (err_unknown, w))
        else (err_unknown, w))
    else (err_unknown, w)

-- A buffer is released where there is one.
abbrev pub release_buffer : ℕ → List Call → List Call
release_buffer mem calls = if mem == 0 then calls else release_mem_object mem ∷ calls

-- The callback of the event, with the address of the OpenCL task.
unfoldable pub opencl_task_complete : Opencl → ℕ → Opencl
opencl_task_complete w address =
    let s = w.system in
    let t = w.tasks address in
    if s.node.is_initialized
    then (if Pool.is_handle_valid s.task_pool t.task
        then record w {
          system = record s {
            task_pool = Pool.modify s.task_pool t.task.id (λ that. set_state that completed);
          };
          calls =
              release_buffer t.arguments
                (release_buffer t.result_buffer (wait_for_events t.kernel_finish_event ∷ w.calls));
        }
        else w)
    else w

pub opencl_task_cancel : Opencl → Handle → Status × Opencl
opencl_task_cancel w task = (err_unknown, w)
