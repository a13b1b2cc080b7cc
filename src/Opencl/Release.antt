-- ===== src/Opencl/Release.antt =====
-- The buffers of a task, from their creation to their release (mtapi_opencl_c/src/embb_mtapi_opencl.c).
use embb.Common.{
  ℕ, ap, sym, ◌∙◌, ◌+◌, length, ◌≡◌, refl, List, [], ◌∷◌, ◌++◌, true, arith, ◌==◌, if◌then◌else◌,
}
use mathlib.Core.List.{reverse, append_assoc}
use embb.Mtapi.Status.{Status}
use embb.Mtapi.Pool
use embb.Mtapi.Pool.{Handle}
use embb.Mtapi.Pool.Modify.{get_object-modify, is_handle_valid-in_range}
use embb.Mtapi.Task.{Task, completed, set_state}
use embb.Opencl.{
  Access, read_only, write_only, Call, create_buffer, release_mem_object, Driver, Opencl,
  OpenclPlugin, OpenclAction, OpenclTask, to_int, put, buffer_for, launch, start_kernel,
  opencl_task_start, opencl_task_complete,
}
use embb.Mtapi.System.{task_at, no_task}
use embb.Opencl.WorkItems.{IsStartable, action_of, opencl_task_start-valid}

-- The buffers that OpenCL has given, the newest first, but for null pointers.
pub created : Driver → List Call → List ℕ
created d [] = []
created d (create_buffer context access size ∷ calls) =
    let mem = d.result calls (create_buffer context access size) in
    let rest = created d calls in if mem == 0 then rest else mem ∷ rest
created d (_ ∷ calls) = created d calls

-- The buffers that have been released, the oldest last.
pub released : List Call → List ℕ
released [] = []
released (release_mem_object mem ∷ calls) = mem ∷ released calls
released (_ ∷ calls) = released calls

-- A buffer that is not null.
abbrev pub given : ℕ → List ℕ
given mem = if mem == 0 then [] else mem ∷ []

created-buffer_for :
    (d : Driver) (context : ℕ) (access : Access) (size : ℕ) (calls : List Call)
    → let (mem, calls') = buffer_for d context access size calls in
      created d calls' ≡ given mem ++ created d calls
unfolding buffer_for created
created-buffer_for d context access size calls = ground arith

pub put-same :
    {A : Type 0} (memory : ℕ → A) (address : ℕ) (value : A)
    → put memory address value address ≡ value
put-same memory address value = ground arith

launch-created :
    (d : Driver) (plugin : OpenclPlugin) (action : OpenclAction) (that : Task) (address : ℕ)
    (t : OpenclTask) (calls : List Call)
    → let (t', calls') = launch d plugin action that address t calls in
      (t'.arguments ≡ t.arguments)
      × (t'.result_buffer ≡ t.result_buffer)
      × (t'.task ≡ t.task)
      × (created d calls' ≡ created d calls)
unfolding launch created
launch-created d plugin action that address t calls = (refl, refl, refl, refl)

start_kernel-created :
    (d : Driver) (address : ℕ) (w : Opencl) (task : Handle)
    → let w' = start_kernel d address w task in
      let t = w'.tasks address in
      (t.task ≡ task)
      × (created d w'.calls ≡ (given t.result_buffer ++ given t.arguments) ++ created d w.calls)
unfolding start_kernel
start_kernel-created d address w task =
    let that = task_at w.system task.id in
    let action = action_of w task in
    let context = w.plugin.context in
    let first = created-buffer_for d context read_only that.arguments_size w.calls in
    let (arguments, k1) = buffer_for d context read_only that.arguments_size w.calls in
    let second = created-buffer_for d context write_only that.result_size k1 in
    let (result_buffer, k2) = buffer_for d context write_only that.result_size k1 in
    let t : OpenclTask = record {
      arguments = arguments;
      arguments_size = to_int that.arguments_size;
      result_buffer = result_buffer;
      result_buffer_size = to_int that.result_size;
      kernel_finish_event = (w.tasks address).kernel_finish_event;
      task = task;
    } in
    let at = put-same w.tasks address (launch d w.plugin action that address t k2).0 in
    let (same_arguments, same_result, same_task, calls) =
      launch-created d w.plugin action that address t k2 in
    let results = sym (ap (λ (x : OpenclTask). x.result_buffer) at ∙ same_result) in
    let inputs = sym (ap (λ (x : OpenclTask). x.arguments) at ∙ same_arguments) in
    (
      ap (λ (x : OpenclTask). x.task) at ∙ same_task,
      calls
          ∙ second
          ∙ ap (λ bs. given result_buffer ++ bs) first
          ∙ sym (append_assoc (given result_buffer) (given arguments) (created d w.calls))
          ∙ λ i. (given (results i) ++ given (inputs i)) ++ created d w.calls,
    )

-- What a callback releases: the buffers of its task.
complete-released :
    (w : Opencl) (address : ℕ)
    → w.system.node.is_initialized ≡ true
    → Pool.is_handle_valid w.system.task_pool (w.tasks address).task ≡ true
    → let t = w.tasks address in
      released (opencl_task_complete w address).calls
      ≡ (given t.arguments ++ given t.result_buffer) ++ released w.calls
unfolding opencl_task_complete released
complete-released w address open_node valid = ground arith

reverse-given : (m n : ℕ) → reverse (given m ++ given n) ≡ given n ++ given m
reverse-given m n = ground arith

complete-state :
    (w : Opencl) (address : ℕ)
    → w.system.node.is_initialized ≡ true
    → let task = (w.tasks address).task in
      Pool.is_handle_valid w.system.task_pool task ≡ true
      → length w.system.task_pool.storage ≡ w.system.task_pool.id_pool.capacity + 1
      → (task_at (opencl_task_complete w address).system (w.tasks address).task.id).state
        ≡ completed
unfolding opencl_task_complete set_state
complete-state w address open_node valid entries =
    let task = (w.tasks address).task in
    let (low, high) = is_handle_valid-in_range w.system.task_pool task valid in
    let done =
      ap (λ (t : Task). t.state)
        (get_object-modify w.system.task_pool task.id (λ that. set_state that completed) no_task
          (omega (arith, entries))) in
    ground (arith, done)

-- A kernel is started for a valid task of a valid action of the plugin, in a pool with an entry for
-- each id and entry 0, and OpenCL calls the callback back at any later time at which the node is
-- initialised, the task still valid, what stands at the address unchanged and the pool has an entry
-- for each id and entry 0. Then the callback releases the buffers that the start created, each of
-- them once, in the opposite order of their creation, and no other buffer, whatever calls were made
-- in between, and the task is completed.
pub opencl_task_complete-released :
    (d : Driver) (address : ℕ) (w : Opencl) (task : Handle) (later : Opencl)
    → IsStartable w task
    → let started = (opencl_task_start d address w task).1 in
      later.tasks address ≡ started.tasks address
      → later.system.node.is_initialized ≡ true
      → Pool.is_handle_valid later.system.task_pool task ≡ true
      → length later.system.task_pool.storage ≡ later.system.task_pool.id_pool.capacity + 1
      → let started = (opencl_task_start d address w task).1 in
        let done = opencl_task_complete later address in
        (buffers : List ℕ) × (created d started.calls ≡ buffers ++ created d w.calls)
        × (released done.calls ≡ reverse buffers ++ released later.calls)
        × ((task_at done.system task.id).state ≡ completed)
opencl_task_complete-released d address w task later is same open_node valid entries =
    let started = opencl_task_start-valid d address w task is in
    let (of_task, all) = start_kernel-created d address w task in
    let t = (start_kernel d address w task).tasks address in
    let at : later.tasks address ≡ t =
      same ∙ ap (λ (p : Status × Opencl). p.1.tasks address) started in
    let handle = ap (λ (x : OpenclTask). x.task) at ∙ of_task in
    let valid' : Pool.is_handle_valid later.system.task_pool (later.tasks address).task ≡ true =
      ap (λ h. Pool.is_handle_valid later.system.task_pool h) handle ∙ valid in
    let done = complete-released later address open_node valid' in
    let state = complete-state later address open_node valid' entries in
    (
      given t.result_buffer ++ given t.arguments,
      ap (λ (p : Status × Opencl). created d p.1.calls) started ∙ all,
      done
          ∙ ap
              (λ (x : OpenclTask).
                (given x.arguments ++ given x.result_buffer) ++ released later.calls)
              at
          ∙ ap (λ bs. bs ++ released later.calls) (sym (reverse-given t.result_buffer t.arguments)),
      ap (λ (h : Handle). (task_at (opencl_task_complete later address).system h.id).state)
            (sym handle)
          ∙ state,
    )
