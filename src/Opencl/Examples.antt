-- ===== src/Opencl/Examples.antt =====
-- A kernel for a task of a node with two workers, on a device that numbers what it hands out.
use embb.Common.{
  ℕ, ◌+◌, ◌-◌, ◌/◌, ◌%◌, ◌^◌, ◌<◌, ◌≤◌, ◌≡◌, ◌⊎◌, refl, List, [], ◌∷◌, ◌++◌, some, none, arith,
  length, true,
}
use mathlib.Core.List.{reverse}
use embb.Mtapi.Status.{success, err_unknown}
use embb.Mtapi.IdPool
use embb.Mtapi.Pool
use embb.Mtapi.Job.{no_handle}
use embb.Mtapi.Action.Plugin.{plugin_create}
use embb.Mtapi.Objects.{Group}
use embb.Mtapi.Group.{group_at}
use embb.Mtapi.Task.{Task, scheduled, running, completed}
use embb.Mtapi.System.{System, task_at}
use embb.Mtapi.System.Samples.{first, sample_system, sample_task, epoch}
use embb.Mtapi.System.GroupWait.{change_group, wait_all}
use embb.Opencl.{
  Call, build_program, set_kernel_arg, Driver, OpenclAction, Opencl, start_kernel,
  opencl_task_start, opencl_task_complete,
}
use embb.Opencl.Setup.{ActionRequest, plugin_request, action_create}
use embb.Opencl.WorkItems.{launched, IsStartable, opencl_task_start-launched}
use embb.Opencl.Release.{created, released, opencl_task_complete-released}
use embb.Opencl.Unnoticed.{only_callbacks, wait_all-unnoticed}
use embb.Opencl.Create.{Object, acquired, freed, action_create-freed}
use embb.Opencl.Stale.{kernels, IsBroken, action_create-stale}

-- Building a program and setting an argument of a kernel fail.
abbrev refuses : Call → ℕ
refuses (build_program of target) = 1
refuses (set_kernel_arg kernel index size value) = 1
refuses _ = 0

abbrev device : Driver
device = record { result = λ calls c. length calls + 1; error = λ calls c. refuses c }

-- Ten bytes of results in elements of two bytes, and groups of four work items.
abbrev kernel_task : Task
kernel_task = record (sample_task scheduled) {
  arguments = 100;
  arguments_size = 3;
  result_buffer = 200;
  result_size = 10;
}

abbrev counted : Group → Group
counted g = record g { num_tasks = 1 }

abbrev system : System
system =
    change_group 1 counted (record sample_system {
      task_pool = Pool.modify sample_system.task_pool 1 (λ _. kernel_task);
    })

abbrev action : OpenclAction
action = record {
  program = 5;
  kernel = 6;
  node_local_data = 0;
  node_local_data_size = 0;
  local_work_size = 4;
  element_size = 2;
}

abbrev here : Opencl
here = record {
  system = system;
  plugin = record {
    platform_id = 1;
    device_id = 2;
    context = 3;
    command_queue = 4;
    work_group_size = 64;
    work_item_sizes = 0;
  };
  actions = λ address. action;
  tasks = λ address. record {
    arguments = 0;
    arguments_size = 0;
    result_buffer = 0;
    result_buffer_size = 0;
    kernel_finish_event = 0;
    task = first;
  };
  calls = [];
}

startable : IsStartable here first
unfolding Pool.initialize Pool.clear_handles Pool.modify Pool.get_object Pool.object_at
    Pool.is_handle_valid Pool.tag_at IdPool.initialize
startable = record { initialized = refl; valid = refl; action_valid = refl; entries = refl }

small : (task_at system 1).result_size < 2 ^ 63
unfolding Pool.initialize Pool.clear_handles Pool.modify Pool.get_object Pool.object_at
small = omega arith

opencl_task_start-launched_example :
    let (status, w') = opencl_task_start device 300 here first in
    let elements = (task_at system 1).result_size / 2 in
    (status ≡ success)
    × ((task_at w'.system 1).state ≡ running)
    × (global_size : ℕ) × (launched w'.calls ≡ some (global_size, 4))
    × (global_size % 4 ≡ 0)
    × (0 < global_size)
    × (elements ≤ global_size)
    × (global_size < 4 + (elements - 1) + 1)
opencl_task_start-launched_example =
    opencl_task_start-launched device 300 here first startable (omega arith) (omega arith)
      (omega arith) small

abbrev after : Opencl
after = (opencl_task_start device 300 here first).1

later :
    (Pool.is_handle_valid after.system.task_pool first ≡ true)
    × (length after.system.task_pool.storage ≡ after.system.task_pool.id_pool.capacity + 1)
    × (after.system.node.is_initialized ≡ true)
unfolding Pool.initialize Pool.clear_handles Pool.modify Pool.get_object Pool.object_at
    Pool.is_handle_valid Pool.tag_at IdPool.initialize opencl_task_start start_kernel
later = (refl, refl, refl)

opencl_task_complete-released_example :
    let done = opencl_task_complete after 300 in
    (buffers : List ℕ) × (created device after.calls ≡ buffers ++ created device here.calls)
    × (released done.calls ≡ reverse buffers ++ released after.calls)
    × ((task_at done.system 1).state ≡ completed)
opencl_task_complete-released_example =
    opencl_task_complete-released device 300 here first after startable refl later.2 later.0 later.1

group_counts :
    (Pool.is_handle_valid system.node.group_pool first ≡ true)
    × (0 < (group_at system.node 1).num_tasks)
    × ((group_at system.node 1).queue.tasks_available ≡ 0)
unfolding Pool.initialize Pool.clear_handles Pool.modify Pool.get_object Pool.object_at
    Pool.is_handle_valid Pool.tag_at IdPool.initialize
group_counts = (refl, omega arith, refl)

wait_all-unnoticed_example :
    wait_all (only_callbacks (λ i. 300) here (λ i. epoch)) (λ i j. true) 5 system first none ≡ none
wait_all-unnoticed_example =
    wait_all-unnoticed (λ i. 300) here (λ i. epoch) (λ i j. true) 5 first refl group_counts.0
      group_counts.1 group_counts.2

abbrev request : ActionRequest
request = record {
  job_id = 1;
  kernel_source = 700;
  kernel_length = 40;
  kernel_name = 800;
  local_work_size = 4;
  element_size = 2;
  node_local_data = 900;
  node_local_data_size = 16;
}

action_create-freed_example :
    let (status, handle, w') = action_create device (1, 2, 3) 300 here request in
    let (status', handle', node) =
      plugin_create here.system.node (plugin_request (1, 2, 3) 300 request) in
    ((status ≡ status')
      × (handle ≡ handle')
      × (w'.system.node ≡ node)
      × (freed w'.calls ≡ freed here.calls))
    ⊎ ((status ≡ err_unknown)
        × (handle ≡ no_handle)
        × (w'.system ≡ here.system)
        × (objects : List Object) × (acquired device w'.calls
            ≡ objects ++ acquired device here.calls)
        × (freed w'.calls ≡ reverse objects ++ freed here.calls))
action_create-freed_example = action_create-freed device (1, 2, 3) 300 here request

broken : IsBroken device here request
broken = record {
  program = refl;
  build = λ calls of. omega arith;
  buffer = λ calls size. refl;
  writing = λ calls mem size. refl;
}

action_create-stale_example :
    (others : List ℕ) × (kernels (action_create device (1, 2, 3) 300 here request).2.calls
      ≡ others ++ (6 ∷ kernels here.calls))
action_create-stale_example =
    action_create-stale device (1, 2, 3) 300 here request broken (omega arith)
