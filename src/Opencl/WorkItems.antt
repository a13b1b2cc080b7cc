-- ===== src/Opencl/WorkItems.antt =====
-- The work items that a kernel runs with (mtapi_opencl_c/src/embb_mtapi_opencl.c).
use native.Mathlib.Nat.{div-add-mod', mod-lt, mul-mod_left, div-le_self}
use embb.Common.{
  ℕ, ap, ◌∙◌, ◌+◌, ◌-◌, ◌*◌, ◌/◌, ◌%◌, ◌^◌, ◌≤◌, ◌<◌, ◌≡◌, refl, List, [], ◌∷◌, Option, none, some,
  true, arith, length,
}
use embb.Mtapi.Status.{Status, success}
use embb.Mtapi.Pool
use embb.Mtapi.Pool.{Handle}
use embb.Mtapi.Pool.Modify.{get_object-modify, is_handle_valid-in_range}
use embb.Mtapi.Action.{action_at}
use embb.Mtapi.Task.{Task, running, set_state}
use embb.Mtapi.System.{task_at, no_task}
use embb.Opencl.{
  Call, enqueue_kernel, Driver, OpenclAction, Opencl, size_mod, round_up, elements_of, launch,
  start_kernel, opencl_task_start,
}

-- The global and the local size of the newest kernel that was enqueued.
pub launched : List Call → Option (ℕ × ℕ)
launched [] = none
launched (enqueue_kernel queue kernel global_size local_size ∷ calls) =
    some (global_size, local_size)
launched (_ ∷ calls) = launched calls

abbrev pub action_of : Opencl → Handle → OpenclAction
action_of w task =
    w.actions (action_at w.system.node (task_at w.system task.id).action.id).plugin_data

-- A valid task, in a pool with an entry for each id and entry 0, of a valid action of the plugin.
pub record IsStartable (w : Opencl) (task : Handle) : Type 0 where
  pub initialized : w.system.node.is_initialized ≡ true
  pub valid : Pool.is_handle_valid w.system.task_pool task ≡ true
  pub action_valid :
      Pool.is_handle_valid w.system.node.action_pool (task_at w.system task.id).action ≡ true
  pub entries : length w.system.task_pool.storage ≡ w.system.task_pool.id_pool.capacity + 1

pub round_up-least :
    (group_size global_size : ℕ)
    → 0 < group_size
    → global_size + group_size ≤ size_mod
    → let r = round_up group_size global_size in
      (r % group_size ≡ 0) × (global_size ≤ r) × (r < global_size + group_size)
unfolding round_up
round_up-least group_size global_size some_size small =
    let whole = div-add-mod' global_size group_size in
    let part = mod-lt global_size {m = group_size} some_size in
    let q = global_size / group_size in
    let up : global_size + (group_size - global_size % group_size) ≡ (q + 1) * group_size =
      omega (arith, whole, part) in
    let even = mul-mod_left (q + 1) group_size in
    let same = ap (λ n. n % group_size) up in ground (arith, whole, part, even, same)

-- The work items for a number of bytes of the result.
elements-round_up :
    (group_size element_size result_size : ℕ)
    → 0 < group_size
    → group_size < 2 ^ 63
    → result_size < 2 ^ 63
    → let global_size = round_up group_size (elements_of result_size element_size) in
      let elements = result_size / element_size in
      (global_size % group_size ≡ 0)
      × (0 < global_size)
      × (elements ≤ global_size)
      × (global_size < group_size + (elements - 1) + 1)
unfolding elements_of
elements-round_up group_size element_size result_size some_group small small' =
    let few = div-le_self result_size element_size in
    let one = round_up-least group_size 1 some_group (omega arith) in
    let all =
      round_up-least group_size (result_size / element_size) some_group (omega (arith, few)) in
    ground (arith, one, all)

pub opencl_task_start-valid :
    (d : Driver) (address : ℕ) (w : Opencl) (task : Handle)
    → IsStartable w task
    → opencl_task_start d address w task ≡ (success, start_kernel d address w task)
unfolding opencl_task_start
opencl_task_start-valid d address w task is =
    let open_node = is.initialized in
    let good = is.valid in let good' = is.action_valid in ground arith

start_kernel-launched :
    (d : Driver) (address : ℕ) (w : Opencl) (task : Handle)
    → IsStartable w task
    → let w' = start_kernel d address w task in
      ((task_at w'.system task.id).state ≡ running)
      × (launched w'.calls
          ≡ some (
            round_up (action_of w task).local_work_size (
                elements_of (task_at w.system task.id).result_size (action_of w task).element_size),
            (action_of w task).local_work_size,
          ))
unfolding start_kernel launch launched set_state
start_kernel-launched d address w task is = (
  ap (λ (t : Task). t.state)
      (get_object-modify w.system.task_pool task.id (λ t. set_state t running) no_task
        (omega (arith, is_handle_valid-in_range w.system.task_pool task is.valid, is.entries))),
  refl,
)

-- Where a task is valid and of a valid action of the plugin, in a pool with an entry for each id and
-- entry 0, and its action's sizes are not 0 and those of the group and of the result below 2^63,
-- opencl_task_start succeeds and leaves the task running, and it enqueues the kernel for a positive
-- number of whole groups of the action's local work size: as many that each element of the result
-- buffer has a work item, and less than a group more than the elements, or than one where there is
-- none.
pub opencl_task_start-launched :
    (d : Driver) (address : ℕ) (w : Opencl) (task : Handle)
    → IsStartable w task
    → 0 < (action_of w task).local_work_size
    → (action_of w task).local_work_size < 2 ^ 63
    → 0 < (action_of w task).element_size
    → (task_at w.system task.id).result_size < 2 ^ 63
    → let (status, w') = opencl_task_start d address w task in
      let group = (action_of w task).local_work_size in
      let elements = (task_at w.system task.id).result_size / (action_of w task).element_size in
      (status ≡ success)
      × ((task_at w'.system task.id).state ≡ running)
      × (global_size : ℕ) × (launched w'.calls ≡ some (global_size, group))
      × (global_size % group ≡ 0)
      × (0 < global_size)
      × (elements ≤ global_size)
      × (global_size < group + (elements - 1) + 1)
opencl_task_start-launched d address w task is some_group small defined small' =
    let a = action_of w task in
    let that = task_at w.system task.id in
    let started = opencl_task_start-valid d address w task is in
    let (even, some_item, all, few) =
      elements-round_up a.local_work_size a.element_size that.result_size some_group small small' in
    let (state, kernel) = start_kernel-launched d address w task is in
    (
      ap (λ p. p.0) started,
      ap (λ (p : Status × Opencl). (task_at p.1.system task.id).state) started ∙ state,
      round_up a.local_work_size (elements_of that.result_size a.element_size),
      ap (λ (p : Status × Opencl). launched p.1.calls) started ∙ kernel,
      even,
      some_item,
      all,
      few,
    )
