-- ===== src/Mtapi/System/Wait/Examples.antt =====
-- A wait for a completed task, and a cancellation.
use embb.Common.{ℕ, ◌+◌, ◌≡◌, ◌⊎◌, inl, refl, true, false, some, none, arith, length}
use embb.Mtapi.Status.{Status, success, timeout, err_unknown}
use embb.Mtapi.IdPool
use embb.Mtapi.Pool
use embb.Mtapi.Pool.{Handle}
use embb.Mtapi.Action.{action_at}
use embb.Mtapi.Polling.{rounds}
use embb.Mtapi.Task.{completed, cancelled}
use embb.Mtapi.System.{System, task_at}
use embb.Mtapi.System.Samples.{first, busy_node, system_with, quiet}
use embb.Mtapi.System.Wait.{is_pending, wait, cancel}
use embb.Mtapi.System.Wait.Ends.{at_round, wait-first, cancel-own}

abbrev over : System
over = system_with completed

known :
    (Pool.is_handle_valid over.task_pool first ≡ true)
    × (length over.task_pool.storage ≡ over.task_pool.id_pool.capacity + 1)
    × (is_pending (task_at (at_round quiet over 0) 1).state ≡ false)
    × (Pool.is_handle_valid (at_round quiet over 0).task_pool first ≡ true)
    × (length (at_round quiet over 0).task_pool.storage
        ≡ (at_round quiet over 0).task_pool.id_pool.capacity + 1)
unfolding Pool.initialize Pool.clear_handles Pool.modify Pool.get_object Pool.object_at
    Pool.is_handle_valid Pool.tag_at IdPool.initialize rounds is_pending
known = (refl, refl, refl, refl, refl)

wait-first_example :
    let end = at_round quiet over 0 in
    let that = task_at end 1 in
    ((is_pending that.state ≡ true) × (wait quiet 1 over first none ≡ some (timeout, end)))
    ⊎ ((is_pending that.state ≡ false)
        × ((s' : System) × (wait quiet 1 over first none ≡ some (that.error_code, s'))
            × ((Pool.is_handle_valid end.node.group_pool that.group ≡ true)
                ⊎ (Pool.is_handle_valid s'.task_pool first ≡ false))))
wait-first_example =
    wait-first quiet over first none 0 1 refl known.0 (omega arith) (λ n h. absurd (omega arith))
      (inl known.2) known.3 known.4 (omega arith)

abbrev plugin : ℕ → Handle → Status
plugin function handle = success

local :
    (Pool.is_handle_valid busy_node.action_pool (task_at over 1).action ≡ true)
    × ((action_at busy_node (task_at over 1).action.id).is_plugin_action ≡ false)
unfolding Pool.initialize Pool.clear_handles Pool.modify Pool.get_object Pool.object_at
    Pool.is_handle_valid Pool.tag_at IdPool.initialize
local = (refl, refl)

cancel-own_test :
    let (status, s') = cancel plugin over first in
    (status ≡ err_unknown) × ((task_at s' 1).state ≡ cancelled)
cancel-own_test = cancel-own plugin over first refl known.0 known.1 local.0 local.1
