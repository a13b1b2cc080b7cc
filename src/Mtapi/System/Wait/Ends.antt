-- ===== src/Mtapi/System/Wait/Ends.antt =====
-- How a wait for a task ends, and what a cancellation reports (mtapi_c/src/embb_mtapi_task_t.c).
use embb.Common.{
  ℕ, ap, ◌∙◌, ◌+◌, ◌<◌, ◌≡◌, ◌⊎◌, inl, inr, refl, Option, some, Bool, true, false, not, arith,
  length,
}
use embb.Mtapi.Status.{Status, timeout, err_unknown}
use embb.Mtapi.IdPool.{IdPool, uint_mod}
use embb.Mtapi.Pool
use embb.Mtapi.Pool.{Handle}
use embb.Mtapi.Pool.Modify.{
  get_object-modify, is_handle_valid-modify, is_handle_valid-in_range, is_handle_valid-deallocate,
  length-modify,
}
use embb.Mtapi.Action.{action_at}
use embb.Mtapi.Task
use embb.Mtapi.Task.{Task, cancelled, set_state}
use embb.Mtapi.Polling.{rounds}
use embb.Mtapi.Polling.First.{poll-first}
use embb.Mtapi.System.{System, task_at, no_task}
use embb.Mtapi.System.Wait.{
  World, is_pending, is_late, other_work, get_current_thread_context, wait_for_task, after_wait,
  wait, cancel,
}

-- The system at the test of round `k`.
abbrev pub at_round : World → System → ℕ → System
at_round w s k = rounds (other_work w (get_current_thread_context w s)) k 0 s

wait_for_task-first :
    (w : World) (s : System) (task : ℕ) (limit : Option ℕ) (k fuel : ℕ)
    → k < fuel
    → ((n : ℕ)
        → n < k
        → (is_pending (task_at (at_round w s n) task).state ≡ true) × (is_late w limit n ≡ false))
    → (is_pending (task_at (at_round w s k) task).state ≡ false) ⊎ (is_late w limit k ≡ true)
    → wait_for_task w fuel s task limit
      ≡ some (not (is_pending (task_at (at_round w s k) task).state), at_round w s k)
unfolding wait_for_task
wait_for_task-first w s task limit k fuel h before now =
    poll-first (λ (x : System). is_pending (task_at x task).state) (is_late w limit)
      (other_work w (get_current_thread_context w s)) k fuel s h before now

-- The task of a valid handle deleted.
delete-is_handle_valid :
    (s : System) (task : Handle)
    → Pool.is_handle_valid s.task_pool task ≡ true
    → length s.task_pool.storage ≡ s.task_pool.id_pool.capacity + 1
    → task.tag < uint_mod
    → Pool.is_handle_valid (Task.delete task.id s.task_pool) task ≡ false
unfolding Task.delete
delete-is_handle_valid s task valid slots small =
    let p = Pool.modify s.task_pool task.id Task.finalize in
    let same = length-modify s.task_pool task.id Task.finalize in
    is_handle_valid-deallocate Task.finalize p task
      (omega (arith, same, ap (λ (q : IdPool). q.capacity) same.1)) small
      (is_handle_valid-modify s.task_pool task.id Task.finalize task ∙ valid)

-- What the end of the loop makes of a task that is pending, or not.
after_wait-cases :
    (s : System) (task : Handle) (pending : Bool)
    → Pool.is_handle_valid s.task_pool task ≡ true
    → length s.task_pool.storage ≡ s.task_pool.id_pool.capacity + 1
    → task.tag < uint_mod
    → let that = task_at s task.id in
      let result = after_wait task.id (some (not pending, s)) in
      ((pending ≡ true) × (result ≡ some (timeout, s)))
      ⊎ ((pending ≡ false)
          × ((s' : System) × (result ≡ some (that.error_code, s'))
              × ((Pool.is_handle_valid s.node.group_pool that.group ≡ true)
                  ⊎ (Pool.is_handle_valid s'.task_pool task ≡ false))))
unfolding after_wait
after_wait-cases s task true valid slots small = inl (refl, refl)
after_wait-cases s task false valid slots small =
    let that = task_at s task.id in
    let gone = delete-is_handle_valid s task valid slots small in
    inr (refl, (_, refl, ground arith))

wait-after_wait :
    (w : World) (fuel : ℕ) (s : System) (task : Handle) (limit : Option ℕ)
    → s.node.is_initialized ≡ true
    → Pool.is_handle_valid s.task_pool task ≡ true
    → wait w fuel s task limit ≡ after_wait task.id (wait_for_task w fuel s task.id limit)
unfolding wait
wait-after_wait w fuel s task limit init valid = ground arith

-- On an initialised node, where a valid handle's task is scheduled, running or retained at the first
-- k tests of mtapi_task_wait and they come before the timeout, and it is none of these at test k or
-- the timeout has passed: with any fuel of more than k tests the wait returns, with MTAPI_TIMEOUT
-- and nothing else changed if the task is still one of these, and else with its error code, and the
-- handle, valid then in a pool that has an entry for each id and entry 0 and of a tag below 2^32,
-- is no longer valid if the task's group is not.
pub wait-first :
    (w : World) (s : System) (task : Handle) (limit : Option ℕ) (k fuel : ℕ)
    → s.node.is_initialized ≡ true
    → Pool.is_handle_valid s.task_pool task ≡ true
    → k < fuel
    → ((n : ℕ)
        → n < k
        → (is_pending (task_at (at_round w s n) task.id).state ≡ true)
          × (is_late w limit n ≡ false))
    → let end = at_round w s k in
      let that = task_at end task.id in
      (is_pending that.state ≡ false) ⊎ (is_late w limit k ≡ true)
      → Pool.is_handle_valid end.task_pool task ≡ true
      → length end.task_pool.storage ≡ end.task_pool.id_pool.capacity + 1
      → task.tag < uint_mod
      → ((is_pending that.state ≡ true) × (wait w fuel s task limit ≡ some (timeout, end)))
        ⊎ ((is_pending that.state ≡ false)
            × ((s' : System) × (wait w fuel s task limit ≡ some (that.error_code, s'))
                × ((Pool.is_handle_valid end.node.group_pool that.group ≡ true)
                    ⊎ (Pool.is_handle_valid s'.task_pool task ≡ false))))
wait-first w s task limit k fuel init valid h before now there slots small =
    let end = at_round w s k in
    let that = task_at end task.id in
    let loop = wait_for_task-first w s task.id limit k fuel h before now in
    let cases =
      after_wait-cases end task (is_pending (task_at end task.id).state) there slots small in
    let ends = wait-after_wait w fuel s task limit init valid ∙ ap (after_wait task.id) loop in
    rw ends cases

-- Cancelling the task of a valid handle whose action is valid and no plugin's, on an initialised node
-- whose pool of tasks has an entry for each id and entry 0, cancels the task and reports
-- MTAPI_ERR_UNKNOWN.
pub cancel-own :
    (plugin : ℕ → Handle → Status) (s : System) (task : Handle)
    → s.node.is_initialized ≡ true
    → Pool.is_handle_valid s.task_pool task ≡ true
    → length s.task_pool.storage ≡ s.task_pool.id_pool.capacity + 1
    → Pool.is_handle_valid s.node.action_pool (task_at s task.id).action ≡ true
    → (action_at s.node (task_at s task.id).action.id).is_plugin_action ≡ false
    → let (status, s') = cancel plugin s task in
      (status ≡ err_unknown) × ((task_at s' task.id).state ≡ cancelled)
unfolding cancel set_state
cancel-own plugin s task init valid slots own local =
    let inside = is_handle_valid-in_range s.task_pool task valid in
    let made =
      get_object-modify s.task_pool task.id (λ (that : Task). set_state that cancelled) no_task
        (omega arith) in
    ground (arith, ap (λ (x : Task). x.action) made)
