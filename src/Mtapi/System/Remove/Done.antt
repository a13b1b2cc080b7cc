-- ===== src/Mtapi/System/Remove/Done.antt =====
-- How deletions end (mtapi_c/src/embb_mtapi_action_t.c and embb_mtapi_queue_t.c).
use embb.Common.{ℕ, ap, ◌∙◌, ◌+◌, ◌<◌, ◌≡◌, ◌⊎◌, Option, some, true, false, not, arith, length}
use embb.Mtapi.IdPool.{IdPool, uint_mod}
use embb.Mtapi.Pool
use embb.Mtapi.Pool.{Pool, Handle}
use embb.Mtapi.Pool.Modify.{is_handle_valid-modify, is_handle_valid-deallocate, length-modify}
use embb.Mtapi.Objects.{finalize_action, finalize_queue}
use embb.Mtapi.Polling.First.{poll-first}
use embb.Mtapi.System.{System}
use embb.Mtapi.System.Wait.{World, is_late, other_work, get_current_thread_context}
use embb.Mtapi.System.Wait.Ends.{at_round}
use embb.Mtapi.System.Visit.{process_tasks, action_delete_visitor, queue_delete_visitor}
use embb.Mtapi.System.Remove.{
  is_busy, wait_until, tasks_of_action, tasks_of_queue, ended, discard_action, discard_queue,
  after_loop, action_delete, queue_delete,
}

wait_until-first :
    (count : System → ℕ) (w : World) (s : System) (limit : Option ℕ) (k fuel : ℕ)
    → k < fuel
    → ((n : ℕ) → n < k → (is_busy count (at_round w s n) ≡ true) × (is_late w limit n ≡ false))
    → (is_busy count (at_round w s k) ≡ false) ⊎ (is_late w limit k ≡ true)
    → wait_until count w fuel s limit ≡ some (not (is_busy count (at_round w s k)), at_round w s k)
unfolding wait_until
wait_until-first count w s limit k fuel h before now =
    poll-first (is_busy count) (is_late w limit) (other_work w (get_current_thread_context w s)) k
      fuel s h before now

-- The system when the visit of the waiting tasks is done.
abbrev pub visited : System → Handle → System
visited s action = (process_tasks (action_delete_visitor action) s).1

abbrev pub unqueued : System → Handle → System
unqueued s queue = (process_tasks (queue_delete_visitor queue) s).1

action_delete-loop :
    (w : World) (fuel : ℕ) (s : System) (action : Handle) (limit : Option ℕ)
    → s.node.is_initialized ≡ true
    → Pool.is_handle_valid s.node.action_pool action ≡ true
    → action_delete w fuel s action limit
      ≡ after_loop
          (discard_action action.id)
          (wait_until (tasks_of_action action.id) w fuel (visited s action) limit)
unfolding action_delete
action_delete-loop w fuel s action limit init valid = ground arith

discard_action-is_handle_valid :
    (s : System) (action : Handle)
    → Pool.is_handle_valid s.node.action_pool action ≡ true
    → length s.node.action_pool.storage ≡ s.node.action_pool.id_pool.capacity + 1
    → action.tag < uint_mod
    → Pool.is_handle_valid (discard_action action.id s).node.action_pool action ≡ false
unfolding discard_action
discard_action-is_handle_valid s action valid slots small =
    is_handle_valid-deallocate finalize_action s.node.action_pool action slots small valid

-- On an initialised node, where the action of a valid handle has tasks and the timeout has not passed
-- at the first k tests of the loop of mtapi_action_delete, and it has none at test k or the timeout
-- has passed: with any fuel of more than k tests the call returns, with success if the action has no
-- task and else with MTAPI_TIMEOUT, and the handle, valid then in a pool that has an entry for each
-- id and entry 0 and of a tag below 2^32, is no longer valid in either case.
pub action_delete-first :
    (w : World) (s : System) (action : Handle) (limit : Option ℕ) (k fuel : ℕ)
    → s.node.is_initialized ≡ true
    → Pool.is_handle_valid s.node.action_pool action ≡ true
    → k < fuel
    → ((n : ℕ)
        → n < k
        → (is_busy (tasks_of_action action.id) (at_round w (visited s action) n) ≡ true)
          × (is_late w limit n ≡ false))
    → let end = at_round w (visited s action) k in
      let busy = is_busy (tasks_of_action action.id) end in
      (busy ≡ false) ⊎ (is_late w limit k ≡ true)
      → Pool.is_handle_valid end.node.action_pool action ≡ true
      → length end.node.action_pool.storage ≡ end.node.action_pool.id_pool.capacity + 1
      → action.tag < uint_mod
      → (s' : System) × (action_delete w fuel s action limit ≡ some (ended (not busy), s'))
        × (Pool.is_handle_valid s'.node.action_pool action ≡ false)
action_delete-first w s action limit k fuel init valid h before now there slots small =
    let end = at_round w (visited s action) k in
    let loop =
      wait_until-first (tasks_of_action action.id) w (visited s action) limit k fuel h before now in
    (
      discard_action action.id end,
      action_delete-loop w fuel s action limit init valid
          ∙ ap (after_loop (discard_action action.id)) loop,
      discard_action-is_handle_valid end action there slots small,
    )

queue_delete-loop :
    (w : World) (fuel : ℕ) (s : System) (queue : Handle) (limit : Option ℕ)
    → s.node.is_initialized ≡ true
    → Pool.is_handle_valid s.node.queue_pool queue ≡ true
    → queue_delete w fuel s queue limit
      ≡ after_loop
          (discard_queue queue.id)
          (wait_until (tasks_of_queue queue.id) w fuel (unqueued s queue) limit)
unfolding queue_delete
queue_delete-loop w fuel s queue limit init valid = ground arith

discard_queue-is_handle_valid :
    (s : System) (queue : Handle)
    → Pool.is_handle_valid s.node.queue_pool queue ≡ true
    → length s.node.queue_pool.storage ≡ s.node.queue_pool.id_pool.capacity + 1
    → queue.tag < uint_mod
    → Pool.is_handle_valid (discard_queue queue.id s).node.queue_pool queue ≡ false
unfolding discard_queue
discard_queue-is_handle_valid s queue valid slots small =
    let finalize = finalize_queue (some s.node.attributes.queue_limit) in
    let same = length-modify s.node.queue_pool queue.id finalize in
    is_handle_valid-deallocate finalize (Pool.modify s.node.queue_pool queue.id finalize) queue
      (omega (arith, same, ap (λ (q : IdPool). q.capacity) same.1)) small
      (is_handle_valid-modify s.node.queue_pool queue.id finalize queue ∙ valid)

-- On an initialised node, where the queue of a valid handle has tasks and the timeout has not passed
-- at the first k tests of the loop of mtapi_queue_delete, and it has none at test k or the timeout
-- has passed: with any fuel of more than k tests the call returns, with success if the queue has no
-- task and else with MTAPI_TIMEOUT, and the handle, valid then in a pool that has an entry for each
-- id and entry 0 and of a tag below 2^32, is no longer valid in either case.
pub queue_delete-first :
    (w : World) (s : System) (queue : Handle) (limit : Option ℕ) (k fuel : ℕ)
    → s.node.is_initialized ≡ true
    → Pool.is_handle_valid s.node.queue_pool queue ≡ true
    → k < fuel
    → ((n : ℕ)
        → n < k
        → (is_busy (tasks_of_queue queue.id) (at_round w (unqueued s queue) n) ≡ true)
          × (is_late w limit n ≡ false))
    → let end = at_round w (unqueued s queue) k in
      let busy = is_busy (tasks_of_queue queue.id) end in
      (busy ≡ false) ⊎ (is_late w limit k ≡ true)
      → Pool.is_handle_valid end.node.queue_pool queue ≡ true
      → length end.node.queue_pool.storage ≡ end.node.queue_pool.id_pool.capacity + 1
      → queue.tag < uint_mod
      → (s' : System) × (queue_delete w fuel s queue limit ≡ some (ended (not busy), s'))
        × (Pool.is_handle_valid s'.node.queue_pool queue ≡ false)
queue_delete-first w s queue limit k fuel init valid h before now there slots small =
    let end = at_round w (unqueued s queue) k in
    let loop =
      wait_until-first (tasks_of_queue queue.id) w (unqueued s queue) limit k fuel h before now in
    (
      discard_queue queue.id end,
      queue_delete-loop w fuel s queue limit init valid
          ∙ ap (after_loop (discard_queue queue.id)) loop,
      discard_queue-is_handle_valid end queue there slots small,
    )
