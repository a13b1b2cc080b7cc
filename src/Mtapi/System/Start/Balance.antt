-- ===== src/Mtapi/System/Start/Balance.antt =====
-- Which action of a job a new task goes to (mtapi_c/src/embb_mtapi_task_t.c).
use embb.Common.{ℕ, zero, suc, ap, ◌+◌, ◌≤◌, ◌<◌, ◌≡◌, ◌⊎◌, List, true, false, arith, get_or}
use embb.Mtapi.Pool
use embb.Mtapi.Pool.{Handle}
use embb.Mtapi.Job.{no_handle}
use embb.Mtapi.Node.{Node}
use embb.Mtapi.Action.{action_at}
use embb.Mtapi.System.Start.{choose_from, fewer_of, int_greater}

-- The handle of an action of a job, and how many tasks that action has.
abbrev pub handle_at : List Handle → ℕ → Handle
handle_at actions k = get_or actions k no_handle

abbrev pub load : Node → List Handle → ℕ → ℕ
load node actions k = (action_at node (handle_at actions k).id).num_tasks

-- A round keeps to valid actions, and never to one with more tasks than another one it compared.
fewer_of-least :
    (node : Node) (actions : List Handle) (n k ii index : ℕ)
    → Pool.is_handle_valid node.action_pool (handle_at actions k) ≡ true
    → Pool.is_handle_valid node.action_pool (handle_at actions index) ≡ true
    → index < n
    → ii < n
    → (int_greater (load node actions index) (load node actions k) ≡ false) ⊎ (ii ≤ k)
    → let chosen = fewer_of node actions ii index in
      (chosen < n)
      × (Pool.is_handle_valid node.action_pool (handle_at actions chosen) ≡ true)
      × ((int_greater (load node actions chosen) (load node actions k) ≡ false) ⊎ (ii < k))
unfolding fewer_of
fewer_of-least node actions n k ii index vk vi small inside known =
    ground (arith, ap (load node actions) {x = ii} {y = k}, ap (handle_at actions) {x = ii} {y = k})

choose_from-least :
    (node : Node) (actions : List Handle) (n k rounds ii index : ℕ)
    → Pool.is_handle_valid node.action_pool (handle_at actions k) ≡ true
    → Pool.is_handle_valid node.action_pool (handle_at actions index) ≡ true
    → index < n
    → ii + rounds ≡ n
    → k < n
    → (int_greater (load node actions index) (load node actions k) ≡ false) ⊎ (ii ≤ k)
    → let chosen = choose_from node actions rounds ii index in
      (chosen < n)
      × (Pool.is_handle_valid node.action_pool (handle_at actions chosen) ≡ true)
      × (int_greater (load node actions chosen) (load node actions k) ≡ false)
unfolding choose_from
choose_from-least node actions n k zero ii index vk vi small all within known = ground arith
choose_from-least node actions n k (suc rounds) ii index vk vi small all within known =
    let r = fewer_of-least node actions n k ii index vk vi small (omega arith) known in
    choose_from-least node actions n k rounds (ii + 1) (fewer_of node actions ii index) vk r.1 r.0
      (omega arith) within (ground arith)

-- Where the first of the actions of a job is valid, the action that a start chooses is a valid one
-- of them, and no valid action of the job has fewer tasks, as the values of `int`s.
pub choose_from-fewest :
    (node : Node) (actions : List Handle) (n k : ℕ)
    → Pool.is_handle_valid node.action_pool (handle_at actions 0) ≡ true
    → Pool.is_handle_valid node.action_pool (handle_at actions k) ≡ true
    → k < n
    → let chosen = choose_from node actions n 0 0 in
      (chosen < n)
      × (Pool.is_handle_valid node.action_pool (handle_at actions chosen) ≡ true)
      × (int_greater (load node actions chosen) (load node actions k) ≡ false)
choose_from-fewest node actions n k v0 vk within =
    choose_from-least node actions n k n 0 0 vk v0 (omega arith) (omega arith) within (ground arith)
