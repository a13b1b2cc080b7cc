-- ===== src/Mtapi/Task/Instances.antt =====
-- The instances of a task (mtapi_c/src/embb_mtapi_task_t.c).
use embb.Common.{
  ℕ, zero, suc, ap, ap₂, ◌+◌, ◌<◌, ◌≡◌, List, [], ◌∷◌, ◌++◌, Bool, true, false, some, arith, length,
  replicate,
}
use embb.Mtapi.Status.{Status}
use embb.Mtapi.IdPool.{uint_mod}
use embb.Mtapi.Pool
use embb.Mtapi.Pool.Modify.{is_handle_valid-modify, get_object-modify, is_handle_valid-in_range}
use embb.Mtapi.TaskQueue
use embb.Mtapi.TaskQueue.Valid
use embb.Mtapi.TaskQueue.Fifo.{push_cases}
use embb.Mtapi.Node.{Node}
use embb.Mtapi.Group.{no_group}
use embb.Mtapi.Task.{Task, completed, set_state, execute, finish, task_done, arrive}

-- The results of so many executions, one after another, and the task they leave.
pub results : (Task → Status) → ℕ → Node → ℕ → Task → List Bool
results outcome zero node task that = []
results outcome (suc n) node task that =
    let (done, that', node') = execute outcome node task that in
    done ∷ results outcome n node' task that'

pub left : (Task → Status) → ℕ → Node → ℕ → Task → Task
left outcome zero node task that = that
left outcome (suc n) node task that =
    let (done, that', node') = execute outcome node task that in left outcome n node' task that'

-- An execution while other instances are left.
execute-more :
    (outcome : Task → Status) (node : Node) (task : ℕ) (that : Task) (m : ℕ)
    → Pool.is_handle_valid node.action_pool that.action ≡ true
    → that.instances_todo ≡ suc (suc m)
    → suc (suc m) < uint_mod
    → let (done, that', node') = execute outcome node task that in
      (done ≡ false)
      × (that'.instances_todo ≡ suc m)
      × (Pool.is_handle_valid node'.action_pool that'.action ≡ true)
      × (node'.group_pool ≡ node.group_pool)
unfolding execute finish set_state
execute-more outcome node task that m valid e small =
    ground (arith, is_handle_valid-modify node.action_pool that.action.id task_done that.action)

execute-last :
    (outcome : Task → Status) (node : Node) (task : ℕ) (that : Task)
    → Pool.is_handle_valid node.action_pool that.action ≡ true
    → that.instances_todo ≡ 1
    → let (done, that', node') = execute outcome node task that in
      (done ≡ true) × (that'.state ≡ completed) × (that'.instances_todo ≡ 0)
unfolding execute finish set_state
execute-last outcome node task that valid e = ground arith

-- A task of a valid action with m + 1 instances left to do, fewer than 2^32, that is executed m + 1
-- times: only the last execution reports that the task is done, and it leaves the task completed
-- with no instance left.
pub results-instances :
    (outcome : Task → Status) (m : ℕ) (node : Node) (task : ℕ) (that : Task)
    → Pool.is_handle_valid node.action_pool that.action ≡ true
    → that.instances_todo ≡ suc m
    → suc m < uint_mod
    → (results outcome (suc m) node task that ≡ replicate m false ++ (true ∷ []))
      × ((left outcome (suc m) node task that).state ≡ completed)
      × ((left outcome (suc m) node task that).instances_todo ≡ 0)
unfolding results left
results-instances outcome zero node task that valid e small =
    let last = execute-last outcome node task that valid e in
    (ap (λ d. d ∷ []) last.0, last.1, last.2)
results-instances outcome (suc m) node task that valid e small =
    let more = execute-more outcome node task that m valid e small in
    let (done, that', node') = execute outcome node task that in
    let rest = results-instances outcome m node' task that' more.2 more.1 (omega arith) in
    (ap₂ (λ d ds. d ∷ ds) more.0 rest.0, rest.1, rest.2)

-- The last execution of a task of a valid action in a valid group, in a pool with an entry for
-- each id and entry 0, whose queue is valid and has room, puts the task into that queue behind the
-- tasks that arrived before.
pub tasks-execute :
    (outcome : Task → Status) (node : Node) (task : ℕ) (that : Task)
    → Pool.is_handle_valid node.action_pool that.action ≡ true
    → that.instances_todo ≡ 1
    → Pool.is_handle_valid node.group_pool that.group ≡ true
    → length node.group_pool.storage ≡ node.group_pool.id_pool.capacity + 1
    → let q = (Pool.get_object node.group_pool that.group.id no_group).queue in
      Valid.IsValid q
      → length (TaskQueue.tasks q) < q.limit
      → let node' = (execute outcome node task that).2 in
        TaskQueue.tasks (Pool.get_object node'.group_pool that.group.id no_group).queue
        ≡ TaskQueue.tasks q ++ (some task ∷ [])
unfolding execute finish set_state
tasks-execute outcome node task that valid e member slots fits room =
    let q = (Pool.get_object node.group_pool that.group.id no_group).queue in
    let inside = is_handle_valid-in_range node.group_pool that.group member in
    let pushed = push_cases (some task) fits in
    let made = get_object-modify node.group_pool that.group.id (arrive task) no_group in
    ground arith
