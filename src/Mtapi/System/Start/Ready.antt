-- ===== src/Mtapi/System/Start/Ready.antt =====
-- A start that succeeds (mtapi_c/src/embb_mtapi_task_t.c).
use embb.Common.{
  ℕ, zero, suc, ap, ◌+◌, ◌<◌, ◌≡◌, ◌∙◌, refl, List, [], ◌∷◌, ◌++◌, some, true, false, if◌then◌else◌,
  arith, length,
}
use embb.Base.Bitset
use embb.Mtapi.Status.{Status, success}
use embb.Mtapi.IdPool
use embb.Mtapi.IdPool.{invalid_id}
use embb.Mtapi.Pool
use embb.Mtapi.Pool.{Pool, Handle}
use embb.Mtapi.Pool.Valid as PoolValid
use embb.Mtapi.Pool.Modify.{get_object-modify, is_handle_valid-modify, length-modify}
use embb.Mtapi.TaskQueue
use embb.Mtapi.Job
use embb.Mtapi.Job.{no_handle}
use embb.Mtapi.Attributes.Task.{TaskAttributes}
use embb.Mtapi.Objects.{Group}
use embb.Mtapi.Node.{Node}
use embb.Mtapi.Action.{action_at}
use embb.Mtapi.Task.{Task, created, scheduled, set_state}
use embb.Mtapi.Scheduler.Schedule.{target_affinity}
use embb.Mtapi.System.{System, task_at, no_task}
use embb.Mtapi.System.Start.{
  Request, one_more, join_group, join_queue, start_with, start_joined, start, prepare, choose_from,
  fewer_of,
}
use embb.Mtapi.System.Start.Balance.{handle_at}
use embb.Mtapi.System.Start.Outcome.{start_request-start_with}
use embb.Mtapi.System.Start.Room.{queue_of, HasRoom, tasks-push_public, launched, start_joined-room}

-- The group, counting the task or not, changes nothing of the choice of an action.
choose_from-groups :
    (node : Node) (groups : Pool Group) (actions : List Handle) (rounds ii index : ℕ)
    → choose_from (record node { group_pool = groups }) actions rounds ii index
      ≡ choose_from node actions rounds ii index
unfolding choose_from fewer_of
choose_from-groups node groups actions zero ii index = refl
choose_from-groups node groups actions (suc rounds) ii index =
    choose_from-groups node groups actions rounds (ii + 1) _

-- The pool of groups once the group has counted the task, and the task's group.
abbrev pub groups_with : Node → Handle → Pool Group
groups_with node group =
    if Pool.is_handle_valid node.group_pool group
    then Pool.modify node.group_pool group.id one_more
    else node.group_pool

abbrev pub joined_to : Node → Handle → Task → Task
joined_to node group that = record that {
  group =
      if Pool.is_handle_valid node.group_pool group
      then group
      else record that.group { id = invalid_id };
  queue = record that.queue { id = invalid_id };
}

join-no_queue :
    (node : Node) (group : Handle) (that : Task)
    → join_queue no_handle (join_group group (node, that))
      ≡ (record node { group_pool = groups_with node group }, joined_to node group that)
unfolding join_queue join_group Pool.is_handle_valid
join-no_queue node group that = ground arith

start_with-joined :
    (plugin : ℕ → Handle → Status) (r : Request) (s : System) (task : ℕ)
    → let node = record s.node { group_pool = groups_with s.node r.group } in
      let that = prepare s.node.attributes.num_cores r (task_at s task) in
      start_with plugin (record r { queue = no_handle }) s (some task)
      ≡ start_joined plugin r.job.id
          (record s { node = node })
          task
          (node, joined_to s.node r.group that)
unfolding start_with start_joined prepare
start_with-joined plugin r s task =
    ap (start_joined plugin r.job.id s task)
      (join-no_queue s.node r.group (prepare s.node.attributes.num_cores r (task_at s task)))

-- Without a queue the affinity of action and task decides.
target-both :
    (node : Node) (affinity_all : ℕ) (that : Task)
    → that.queue.id ≡ 0
    → Bitset.intersect (action_at node that.action.id).attributes.affinity that.attributes.affinity
      ≡ affinity_all
    → target_affinity node affinity_all that ≡ affinity_all
unfolding target_affinity Pool.is_handle_valid
target-both node affinity_all that out both = ground arith

-- On an initialised node with a valid pool of tasks that has an id left, a start on a valid job with
-- given attributes for one instance that is not detached, of a priority below the node's
-- max_priorities, where the chosen action is valid, no plugin's, and has with the task the affinity
-- of all cores, and where the public queue of that priority of the worker (id modulo the number of
-- workers) exists, is valid and has room: it returns, succeeds and gives a valid handle with the id
-- available longest, of a scheduled task of that action, which stands in that queue behind the
-- tasks that were there.
pub start-room :
    (plugin : ℕ → Handle → Status) (s : System) (r : Request) (given : TaskAttributes)
    → s.node.is_initialized ≡ true
    → Job.is_handle_valid s.node.attributes.max_jobs s.node.job_list r.job ≡ true
    → PoolValid.IsValid s.task_pool
    → 0 < s.task_pool.id_pool.ids_available
    → given.num_instances ≡ 1
    → given.is_detached ≡ 0
    → given.priority < s.node.attributes.max_priorities
    → let job = Job.get_storage_for_id s.node.job_list r.job.id in
      let action = handle_at job.actions (choose_from s.node job.actions job.num_actions 0 0) in
      let id = (IdPool.allocate true s.task_pool.id_pool).0 in
      Pool.is_handle_valid s.node.action_pool action ≡ true
      → (action_at s.node action.id).is_plugin_action ≡ false
      → Bitset.intersect (action_at s.node action.id).attributes.affinity given.affinity
        ≡ s.affinity_all
      → HasRoom s.scheduler id given.priority
      → (handle : Handle) × (s' : System) × (start plugin s (record r { attributes = some given })
          ≡ some (success, handle, s'))
        × (handle.id ≡ id)
        × (Pool.is_handle_valid s'.task_pool handle ≡ true)
        × ((task_at s' id).state ≡ scheduled)
        × ((task_at s' id).action ≡ action)
        × (TaskQueue.tasks (queue_of s'.scheduler id given.priority)
            ≡ TaskQueue.tasks (queue_of s.scheduler id given.priority) ++ (some id ∷ []))
unfolding start prepare set_state
start-room plugin s r given init job v left one kept low valid own both h =
    let id = (IdPool.allocate true s.task_pool.id_pool).0 in
    let pool = (Pool.allocate true s.task_pool).1 in
    let ready = PoolValid.allocate_ready v in
    let s1 = record s { task_pool = pool } in
    let r1 = record r { attributes = some given } in
    let job' = Job.get_storage_for_id s.node.job_list r.job.id in
    let action = handle_at job'.actions (choose_from s.node job'.actions job'.num_actions 0 0) in
    let node = record s.node { group_pool = groups_with s.node r.group } in
    let that = joined_to s.node r.group (prepare s.node.attributes.num_cores r1 (task_at s1 id)) in
    let chosen = record that { action = action; state = created } in
    let entered =
      start_request-start_with plugin s (record r1 { queue = no_handle }) init job v left in
    let joined = start_with-joined plugin r1 s1 id in
    let same =
      ap (handle_at job'.actions) (
        choose_from-groups s.node (groups_with s.node r.group) job'.actions job'.num_actions 0 0) in
    let all = target-both node s.affinity_all (set_state chosen scheduled) refl both in
    let done =
      start_joined-room plugin r.job.id (record s1 { node = node }) id that action same valid own
        one kept low all h in
    let p = Pool.modify pool id (λ (_ : Task). chosen) in
    let scheduled' = set_state chosen scheduled in
    let handle = Pool.handle_of pool id in
    let found : (id < length pool.storage)
        × (handle.id ≡ id)
        × (Pool.is_handle_valid pool handle ≡ true) =
      ground arith in
    let made =
      get_object-modify p id (λ (_ : Task). scheduled') no_task
        (omega (arith, (length-modify pool id (λ (_ : Task). chosen)).0)) in
    (
      handle,
      launched (record s1 { node = node; task_pool = p }) id chosen,
      entered ∙ joined ∙ done,
      found.1,
      is_handle_valid-modify p id (λ (_ : Task). scheduled') handle
          ∙ is_handle_valid-modify pool id (λ (_ : Task). chosen) handle
          ∙ found.2,
      ap (λ (x : Task). x.state) made,
      ap (λ (x : Task). x.action) made,
      (tasks-push_public s.scheduler id given.priority h).1,
    )
