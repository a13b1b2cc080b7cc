-- ===== src/Mtapi/System/Start/Outcome.antt =====
-- What a start does to the group and the queue of the task (mtapi_c/src/embb_mtapi_task_t.c).
use embb.Common.{
  ℕ, zero, suc, ap, sym, ◌+◌, ◌<◌, ◌≡◌, ◌∙◌, refl, Option, none, some, Bool, true, false, ◌&&◌,
  if◌then◌else◌, arith, length,
}
use embb.Mtapi.Status.{Status}
use embb.Mtapi.IdPool
use embb.Mtapi.Pool
use embb.Mtapi.Pool.{Pool, Handle}
use embb.Mtapi.Pool.Valid
use embb.Mtapi.Pool.Modify.{get_object-modify, is_handle_valid-in_range}
use embb.Mtapi.Job
use embb.Mtapi.Objects.{Group, Queue, task_started}
use embb.Mtapi.Node.{Node}
use embb.Mtapi.Group.{no_group, group_at}
use embb.Mtapi.Queue.{no_queue, queue_at}
use embb.Mtapi.Task.{Task}
use embb.Mtapi.Scheduler.{Scheduler}
use embb.Mtapi.Scheduler.Schedule.{schedule_task, push_affine}
use embb.Mtapi.System.{System, up, task_at}
use embb.Mtapi.System.Start.{
  Request, one_more, join_group, join_queue, and_then, schedule_from, fail, conclude, launch,
  start_with, start_joined, start_request, prepare,
}

abbrev Pools : Type 0
Pools = Pool Group × Pool Queue

abbrev pools : Node → Pools
pools node = (node.group_pool, node.queue_pool)

-- The pools of groups and queues after scheduling, and after a call; `old` where it goes on for
-- ever.
pools_after : Pools → Option (Bool × Node × Scheduler ℕ) → Pools
pools_after old none = old
pools_after old (some (pushed, node, s)) = pools node

pools_left : Pools → Option (Status × Handle × System) → Pools
pools_left old none = old
pools_left old (some (status, handle, s)) = pools s.node

pools-push_affine :
    (old : Pools) (node : Node) (that : Task) (task : ℕ) (s : Scheduler ℕ) (worker : Option ℕ)
    → pools node ≡ old
    → pools_after old (push_affine node that task s worker) ≡ old
unfolding pools_after
pools-push_affine old node that task s none e = refl
pools-push_affine old node that task s (some worker) e = e

pools-some :
    (old : Pools) (pushed : Bool) (node : Node) (s : Scheduler ℕ)
    → pools node ≡ old
    → pools_after old (some (pushed, node, s)) ≡ old
unfolding pools_after
pools-some old pushed node s e = e

pools-if :
    (old : Pools) (test : Bool) (x y : Option (Bool × Node × Scheduler ℕ))
    → pools_after old x ≡ old
    → pools_after old y ≡ old
    → pools_after old (if test then x else y) ≡ old
unfolding pools_after
pools-if old true x y e k = e
pools-if old false x y e k = k

pools-schedule_task :
    (old : Pools) (node : Node) (affinity_all : ℕ) (s : Scheduler ℕ) (task : ℕ) (that : Task)
    (kk : ℕ)
    → pools node ≡ old
    → pools_after old (schedule_task node affinity_all s task that kk) ≡ old
unfolding schedule_task
pools-schedule_task old node affinity_all s task that kk e =
    pools-if old _ _ _
      (pools-if old _ _ _ (pools-some old _ _ _ e) (pools-push_affine old node that task _ _ e))
      (pools-some old _ _ _ e)

pools-and_then :
    (old : Pools) (r : Option (Bool × Node × Scheduler ℕ))
    (rest : Bool → Node → Scheduler ℕ → Option (Bool × Node × Scheduler ℕ))
    → ((b : Bool) (node : Node) (s : Scheduler ℕ)
        → pools node ≡ old
        → pools_after old (rest b node s) ≡ old)
    → pools_after old r ≡ old
    → pools_after old (and_then r rest) ≡ old
unfolding pools_after
pools-and_then old none rest kept e = refl
pools-and_then old (some (b, node, s)) rest kept e = kept b node s e

pools-schedule_from :
    (old : Pools) (affinity_all task : ℕ) (that : Task) (rounds kk : ℕ) (was : Bool) (node : Node)
    (s : Scheduler ℕ)
    → pools node ≡ old
    → pools_after old (schedule_from affinity_all task that rounds kk was node s) ≡ old
unfolding schedule_from
pools-schedule_from old affinity_all task that zero kk was node s e = pools-some old was node s e
pools-schedule_from old affinity_all task that (suc rounds) kk was node s e =
    pools-and_then old (schedule_task node affinity_all s task that kk)
      (λ b node' s'. schedule_from affinity_all task that rounds (kk + 1) (was && b) node' s')
      (λ b node' s'.
        pools-schedule_from old affinity_all task that rounds (kk + 1) (was && b) node' s')
      (pools-schedule_task old node affinity_all s task that kk e)

pools_left-if :
    (old : Pools) (test : Bool) (x y : Option (Status × Handle × System))
    → pools_left old x ≡ old
    → pools_left old y ≡ old
    → pools_left old (if test then x else y) ≡ old
pools_left-if old true x y e k = e
pools_left-if old false x y e k = k

pools-fail :
    (old : Pools) (status : Status) (task : ℕ) (handle : Handle) (s : System)
    → pools s.node ≡ old
    → pools_left old (some (fail status task handle s)) ≡ old
unfolding pools_left fail
pools-fail old status task handle s e = e

pools-conclude :
    (old : Pools) (task : ℕ) (handle : Handle) (that : Task) (s : System)
    (r : Option (Bool × Node × Scheduler ℕ))
    → pools_after old r ≡ old
    → pools_left old (conclude task handle that s r) ≡ old
unfolding pools_after pools_left conclude fail
pools-conclude old task handle that s none e = refl
pools-conclude old task handle that s (some (b, node, scheduler)) e = ground arith

pools-launch :
    (old : Pools) (plugin : ℕ → Handle → Status) (s : System) (task : ℕ) (handle : Handle)
    (that : Task)
    → pools s.node ≡ old
    → pools_left old (launch plugin s task handle that) ≡ old
unfolding launch
pools-launch old plugin s task handle that e = pools-conclude old task handle _ _ _ (
    pools-if old _ _ _ (pools-some old _ _ _ e)
      (pools-schedule_from old s.affinity_all task _ _ 0 true s.node s.scheduler e))

pools-start_joined :
    (plugin : ℕ → Handle → Status) (job_id : ℕ) (s : System) (task : ℕ) (node : Node) (that : Task)
    → pools_left (pools node) (start_joined plugin job_id s task (node, that)) ≡ pools node
unfolding start_joined
pools-start_joined plugin job_id s task node that =
    pools_left-if (pools node) _ _ _ (pools-launch (pools node) plugin _ task _ _ refl)
      (pools-fail (pools node) _ task _ _ refl)

-- The node once the group and the queue have counted the new task.
abbrev counted : Node → Request → Node
counted node r = record node {
  group_pool = Pool.modify node.group_pool r.group.id one_more;
  queue_pool = Pool.modify node.queue_pool r.queue.id task_started;
}

pools-start_with :
    (plugin : ℕ → Handle → Status) (r : Request) (s : System) (task : ℕ)
    → Pool.is_handle_valid s.node.group_pool r.group ≡ true
    → Pool.is_handle_valid s.node.queue_pool r.queue ≡ true
    → let new = pools (counted s.node r) in pools_left new (start_with plugin r s (some task)) ≡ new
unfolding start_with join_group join_queue
pools-start_with plugin r s task g q =
    let that = record (prepare s.node.attributes.num_cores r (task_at s task)) {
      group = r.group;
      queue = r.queue;
    } in
    rw (g, q) (pools-start_joined plugin r.job.id s task (counted s.node r) that)

pub start_request-start_with :
    (plugin : ℕ → Handle → Status) (s : System) (r : Request)
    → s.node.is_initialized ≡ true
    → Job.is_handle_valid s.node.attributes.max_jobs s.node.job_list r.job ≡ true
    → Valid.IsValid s.task_pool
    → 0 < s.task_pool.id_pool.ids_available
    → let id = (IdPool.allocate true s.task_pool.id_pool).0 in
      start_request plugin s r
      ≡ start_with plugin r (record s { task_pool = (Pool.allocate true s.task_pool).1 }) (some id)
unfolding start_request
start_request-start_with plugin s r init job v left =
    let ready = Valid.allocate_ready v in
    let found : (Pool.allocate true s.task_pool).0
        ≡ some (IdPool.allocate true s.task_pool.id_pool).0 =
      ground arith in
    rw (init, job, found) refl

-- On an initialised node with a valid pool of tasks that has an id left, whose pools of groups and
-- queues have an entry for each id and entry 0, a start on a valid job for a valid group and a valid
-- queue leaves both with one task more, modulo 2^32, if it returns, whatever status it reports.
pub num_tasks-start_request :
    (plugin : ℕ → Handle → Status) (s : System) (r : Request) (status : Status) (handle : Handle)
    (s' : System)
    → s.node.is_initialized ≡ true
    → Job.is_handle_valid s.node.attributes.max_jobs s.node.job_list r.job ≡ true
    → Valid.IsValid s.task_pool
    → 0 < s.task_pool.id_pool.ids_available
    → Pool.is_handle_valid s.node.group_pool r.group ≡ true
    → Pool.is_handle_valid s.node.queue_pool r.queue ≡ true
    → length s.node.group_pool.storage ≡ s.node.group_pool.id_pool.capacity + 1
    → length s.node.queue_pool.storage ≡ s.node.queue_pool.id_pool.capacity + 1
    → start_request plugin s r ≡ some (status, handle, s')
    → ((group_at s'.node r.group.id).num_tasks ≡ up (group_at s.node r.group.id).num_tasks)
      × ((queue_at s'.node r.queue.id).num_tasks ≡ up (queue_at s.node r.queue.id).num_tasks)
unfolding pools_left task_started
num_tasks-start_request plugin s r status handle s' init job v left g q gs qs e =
    let id = (IdPool.allocate true s.task_pool.id_pool).0 in
    let s1 = record s { task_pool = (Pool.allocate true s.task_pool).1 } in
    let kept = pools-start_with plugin r s1 id g q in
    let same = start_request-start_with plugin s r init job v left in
    let new = pools (counted s.node r) in
    let known : pools s'.node ≡ new = sym (ap (pools_left new) (sym same ∙ e)) ∙ kept in
    let ginside = is_handle_valid-in_range s.node.group_pool r.group g in
    let qinside = is_handle_valid-in_range s.node.queue_pool r.queue q in
    let gmade = get_object-modify s.node.group_pool r.group.id one_more no_group in
    let qmade = get_object-modify s.node.queue_pool r.queue.id task_started no_queue in
    (
      ap (λ (p : Pools). (Pool.get_object p.0 r.group.id no_group).num_tasks) known
          ∙ ap (λ (x : Group). x.num_tasks) (gmade (omega arith)),
      ap (λ (p : Pools). (Pool.get_object p.1 r.queue.id no_queue).num_tasks) known
          ∙ ap (λ (x : Queue). x.num_tasks) (qmade (omega arith)),
    )
