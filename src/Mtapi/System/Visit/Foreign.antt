-- ===== src/Mtapi/System/Visit/Foreign.antt =====
-- A task of another action or queue ends a visit (mtapi_c/src/embb_mtapi_action_t.c and
-- embb_mtapi_queue_t.c).
use embb.Common.{
  ℕ, zero, suc, ap, ◌∙◌, ◌<◌, ◌≡◌, refl, List, Option, none, some, Bool, true, false, arith, get_or,
}
use embb.Mtapi.Pool.{Handle}
use embb.Mtapi.Job.{same_handle}
use embb.Mtapi.TaskQueue.{TaskQueue, process, process_from}
use embb.Mtapi.Scheduler.{no_queue, context_at}
use embb.Mtapi.System.{System, task_at}
use embb.Mtapi.System.Visit.{
  Visitor, action_delete_visitor, action_disable_visitor, and_visit, context_process_tasks,
  workers_from, process_tasks,
}

-- The first queue that the loops visit.
abbrev pub first_queue : System → TaskQueue ℕ
first_queue s = get_or (context_at s.scheduler 0).private_queue 0 no_queue

process_from-stop :
    (visit : Visitor) (buffer : List (Option ℕ)) (rounds : ℕ) (s : System)
    → 0 < rounds
    → visit s (get_or buffer 0 none) ≡ (false, s)
    → process_from visit buffer rounds 0 s ≡ (false, s)
unfolding process_from
process_from-stop visit buffer zero s h e = absurd (omega arith)
process_from-stop visit buffer (suc rounds) s h e = rw e refl

and_visit-stop :
    (r : Bool × System) (s : System) (rest : System → Bool × System)
    → r ≡ (false, s)
    → and_visit r rest ≡ (false, s)
and_visit-stop r s rest e = rw e refl

context_process_tasks-stop :
    (visit : Visitor) (priorities : ℕ) (s : System)
    → 0 < priorities
    → process visit true (first_queue s) s ≡ (false, s)
    → context_process_tasks visit (context_at s.scheduler 0) priorities 0 s ≡ (false, s)
unfolding context_process_tasks
context_process_tasks-stop visit zero s h e = absurd (omega arith)
context_process_tasks-stop visit (suc n) s h e = and_visit-stop _ s _ e

workers_from-stop :
    (visit : Visitor) (workers : ℕ) (s : System)
    → 0 < workers
    → context_process_tasks visit (context_at s.scheduler 0) s.node.attributes.max_priorities 0 s
      ≡ (false, s)
    → workers_from visit workers 0 s ≡ (false, s)
unfolding workers_from
workers_from-stop visit zero s h e = absurd (omega arith)
workers_from-stop visit (suc n) s h e = and_visit-stop _ s _ e

process_tasks-stop :
    (visit : Visitor) (s : System)
    → 0 < s.scheduler.worker_count
    → 0 < s.node.attributes.max_priorities
    → 0 < (first_queue s).tasks_available
    → visit s (get_or (first_queue s).task_buffer 0 none) ≡ (false, s)
    → process_tasks visit s ≡ (false, s)
unfolding process_tasks process
process_tasks-stop visit s h k busy e =
    let q = first_queue s in
    let stopped = process_from-stop visit q.task_buffer q.tasks_available s busy e in
    workers_from-stop visit s.scheduler.worker_count s h
      (context_process_tasks-stop visit s.node.attributes.max_priorities s k stopped)

-- Where the first queue that the loops visit, the private one of worker 0 for priority 0, holds a
-- task and its buffer starts with the task of another action, mtapi_action_delete and
-- mtapi_action_disable cancel no task at all: the visit ends at that task and changes nothing.
pub process_tasks-foreign :
    (s : System) (task : ℕ) (action : Handle)
    → 0 < s.scheduler.worker_count
    → 0 < s.node.attributes.max_priorities
    → 0 < (first_queue s).tasks_available
    → get_or (first_queue s).task_buffer 0 none ≡ some task
    → same_handle (task_at s task).action action ≡ false
    → (process_tasks (action_delete_visitor action) s ≡ (false, s))
      × (process_tasks (action_disable_visitor action) s ≡ (false, s))
unfolding action_delete_visitor action_disable_visitor
process_tasks-foreign s task action h k busy front other = (
  process_tasks-stop (action_delete_visitor action) s h k busy
      (ap (action_delete_visitor action s) front ∙ ground arith),
  process_tasks-stop (action_disable_visitor action) s h k busy
      (ap (action_disable_visitor action s) front ∙ ground arith),
)
