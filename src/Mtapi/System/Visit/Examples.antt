-- ===== src/Mtapi/System/Visit/Examples.antt =====
-- A queue of tasks of one action, visited for another one.
use embb.Common.{ℕ, ◌≡◌, refl, [], ◌∷◌, false, some, none, arith}
use embb.Mtapi.Pool
use embb.Mtapi.Pool.{Handle}
use embb.Mtapi.TaskQueue.{TaskQueue}
use embb.Mtapi.Task.{scheduled}
use embb.Mtapi.System.{System}
use embb.Mtapi.System.Samples.{system_with, workers, one_task}
use embb.Mtapi.System.Visit.{process_tasks, action_delete_visitor, action_disable_visitor}
use embb.Mtapi.System.Visit.Foreign.{process_tasks-foreign}

abbrev other : Handle
other = record { tag = 0; id = 2 }

abbrev level : TaskQueue ℕ
level = record one_task { task_buffer = some 1 ∷ none ∷ [] }

-- The task is in the private queue of worker 0.
abbrev queued : System
queued = record (system_with scheduled) {
  scheduler = record workers {
    worker_contexts = record { queue = one_task ∷ []; private_queue = level ∷ [] } ∷ [];
  };
}

process_tasks-foreign_example :
    (process_tasks (action_delete_visitor other) queued ≡ (false, queued))
    × (process_tasks (action_disable_visitor other) queued ≡ (false, queued))
unfolding Pool.initialize Pool.clear_handles Pool.modify Pool.get_object Pool.object_at
process_tasks-foreign_example =
    process_tasks-foreign queued 1 other (omega arith) (omega arith) (omega arith) refl refl
