-- ===== src/Mtapi/System/Worker/Kept.antt =====
-- The entries of tasks that a worker has executed (mtapi_c/src/embb_mtapi_scheduler_t.c).
use embb.Common.{ℕ, ◌≡◌, Option, none, some}
use embb.Mtapi.Status.{Status}
use embb.Mtapi.Node.{Node}
use embb.Mtapi.Task.{Task}
use embb.Mtapi.Scheduler.{Scheduler}
use embb.Mtapi.System.{System}

-- What a call that returns leaves of the ids of tasks.
abbrev Keeps : System → Option System → Type 0
Keeps s none = ℕ
Keeps s (some s') = s'.task_pool.id_pool ≡ s.task_pool.id_pool
