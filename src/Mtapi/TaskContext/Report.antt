-- ===== src/Mtapi/TaskContext/Report.antt =====
-- What an action can report (mtapi_c/src/embb_mtapi_task_context_t.c).
use embb.Common.{ℕ, ◌≡◌, ◌≢◌, List, [], ◌∷◌, Option, none, some, true, arith}
use embb.Mtapi.Status.{Status, timeout}
use embb.Mtapi.Task.{Task}
use embb.Mtapi.TaskContext.{TaskContext, is_reportable, status_set}

-- A call of mtapi_context_status_set: the thread context of its thread, the task context, the code.
pub record Call : Type 0 where
  pub local : Option ℕ
  pub context : Option TaskContext
  pub error_code : Status

-- A task after calls of mtapi_context_status_set, one after another.
pub report : List Call → Task → Task
report [] that = that
report (c ∷ calls) that = report calls (status_set c.local c.context c.error_code that).1

status_set-keeps :
    (local : Option ℕ) (context : Option TaskContext) (code : Status) (that : Task)
    → is_reportable that.error_code ≡ true
    → is_reportable (status_set local context code that).1.error_code ≡ true
unfolding status_set
status_set-keeps local none code that h = h
status_set-keeps local (some context) code that h = ground arith

reportable-not_timeout : (code : Status) → is_reportable code ≡ true → code ≢ timeout
unfolding is_reportable
reportable-not_timeout code h = ground arith

-- Whatever codes any threads try to set on a task whose error code is one that may be reported, its
-- error code stays such a code, and so is never MTAPI_TIMEOUT, which a wait reports on its own.
pub report-is_reportable :
    (calls : List Call) (that : Task)
    → is_reportable that.error_code ≡ true
    → (is_reportable (report calls that).error_code ≡ true)
      × ((report calls that).error_code ≢ timeout)
unfolding report
report-is_reportable [] that h = (h, reportable-not_timeout that.error_code h)
report-is_reportable (c ∷ calls) that h =
    report-is_reportable calls _ (status_set-keeps c.local c.context c.error_code that h)
