-- ===== src/Mtapi/TaskContext.antt =====
-- mtapi_c/src/embb_mtapi_task_context_t.c: what a running action asks of its context. A pointer to a
-- thread context is the worker's index.
pub mod Report
mod Examples
use embb.Common.{ℕ, ◌+◌, ◌%◌, Option, none, some, Bool, true, false, ◌==◌, if◌then◌else◌}
use embb.Mtapi.Status.{
  Status, success, err_arg_size, err_result_size, err_action_cancelled, err_action_failed,
  err_action_deleted, err_parameter, err_context_outofcontext, err_context_invalid,
}
use embb.Mtapi.IdPool.{uint_mod}
use embb.Mtapi.Task.{Task, State, error}

-- `task` is the index of the task, `none` for MTAPI_NULL.
pub record TaskContext : Type 0 where
  pub instance_num : ℕ
  pub num_instances : ℕ
  pub task : Option ℕ
  pub thread_context : Option ℕ

-- The context, and the task with its instance counted. `task` is the index of the task `that`.
unfoldable pub initialize_with_thread_context_and_task : ℕ → ℕ → Task → TaskContext × Task
initialize_with_thread_context_and_task thread_context task that = (
  record {
    instance_num = that.current_instance;
    num_instances = that.attributes.num_instances;
    task = some task;
    thread_context = some thread_context;
  },
  record that { current_instance = (that.current_instance + 1) % uint_mod },
)

unfoldable pub finalize : TaskContext → TaskContext
finalize that = record { instance_num = 0; num_instances = 0; task = none; thread_context = none }

-- Whether two pointers to thread contexts are the same; the first is what embb_tss_get returned.
abbrev pub same_context : Option ℕ → Option ℕ → Bool
same_context none none = true
same_context (some a) (some b) = a == b
same_context _ _ = false

-- The codes that an action may report.
unfoldable pub is_reportable : Status → Bool
is_reportable success = true
is_reportable err_arg_size = true
is_reportable err_result_size = true
is_reportable err_action_cancelled = true
is_reportable err_action_failed = true
is_reportable err_action_deleted = true
is_reportable _ = false

-- mtapi_context_status_set on a task context, or on MTAPI_NULL: `local` is the thread context of
-- the calling thread, and `that` the context's task.
unfoldable pub status_set : Option ℕ → Option TaskContext → Status → Task → Status × Task
status_set local none error_code that = (err_context_invalid, that)
status_set local (some context) error_code that =
    if same_context local context.thread_context
    then (if is_reportable error_code
        then (success, record that { error_code = error_code })
        else (err_parameter, that))
    else (err_context_outofcontext, that)

-- A value is read in the context's own thread only, and is `default` otherwise.
abbrev pub read : {A : Type 0} → Option ℕ → Option TaskContext → A → (TaskContext → A) → Status × A
read local none default value = (err_context_invalid, default)
read local (some context) default value =
    if same_context local context.thread_context
    then (success, value context)
    else (err_context_outofcontext, default)

unfoldable pub taskstate_get : Option ℕ → Option TaskContext → Task → Status × State
taskstate_get local context that = read local context error (λ c. that.state)

unfoldable pub instnum_get : Option ℕ → Option TaskContext → Status × ℕ
instnum_get local context = read local context 0 (λ c. c.instance_num)

unfoldable pub numinst_get : Option ℕ → Option TaskContext → Status × ℕ
numinst_get local context = read local context 0 (λ c. c.num_instances)

-- `core_num` is that of the context's thread context.
unfoldable pub corenum_get : Option ℕ → Option TaskContext → ℕ → Status × ℕ
corenum_get local context core_num = read local context 0 (λ c. core_num)

-- mtapi_context_runtime_notify compares the thread context that embb_tss_get returns with the task
-- context, two objects of different types, whose addresses are never the same.
unfoldable pub runtime_notify : Option TaskContext → Status
runtime_notify none = err_context_invalid
runtime_notify (some context) = err_context_outofcontext
