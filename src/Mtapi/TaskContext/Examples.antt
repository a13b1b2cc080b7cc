-- ===== src/Mtapi/TaskContext/Examples.antt =====
-- Two reports on a task: one of an allowed code, and one of another.
use embb.Common.{◌≡◌, ◌≢◌, refl, [], ◌∷◌, some, true}
use embb.Mtapi.Status.{timeout, success, err_action_failed, err_queue_limit}
use embb.Mtapi.Task.{Task, running}
use embb.Mtapi.Job.{no_handle}
use embb.Mtapi.TaskContext.{TaskContext, is_reportable}
use embb.Mtapi.TaskContext.Report.{Call, report, report-is_reportable}

abbrev context : TaskContext
context = record { instance_num = 0; num_instances = 1; task = some 1; thread_context = some 0 }

abbrev failed : Call
failed = record { local = some 0; context = some context; error_code = err_action_failed }

abbrev wrong : Call
wrong = record { local = some 0; context = some context; error_code = err_queue_limit }

abbrev task : Task
task = record {
  task_id = 0;
  job = no_handle;
  arguments = 0;
  arguments_size = 0;
  result_buffer = 0;
  result_size = 0;
  attributes = record {
    is_detached = 0;
    num_instances = 1;
    priority = 0;
    affinity = 3;
    user_data = 0;
    complete_func = 0;
  };
  group = no_handle;
  queue = no_handle;
  action = no_handle;
  state = running;
  current_instance = 0;
  instances_todo = 1;
  error_code = success;
}

fresh : is_reportable task.error_code ≡ true
unfolding is_reportable
fresh = refl

report-is_reportable_test :
    let that = report (failed ∷ wrong ∷ []) task in
    (is_reportable that.error_code ≡ true) × (that.error_code ≢ timeout)
report-is_reportable_test = report-is_reportable (failed ∷ wrong ∷ []) task fresh
