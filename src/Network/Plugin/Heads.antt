-- ===== src/Network/Plugin/Heads.antt =====
-- How the heads of the plugin's messages are taken apart
-- (mtapi_network_c/src/embb_mtapi_network.c).
use embb.Common.{ℕ}
use embb.Mtapi.Attributes.Task.{TaskAttributes}
use embb.Network.Buffer.{Buffer, pop_front_int32}

-- What stands in the local variables of the thread, and the addresses that embb_alloc gives.
pub record Locals : Type 0 where
  pub operation : ℕ
  pub domain_id : ℕ
  pub job_id : ℕ
  pub remote_task_id : ℕ
  pub remote_task_tag : ℕ
  pub results_size : ℕ
  pub arguments_size : ℕ
  pub task_id : ℕ
  pub task_tag : ℕ
  pub task_status : ℕ
  pub attributes : TaskAttributes
  pub network_task : ℕ
  pub results : ℕ
  pub arguments : ℕ

-- The head of a message that starts a task.
pub record StartHead : Type 0 where
  pub domain_id : ℕ
  pub job_id : ℕ
  pub priority : ℕ
  pub remote_task_id : ℕ
  pub remote_task_tag : ℕ
  pub results_size : ℕ
  pub arguments_size : ℕ

unfoldable pub pop_start : Locals → Buffer → StartHead × Buffer
pop_start l b0 =
    let (e1, domain_id, b1) = pop_front_int32 b0 l.domain_id in
    let (e2, job_id, b2) = pop_front_int32 b1 l.job_id in
    let (e3, priority, b3) = pop_front_int32 b2 0 in
    let (e4, remote_task_id, b4) = pop_front_int32 b3 l.remote_task_id in
    let (e5, remote_task_tag, b5) = pop_front_int32 b4 l.remote_task_tag in
    let (e6, results_size, b6) = pop_front_int32 b5 l.results_size in
    let (e7, arguments_size, b7) = pop_front_int32 b6 l.arguments_size in
    (
      record {
        domain_id = domain_id;
        job_id = job_id;
        priority = priority;
        remote_task_id = remote_task_id;
        remote_task_tag = remote_task_tag;
        results_size = results_size;
        arguments_size = arguments_size;
      },
      b7,
    )

-- The head of a message that returns a result.
pub record ResultHead : Type 0 where
  pub task_id : ℕ
  pub task_tag : ℕ
  pub task_status : ℕ
  pub results_size : ℕ

unfoldable pub pop_result : Locals → Buffer → ResultHead × Buffer
pop_result l b0 =
    let (e1, task_id, b1) = pop_front_int32 b0 l.task_id in
    let (e2, task_tag, b2) = pop_front_int32 b1 l.task_tag in
    let (e3, task_status, b3) = pop_front_int32 b2 l.task_status in
    let (e4, results_size, b4) = pop_front_int32 b3 l.results_size in
    (
      record {
        task_id = task_id;
        task_tag = task_tag;
        task_status = task_status;
        results_size = results_size;
      },
      b4,
    )
