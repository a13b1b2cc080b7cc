-- ===== src/Mtapi/TaskQueue/Valid.antt =====
-- The representation invariant of the task queue (mtapi_c/src/embb_mtapi_task_queue_t.c).
use embb.Common.{ℕ, ◌≤◌, ◌<◌, ◌≡◌, Bool, List, Option, none, arith, length, length-set, AtDistance}
use embb.Mtapi.TaskQueue.{TaskQueue, uint_mod, initialize_with_capacity, pop, push}

-- The positions lie in the buffer, and `put_task_position` stands `tasks_available` entries behind
-- `get_task_position`.
pub record IsValid {A : Type 0} (q : TaskQueue A) : Type 0 where
  pub buffer_length : length q.task_buffer ≡ q.limit
  pub small : q.limit < uint_mod
  pub within : q.tasks_available ≤ q.limit
  pub get_in : q.get_task_position < q.limit
  pub put_in : q.put_task_position < q.limit
  pub distance : AtDistance q.limit q.get_task_position q.tasks_available q.put_task_position

module _ {A : Type 0} where
  pub initialize_with_capacity-IsValid :
      (memory : List (Option A)) (capacity : ℕ)
      → length memory ≡ capacity
      → capacity < uint_mod
      → 0 < capacity
      → IsValid (initialize_with_capacity memory capacity)
  unfolding initialize_with_capacity
  initialize_with_capacity-IsValid memory capacity e h pos = ground arith

  pub pop-IsValid : (locked : Bool) {q : TaskQueue A} → IsValid q → IsValid (pop locked q).1
  unfolding pop
  pop-IsValid locked {q} v = ground (arith, length-set q.task_buffer q.get_task_position none)

  pub push-IsValid :
      (locked : Bool) {q : TaskQueue A} (task : Option A)
      → IsValid q
      → IsValid (push locked q task).1
  unfolding push
  push-IsValid locked {q} task v = ground (arith, length-set q.task_buffer q.put_task_position task)
