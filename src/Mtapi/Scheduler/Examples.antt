-- ===== src/Mtapi/Scheduler/Examples.antt =====
-- Two workers; the second finds a task in the public queue of the first.
use embb.Common.{true, ℕ, zero, suc, ◌≡◌, inl, inr, refl, [], ◌∷◌, none, some, arith}
use embb.Mtapi.TaskQueue
use embb.Mtapi.TaskQueue.{TaskQueue}
use embb.Mtapi.Scheduler.{
  Scheduler, work_steal_vhpf, get_next_task, pop_private, pop_public, get_next_task_vhpf,
  next_in_mode, vhpf_from, steal, get_private_task_from_context, get_public_task_from_context,
}
use embb.Mtapi.Scheduler.Places.{places, take_first}
use embb.Mtapi.Scheduler.Order.{get_next_task-places}
use embb.Mtapi.Scheduler.Search.{
  AllProper, IsProper, has_null, first_busy, take_from, get_next_task-first_busy,
}

abbrev empty_queue : TaskQueue ℕ
empty_queue = record {
  task_buffer = none ∷ none ∷ [];
  tasks_available = 0;
  get_task_position = 0;
  put_task_position = 0;
  limit = 2;
}

-- Task 7 waits.
abbrev one_task : TaskQueue ℕ
one_task = record {
  task_buffer = some 7 ∷ none ∷ [];
  tasks_available = 1;
  get_task_position = 0;
  put_task_position = 1;
  limit = 2;
}

abbrev workers : Scheduler ℕ
workers = record {
  worker_count = 2;
  worker_contexts =
      record { queue = one_task ∷ []; private_queue = empty_queue ∷ [] }
      ∷ record { queue = empty_queue ∷ []; private_queue = empty_queue ∷ [] }
      ∷ [];
  mode = work_steal_vhpf;
  affine_task_counter = 0;
  gets_lock = λ public worker priority. true;
}

stolen : (get_next_task 1 1 workers).0 ≡ some 7
unfolding get_next_task next_in_mode get_next_task_vhpf vhpf_from steal
    get_private_task_from_context get_public_task_from_context pop_private pop_public TaskQueue.pop
stolen = refl

one_task-IsProper : IsProper one_task
unfolding has_null
one_task-IsProper = inr (omega arith, refl)

workers-AllProper : AllProper workers
workers-AllProper zero zero = (one_task-IsProper, inl refl)
workers-AllProper zero (suc priority) = (inl refl, inl refl)
workers-AllProper (suc zero) zero = (inl refl, inl refl)
workers-AllProper (suc zero) (suc priority) = (inl refl, inl refl)
workers-AllProper (suc (suc worker)) priority = (inl refl, inl refl)

get_next_task-first_busy_example :
    let order = places work_steal_vhpf 2 1 1 in
    get_next_task 1 1 workers ≡ take_from (first_busy order workers) workers
get_next_task-first_busy_example = get_next_task-first_busy 1 1 workers workers-AllProper

get_next_task-places_example :
    get_next_task 1 1 workers ≡ take_first (places work_steal_vhpf 2 1 1) workers
get_next_task-places_example = get_next_task-places 1 1 workers
