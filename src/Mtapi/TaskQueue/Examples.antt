-- ===== src/Mtapi/TaskQueue/Examples.antt =====
-- The task queue at concrete values.
use embb.Common.{◌≡◌, refl, Bool, true, Option, none, some, List, [], ◌∷◌, ℕ, arith}
use embb.Mtapi.TaskQueue.{TaskQueue, initialize_with_capacity, pop, push, process, visit_all, tasks}
use embb.Mtapi.TaskQueue.Fifo.{Op, pops, pushes, run, run_list, run_refines}
use embb.Mtapi.TaskQueue.Process.{process-visit_all, process-push-pop-push}

-- The buffer is full, and goes round.
abbrev full : TaskQueue ℕ
full = record {
  task_buffer = some 7 ∷ some 8 ∷ some 6 ∷ [];
  tasks_available = 3;
  get_task_position = 2;
  put_task_position = 2;
  limit = 3;
}

abbrev calls : List (Op ℕ)
calls = pushes (some 9) ∷ pops ∷ pushes (some 9) ∷ pops ∷ pops ∷ []

run_refines_example : run full calls ≡ run_list 3 (tasks full) calls
run_refines_example = run_refines calls (omega arith)

abbrev two_tasks : TaskQueue ℕ
two_tasks = record {
  task_buffer = some 7 ∷ some 8 ∷ none ∷ [];
  tasks_available = 2;
  get_task_position = 0;
  put_task_position = 2;
  limit = 3;
}

-- A visitor that adds each task to a list and goes on.
abbrev collect : List (Option ℕ) → Option ℕ → Bool × List (Option ℕ)
collect seen task = (true, task ∷ seen)

process-visit_all_test : process collect true two_tasks [] ≡ visit_all collect (tasks two_tasks) []
process-visit_all_test = process-visit_all collect two_tasks [] (omega arith) refl

abbrev memory : List (Option ℕ)
memory = some 0 ∷ some 0 ∷ []

process-push-pop-push_example :
    let q =
      (push true
        (pop true (push true (initialize_with_capacity memory 2) (some 1)).1).1
        (some 2)).1 in
    (tasks q ≡ some 2 ∷ []) × (process collect true q [] ≡ visit_all collect (none ∷ []) [])
process-push-pop-push_example =
    process-push-pop-push collect memory 2 1 2 [] refl (omega arith) (omega arith)
