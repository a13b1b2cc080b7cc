-- ===== src/Mtapi/TaskQueue/Fifo.antt =====
-- The task queue is a bounded first-in first-out queue (mtapi_c/src/embb_mtapi_task_queue_t.c).
use embb.Common.{
  ℕ, ◌-◌, ◌<◌, ◌≡◌, refl, Bool, true, false, Option, none, List, [], ◌∷◌, ◌++◌, arith, length, next,
  length-window, window_of_pos, window_of_zero, window-set_outside, window-set_end, if◌then◌else◌,
  ltb, ◌⊎◌,
}
use embb.Mtapi.TaskQueue.{TaskQueue, pop, push, tasks}
use embb.Mtapi.TaskQueue.Valid.{IsValid, pop-IsValid, push-IsValid}

pub data Op (A : Type 0) : Type 0 where
  pops : Op A
  pushes : Option A → Op A

module _ {A : Type 0} where
  -- The abstract queue: a list, oldest task first, of at most `limit` tasks.
  pop_front : List (Option A) → Option A × List (Option A)
  pop_front [] = (none, [])
  pop_front (t ∷ ts) = (t, ts)

  push_back : ℕ → List (Option A) → Option A → Bool × List (Option A)
  push_back limit ts t = if ltb (length ts) limit then (true, ts ++ (t ∷ [])) else (false, ts)

  pub length-tasks : (q : TaskQueue A) → length (tasks q) ≡ q.tasks_available
  length-tasks q = length-window q.limit none q.task_buffer q.get_task_position q.tasks_available

  pub pop-empty : (q : TaskQueue A) → q.tasks_available ≡ 0 → pop true q ≡ (none, q)
  unfolding pop
  pop-empty q e = ground arith

  -- The two outcomes of `pop` on a valid queue.
  pub pop_cases :
      {q : TaskQueue A}
      → IsValid q
      → let (t, q') = pop true q in
        ((tasks q ≡ []) × (t ≡ none) × (q' ≡ q)) ⊎ ((tasks q ≡ t ∷ tasks q') × (q'.limit ≡ q.limit))
  unfolding pop
  pop_cases {q} v = ground (
    arith,
    window_of_pos q.limit none buffer h n,
    window_of_zero q.limit none buffer h n,
    window-set_outside q.limit none buffer none (next q.limit h) (n - 1) (q.limit - 1) h,
  )
    where
      open q use {task_buffer as buffer, get_task_position as h, tasks_available as n}

  pub push_cases :
      {q : TaskQueue A} (t : Option A)
      → IsValid q
      → let (done, q') = push true q t in
        ((length (tasks q) ≡ q.limit) × (done ≡ false) × (q' ≡ q))
        ⊎ ((length (tasks q) < q.limit)
            × (done ≡ true)
            × (tasks q' ≡ tasks q ++ (t ∷ []))
            × (q'.limit ≡ q.limit))
  unfolding push
  push_cases {q} t v = ground (
    arith,
    length-tasks q,
    window-set_end q.limit none q.task_buffer t q.get_task_position q.tasks_available
        q.put_task_position,
  )

  -- The calls of a client in order, with what each returns: the task of a pop, the result of a push.
  pub run : TaskQueue A → List (Op A) → List (Option A × Bool)
  run q [] = []
  run q (pops ∷ ops) = let (t, q') = pop true q in (t, true) ∷ run q' ops
  run q (pushes t ∷ ops) = let (done, q') = push true q t in (none, done) ∷ run q' ops

  pub run_list : ℕ → List (Option A) → List (Op A) → List (Option A × Bool)
  run_list limit ts [] = []
  run_list limit ts (pops ∷ ops) = let (t, ts') = pop_front ts in (t, true) ∷ run_list limit ts' ops
  run_list limit ts (pushes t ∷ ops) =
      let (done, ts') = push_back limit ts t in (none, done) ∷ run_list limit ts' ops

  pop_refines :
      {q : TaskQueue A}
      → IsValid q
      → let (t, q') = pop true q in ((t, tasks q') ≡ pop_front (tasks q)) × (q'.limit ≡ q.limit)
  unfolding pop_front
  pop_refines v = ground (arith, pop_cases v)

  push_refines :
      {q : TaskQueue A} (t : Option A)
      → IsValid q
      → let (done, q') = push true q t in
        ((done, tasks q') ≡ push_back q.limit (tasks q) t) × (q'.limit ≡ q.limit)
  unfolding push_back
  push_refines t v = ground (arith, push_cases t v)

  -- Every sequence of pushes and pops on a valid task queue returns what the same sequence returns
  -- on a list that is popped at the front and pushed at the back, and that refuses a push at `limit`
  -- tasks.
  pub run_refines :
      (ops : List (Op A)) {q : TaskQueue A} → IsValid q → run q ops ≡ run_list q.limit (tasks q) ops
  unfolding run run_list
  run_refines [] v = refl
  run_refines (pops ∷ ops) v =
      rw (run_refines ops (pop-IsValid true v), ← (pop_refines v).0, (pop_refines v).1)
  run_refines (pushes t ∷ ops) v =
      rw (run_refines ops (push-IsValid true t v), ← (push_refines t v).0, (push_refines t v).1)
