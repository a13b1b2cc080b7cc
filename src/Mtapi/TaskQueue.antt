-- ===== src/Mtapi/TaskQueue.antt =====
-- mtapi_c/src/embb_mtapi_task_queue_t.c. A pointer to a task is a value of any type `A`, MTAPI_NULL
-- is `none`, and of the queue's attributes the functions read `limit` alone. The lock is modelled
-- by what acquiring it returned to the call, `locked`.
pub mod Valid
pub mod Fifo
pub mod Process
mod Examples
use embb.Common.{
  ℕ, zero, suc, ◌+◌, ◌-◌, ◌*◌, ◌%◌, ◌^◌, List, [], ◌∷◌, ◌++◌, Bool, true, false, Option, none, some,
  get_or, set, length, window, ltb, leb, if◌then◌else◌,
}

abbrev pub uint_mod : ℕ
uint_mod = 2 ^ 32

pub record TaskQueue (A : Type 0) : Type 0 where
  pub task_buffer : List (Option A)
  pub tasks_available : ℕ
  pub get_task_position : ℕ
  pub put_task_position : ℕ
  pub limit : ℕ

-- `position++`, and back to 0 at the limit.
abbrev pub advance : ℕ → ℕ → ℕ
advance limit position =
    let position' = (position + 1) % uint_mod in if leb limit position' then 0 else position'

module _ {A : Type 0} where
  -- `queue_limit` is what mtapi_queueattr_init puts into the attributes.
  pub initialize : ℕ → TaskQueue A
  initialize queue_limit = record {
    task_buffer = [];
    tasks_available = 0;
    get_task_position = 0;
    put_task_position = 0;
    limit = queue_limit;
  }

  -- `memory` is the block that the allocator gave, of `capacity` entries.
  unfoldable pub initialize_with_capacity : List (Option A) → ℕ → TaskQueue A
  initialize_with_capacity memory capacity = record {
    task_buffer = memory;
    tasks_available = 0;
    get_task_position = 0;
    put_task_position = 0;
    limit = capacity;
  }

  pub finalize : ℕ → TaskQueue A → TaskQueue A
  unfolding initialize
  finalize queue_limit q = initialize queue_limit

  unfoldable pub pop : Bool → TaskQueue A → Option A × TaskQueue A
  pop locked q =
      if locked
      then (if ltb 0 q.tasks_available
          then (
            get_or q.task_buffer q.get_task_position none,
            record q {
              tasks_available = q.tasks_available - 1;
              get_task_position = advance q.limit q.get_task_position;
              task_buffer = set q.task_buffer q.get_task_position none;
            },
          )
          else (none, q))
      else (none, q)

  unfoldable pub push : Bool → TaskQueue A → Option A → Bool × TaskQueue A
  push locked q task =
      if locked
      then (if ltb q.tasks_available q.limit
          then (
            true,
            record q {
              put_task_position = advance q.limit q.put_task_position;
              task_buffer = set q.task_buffer q.put_task_position task;
              tasks_available = (q.tasks_available + 1) % uint_mod;
            },
          )
          else (false, q))
      else (false, q)

  -- The tasks in the queue, the next one to be popped first.
  abbrev pub tasks : TaskQueue A → List (Option A)
  tasks q = window q.limit none q.task_buffer q.get_task_position q.tasks_available

-- The loop of `embb_mtapi_task_queue_process` for the rounds left, at index `ii`. The visitor maps a
-- state `S` and what stands in the buffer to its result and the new state. `idx` is computed and
-- never read, so it is left out.
module _ {A S : Type 0} (visit : S → Option A → Bool × S) where
  unfoldable pub process_from : List (Option A) → ℕ → ℕ → S → Bool × S
  process_from buffer zero ii s = (true, s)
  process_from buffer (suc rounds) ii s =
      let (result, s') = visit s (get_or buffer ii none) in
      let rest = process_from buffer rounds (ii + 1) s' in if result then rest else (false, s')

  unfoldable pub process : Bool → TaskQueue A → S → Bool × S
  unfolding process_from
  process locked q s =
      if locked then process_from q.task_buffer q.tasks_available 0 s else (true, s)

  -- A visit of a list of tasks in order, up to the first visit that returns false.
  pub visit_all : List (Option A) → S → Bool × S
  visit_all [] s = (true, s)
  visit_all (task ∷ rest) s =
      let (result, s') = visit s task in
      let others = visit_all rest s' in if result then others else (false, s')
