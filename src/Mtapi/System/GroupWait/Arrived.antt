-- ===== src/Mtapi/System/GroupWait/Arrived.antt =====
-- The tasks that have arrived in a group (mtapi_c/src/embb_mtapi_group_t.c).
use embb.Common.{
  ℕ, suc, ap, ◌∙◌, ◌+◌, ◌<◌, ◌≡◌, refl, List, [], ◌∷◌, map, Option, some, Bool, true, arith, length,
}
use embb.Mtapi.Status.{Status}
use embb.Mtapi.IdPool.{uint_mod}
use embb.Mtapi.Pool
use embb.Mtapi.Pool.{Handle}
use embb.Mtapi.Pool.Modify.{get_object-modify, length-modify}
use embb.Mtapi.Objects.{Group}
use embb.Mtapi.Group.{group_at, no_group}
use embb.Mtapi.TaskQueue
use embb.Mtapi.TaskQueue.{TaskQueue}
use embb.Mtapi.TaskQueue.Valid.{IsValid, pop-IsValid}
use embb.Mtapi.TaskQueue.Fifo.{pop_cases}
use embb.Mtapi.Polling.{poll}
use embb.Mtapi.Task.{Task}
use embb.Mtapi.System.{System, task_at, no_task, down}
use embb.Mtapi.System.Wait.{World, is_late, get_current_thread_context}
use embb.Mtapi.System.GroupWait.{
  change_group, pop_arrived, discard_arrived, worse, after_pop, drain, is_none, wait_any_round,
  after_any, wait_any,
}

-- The group at an index of the pool has a valid queue of these tasks.
pub record Holds (s : System) (group : ℕ) (ts : List ℕ) : Type 0 where
  pub inside : group < length s.node.group_pool.storage
  pub valid : IsValid (group_at s.node group).queue
  pub waiting : TaskQueue.tasks (group_at s.node group).queue ≡ map some ts

abbrev pub count : ℕ → System → ℕ
count group s = (group_at s.node group).num_tasks

change_group-group_at :
    (group : ℕ) (change : Group → Group) (s : System)
    → group < length s.node.group_pool.storage
    → let s' = change_group group change s in
      (group_at s'.node group ≡ change (group_at s.node group))
      × (group < length s'.node.group_pool.storage)
change_group-group_at group change s h = (
  get_object-modify s.node.group_pool group change no_group h,
  omega (arith, (length-modify s.node.group_pool group change).0),
)

pop_arrived-front :
    (group t : ℕ) (ts : List ℕ) (s : System)
    → Holds s group (t ∷ ts)
    → let (task, s') = pop_arrived true group s in
      (task ≡ some t)
      × Holds s' group ts
      × (count group s' ≡ count group s)
      × (s'.task_pool ≡ s.task_pool)
unfolding pop_arrived
pop_arrived-front group t ts s h =
    let q = (group_at s.node group).queue in
    let q' = (TaskQueue.pop true q).1 in
    let at = change_group-group_at group (λ (g : Group). record g { queue = q' }) s h.inside in
    let cases = pop_cases h.valid in
    let waiting = h.waiting in
    let split : ((TaskQueue.pop true q).0 ≡ some t) × (TaskQueue.tasks q' ≡ map some ts) =
      ground arith in
    let same = ap (λ (g : Group). g.queue) at.0 in
    (
      split.0,
      record {
        inside = at.1;
        valid = rw same (pop-IsValid true h.valid);
        waiting = ap TaskQueue.tasks same ∙ split.1;
      },
      ap (λ (g : Group). g.num_tasks) at.0,
      refl,
    )

discard_arrived-count :
    (group t : ℕ) (ts : List ℕ) (s : System)
    → Holds s group ts
    → let s' = discard_arrived group t s in
      Holds s' group ts × (count group s' ≡ down (count group s))
unfolding discard_arrived
discard_arrived-count group t ts s h =
    let less = λ (g : Group). record g { num_tasks = down g.num_tasks } in
    let at = change_group-group_at group less s h.inside in
    let same = ap (λ (g : Group). g.queue) at.0 in
    (
      record {
        inside = at.1;
        valid = rw same h.valid;
        waiting = ap TaskQueue.tasks same ∙ h.waiting;
      },
      ap (λ (g : Group). g.num_tasks) at.0,
    )

-- A drain whose pops all get the lock, of a group of a valid queue of tasks that counts n tasks more
-- than those, fewer than 2^32 in all, takes all of them: it leaves the queue empty and the count n.
pub count-drain :
    (locks : ℕ → Bool) (group n : ℕ) (ts : List ℕ) (j : ℕ) (status : Status) (s : System)
    → ((i : ℕ) → locks i ≡ true)
    → Holds s group ts
    → count group s ≡ n + length ts
    → n + length ts < uint_mod
    → let (status', s') = drain locks group (length ts) j (status, s) in
      (TaskQueue.tasks (group_at s'.node group).queue ≡ []) × (count group s' ≡ n)
unfolding drain
count-drain locks group n [] j status s free h e small = (h.waiting, ground arith)
count-drain locks group n (t ∷ ts) j status s free h e small =
    let popped = pop_arrived-front group t ts s h in
    let s1 = (pop_arrived true group s).1 in
    let less = discard_arrived-count group t ts s1 popped.1 in
    let s2 = discard_arrived group t s1 in
    let status' = worse status (task_at s1 t).error_code in
    let fits : count group s2 ≡ n + length ts = ground arith in
    let rest = count-drain locks group n ts (j + 1) status' s2 free less.0 fits (omega arith) in
    let pair : pop_arrived (locks j) group s ≡ (some t, s1) =
      ap (λ b. pop_arrived b group s) (free j) ∙ ap (λ (x : Option ℕ). (x, s1)) popped.0 in
    let step = ap (λ p. after_pop group status p (drain locks group (length ts) (j + 1))) pair in
    rw step rest

after_any-poll :
    (w : World) (locks : ℕ → Bool) (context : Option ℕ) (limit : Option ℕ) (fuel group t : ℕ)
    (s : System)
    → after_any group (
        poll is_none
          (is_late w limit)
          (wait_any_round w locks context group)
          (suc fuel)
          0
          (some t, s))
      ≡ some ((task_at s t).error_code, some (task_at s t).result_buffer, discard_arrived group t s)
unfolding poll after_any
after_any-poll w locks context limit fuel group t s = refl

wait_any-poll :
    (w : World) (locks : ℕ → Bool) (fuel : ℕ) (s : System) (group : Handle) (limit : Option ℕ)
    → s.node.is_initialized ≡ true
    → Pool.is_handle_valid s.node.group_pool group ≡ true
    → 0 < count group.id s
    → wait_any w locks fuel s group limit
      ≡ after_any group.id (
          poll is_none
            (is_late w limit)
            (wait_any_round w locks (get_current_thread_context w s) group.id)
            fuel
            0
            (pop_arrived (locks 0) group.id s))
unfolding wait_any
wait_any-poll w locks fuel s group limit init valid some_left = ground arith

-- On an initialised node, a wait for any task of a valid handle's group that counts a task and has
-- tasks waiting, in a valid queue whose lock the first pop gets, returns at once with any fuel but 0:
-- with the error code and the buffer of the first of them, which the group's queue has no longer, and
-- the group counts one task less, modulo 2^32.
pub wait_any-arrived :
    (w : World) (locks : ℕ → Bool) (fuel : ℕ) (s : System) (group : Handle) (limit : Option ℕ)
    (t : ℕ) (ts : List ℕ)
    → s.node.is_initialized ≡ true
    → Pool.is_handle_valid s.node.group_pool group ≡ true
    → 0 < count group.id s
    → Holds s group.id (t ∷ ts)
    → locks 0 ≡ true
    → let that = task_at s t in
      (s' : System) × (wait_any w locks (suc fuel) s group limit
        ≡ some (that.error_code, some that.result_buffer, s'))
      × (TaskQueue.tasks (group_at s'.node group.id).queue ≡ map some ts)
      × (count group.id s' ≡ down (count group.id s))
wait_any-arrived w locks fuel s group limit t ts init valid counted h free =
    let popped = pop_arrived-front group.id t ts s h in
    let s1 = (pop_arrived true group.id s).1 in
    let less = discard_arrived-count group.id t ts s1 popped.1 in
    let pair : pop_arrived (locks 0) group.id s ≡ (some t, s1) =
      ap (λ b. pop_arrived b group.id s) free ∙ ap (λ (x : Option ℕ). (x, s1)) popped.0 in
    let context = get_current_thread_context w s in
    let first =
      wait_any-poll w locks (suc fuel) s group limit init valid counted
      ∙ ap
          (λ p. after_any group.id (
            poll is_none (is_late w limit) (wait_any_round w locks context group.id) (suc fuel) 0
              p))
          pair
      ∙ after_any-poll w locks context limit fuel group.id t s1 in
    let same : task_at s1 t ≡ task_at s t = ap (λ p. Pool.get_object p t no_task) popped.3 in
    let s' = discard_arrived group.id t s1 in
    (
      s',
      first ∙ ap (λ (x : Task). some (x.error_code, some x.result_buffer, s')) same,
      less.0.waiting,
      less.1 ∙ ap down popped.2,
    )
