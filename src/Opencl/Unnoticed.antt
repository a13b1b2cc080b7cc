-- ===== src/Opencl/Unnoticed.antt =====
-- The group of a task that runs as a kernel (mtapi_opencl_c/src/embb_mtapi_opencl.c).
use embb.Common.{ℕ, zero, suc, ap, ◌∙◌, ◌+◌, ◌<◌, ◌≡◌, refl, none, Bool, true, arith}
use embb.Base.Time.{Time}
use embb.Mtapi.Status.{Status, success}
use embb.Mtapi.Pool
use embb.Mtapi.Pool.{Handle}
use embb.Mtapi.Group.{group_at}
use embb.Mtapi.Node.{Node}
use embb.Mtapi.Polling.{poll, deadline, timed_out}
use embb.Mtapi.System.{System}
use embb.Mtapi.System.Wait.{World, is_late, other_work, context_from, get_current_thread_context}
use embb.Mtapi.System.Worker.{execute_task_or_yield}
use embb.Mtapi.System.GroupWait.{drain, wait_all_round, has_tasks, after_all, wait_all}
use embb.Opencl.{Opencl, opencl_task_complete}

-- A thread that is no worker waits, while the other threads do nothing but the callbacks of kernels:
-- in each round that for the OpenCL task at an address.
abbrev pub only_callbacks : (ℕ → ℕ) → Opencl → (ℕ → Time) → World
only_callbacks address w clock = record {
  tss = λ worker. none;
  outcome = λ task. success;
  leftover = record { seconds = 0; nanoseconds = 0 };
  start = clock 0;
  clock = clock;
  others = λ i s. (opencl_task_complete (record w { system = s }) (address i)).system;
}

opencl_task_complete-node :
    (w : Opencl) (address : ℕ) → (opencl_task_complete w address).system.node ≡ w.system.node
unfolding opencl_task_complete
opencl_task_complete-node w address = ground arith

context_from-none : (rounds ii : ℕ) → context_from (λ worker. none) rounds ii ≡ none
unfolding context_from
context_from-none zero ii = refl
context_from-none (suc rounds) ii = context_from-none rounds (ii + 1)

-- A round changes nothing of the node where no task waits in the group's queue.
wait_all_round-node :
    (address : ℕ → ℕ) (w : Opencl) (clock : ℕ → Time) (locks : ℕ → ℕ → Bool) (group i : ℕ)
    (status : Status) (s : System)
    → (group_at s.node group).queue.tasks_available ≡ 0
    → (wait_all_round (only_callbacks address w clock) locks none group i (status, s)).1.node
      ≡ s.node
unfolding wait_all_round other_work execute_task_or_yield drain
wait_all_round-node address w clock locks group i status s e =
    let p = drain (locks i) group (group_at s.node group).queue.tasks_available 0 (status, s) in
    let idle = ap (λ n. (drain (locks i) group n 0 (status, s)).1.node) e in
    opencl_task_complete-node (record w { system = p.1 }) (address i) ∙ idle

-- The waiting loop, from a round on, at a node whose group counts a task and has none waiting.
poll-endless :
    (address : ℕ → ℕ) (w : Opencl) (clock : ℕ → Time) (locks : ℕ → ℕ → Bool) (group fuel i : ℕ)
    (p : Status × System)
    → 0 < (group_at p.1.node group).num_tasks
    → (group_at p.1.node group).queue.tasks_available ≡ 0
    → let world = only_callbacks address w clock in
      poll (has_tasks group) (is_late world none) (wait_all_round world locks none group) fuel i p
      ≡ none
unfolding poll is_late deadline timed_out
poll-endless address w clock locks group zero i p some_left e = refl
poll-endless address w clock locks group (suc fuel) i (status, s) some_left e =
    let world = only_callbacks address w clock in
    let p' = wait_all_round world locks none group i (status, s) in
    let same = wait_all_round-node address w clock locks group i status s e in
    let left : (group_at p'.1.node group).num_tasks ≡ (group_at s.node group).num_tasks =
      ap (λ (n : Node). (group_at n group).num_tasks) same in
    let none_waits : (group_at p'.1.node group).queue.tasks_available ≡ 0 =
      ap (λ (n : Node). (group_at n group).queue.tasks_available) same ∙ e in
    let rest =
      poll-endless address w clock locks group fuel (i + 1) p' (omega (arith, left)) none_waits in
    ground (arith, rest)

-- On an initialised node, a wait without a timeout, of a thread that is no worker, for all tasks of
-- a valid handle's group that counts a task and has none waiting never returns, whatever the fuel,
-- where the other threads do nothing but call the callbacks of kernels, also those of the group's
-- tasks: a kernel that has run completes its task, but the task does not get into the queue of its
-- group.
pub wait_all-unnoticed :
    (address : ℕ → ℕ) (w : Opencl) (clock : ℕ → Time) (locks : ℕ → ℕ → Bool) (fuel : ℕ)
    (group : Handle)
    → w.system.node.is_initialized ≡ true
    → Pool.is_handle_valid w.system.node.group_pool group ≡ true
    → 0 < (group_at w.system.node group.id).num_tasks
    → (group_at w.system.node group.id).queue.tasks_available ≡ 0
    → wait_all (only_callbacks address w clock) locks fuel w.system group none ≡ none
unfolding wait_all after_all get_current_thread_context
wait_all-unnoticed address w clock locks fuel group open_node valid some_left e =
    let world = only_callbacks address w clock in
    let idle = context_from-none w.system.scheduler.worker_count 0 in
    let endless =
      ap
        (λ c.
          poll (has_tasks group.id) (is_late world none) (wait_all_round world locks c group.id)
            fuel 0 (success, w.system))
        idle
      ∙ poll-endless address w clock locks group.id fuel 0 (success, w.system) some_left e in
    ground (arith, endless)
