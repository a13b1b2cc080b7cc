-- ===== src/Mtapi/Polling.antt =====
-- The waiting loops of mtapi_c/src/embb_mtapi_scheduler_t.c, embb_mtapi_task_t.c,
-- embb_mtapi_group_t.c, embb_mtapi_action_t.c and embb_mtapi_queue_t.c, which test a condition and
-- the clock and then do other work. A timeout is the milliseconds, or `none` for MTAPI_INFINITE.
pub mod First
mod Examples
use Prim.Native.Nat.{Ordering}
use embb.Common.{ℕ, zero, suc, ◌+◌, Option, none, some, Bool, true, false, if◌then◌else◌}
use embb.Base.Duration.{Duration, set_milliseconds}
use embb.Base.Time.{Time, time_in, compare}

-- `leftover` is what stood in the local variable `wait_duration`.
unfoldable pub deadline : Duration → Option ℕ → Time → Option Time
deadline leftover none now = none
deadline leftover (some timeout) now = some (time_in now (set_milliseconds leftover timeout).1).1

abbrev pub is_greater : Ordering → Bool
is_greater Ordering.gt = true
is_greater _ = false

unfoldable pub timed_out : Option Time → Time → Bool
timed_out none now = false
timed_out (some end_time) now = is_greater (compare now end_time)

module _ {S : Type 0} (step : ℕ → S → S) where
  -- What `n` rounds from round `i` on make of a state.
  unfoldable pub rounds : ℕ → ℕ → S → S
  rounds zero i s = s
  rounds (suc n) i s = rounds n (i + 1) (step i s)

module _ {S : Type 0} (pending : S → Bool) (late : ℕ → Bool) (step : ℕ → S → S) where
  -- The loop from round `i` on, for at most `fuel` tests; `none` while it goes on. The result tells
  -- whether the wait is over, `false` at the timeout.
  unfoldable pub poll : ℕ → ℕ → S → Option (Bool × S)
  poll zero i s = none
  poll (suc fuel) i s =
      let rest = poll fuel (i + 1) (step i s) in
      if pending s then (if late i then some (false, s) else rest) else some (true, s)
