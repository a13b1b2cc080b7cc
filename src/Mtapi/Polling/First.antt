-- ===== src/Mtapi/Polling/First.antt =====
-- When a waiting loop ends (mtapi_c/src/embb_mtapi_scheduler_t.c).
use embb.Common.{
  ℕ, zero, suc, ap, ◌∙◌, ◌+◌, ◌*◌, ◌≤◌, ◌<◌, ◌≡◌, ◌⊎◌, some, Bool, true, false, not, ltb, arith,
}
use embb.Base.Duration.{Duration, second, ull_mod, max_seconds, set_milliseconds}
use embb.Base.Duration.Convert.{as_milliseconds-set_milliseconds}
use embb.Base.Time.{Time, IsTime, instant}
use embb.Base.Time.Laws.{compare-time_in}
use embb.Mtapi.Polling.{deadline, timed_out, poll, rounds}

-- A deadline set from a normalised clock time for a timeout of up to a week, where the sum is below
-- 2^64 seconds, is over at a normalised clock time just when more than the timeout has passed.
pub timed_out-deadline :
    (leftover : Duration) (timeout : ℕ) (start now : Time)
    → IsTime start
    → IsTime now
    → timeout ≤ max_seconds * 1000
    → instant start + timeout * 1000000 < ull_mod * second
    → timed_out (deadline leftover (some timeout) start) now
      ≡ ltb (instant start + timeout * 1000000) (instant now)
unfolding timed_out deadline
timed_out-deadline leftover timeout start now hs hn week fits =
    let set = as_milliseconds-set_milliseconds leftover timeout 0 (omega arith) in
    let d = (set_milliseconds leftover timeout).1 in
    ground (arith, compare-time_in start now d hs hn)

module _ {S : Type 0} (pending : S → Bool) (late : ℕ → Bool) (step : ℕ → S → S) where
  poll-from :
      (k fuel i : ℕ) (s : S)
      → k < fuel
      → ((n : ℕ) → n < k → (pending (rounds step n i s) ≡ true) × (late (i + n) ≡ false))
      → (pending (rounds step k i s) ≡ false) ⊎ (late (i + k) ≡ true)
      → poll pending late step fuel i s
        ≡ some (not (pending (rounds step k i s)), rounds step k i s)
  unfolding poll rounds
  poll-from k zero i s h before now = absurd (omega arith)
  poll-from zero (suc fuel) i s h before now = ground (arith, ap late {x = i + 0} {y = i})
  poll-from (suc k) (suc fuel) i s h before now =
      let same = λ (n : ℕ). ap late {x = i + 1 + n} {y = i + suc n} (omega arith) in
      let rest =
        poll-from k fuel (i + 1) (step i s) (omega arith)
          (λ n l. let b = before (suc n) (omega arith) in (b.0, same n ∙ b.1)) in
      ground (arith, before 0 (omega arith), same k, ap late {x = i + 0} {y = i})

  -- Where the condition of a waiting loop holds and the timeout has not passed at the first k tests,
  -- and one of them fails at the test after them, the loop ends at that test for any fuel of more
  -- than k, and the wait is over, or timed out, as the condition then says.
  pub poll-first :
      (k fuel : ℕ) (s : S)
      → k < fuel
      → ((n : ℕ) → n < k → (pending (rounds step n 0 s) ≡ true) × (late n ≡ false))
      → (pending (rounds step k 0 s) ≡ false) ⊎ (late k ≡ true)
      → poll pending late step fuel 0 s
        ≡ some (not (pending (rounds step k 0 s)), rounds step k 0 s)
  poll-first k fuel s h before now =
      let same = λ (n : ℕ). ap late {x = 0 + n} {y = n} (omega arith) in
      poll-from k fuel 0 s h (λ n l. let b = before n l in (b.0, same n ∙ b.1))
        (ground (arith, same k))
