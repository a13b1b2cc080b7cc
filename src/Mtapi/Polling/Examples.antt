-- ===== src/Mtapi/Polling/Examples.antt =====
-- A wait that counts down from 2, and a deadline of a second.
use embb.Common.{
  ℕ, zero, suc, ◌+◌, ◌-◌, ◌*◌, ◌<◌, ◌≡◌, inl, refl, Bool, true, false, not, ltb, some, arith,
}
use embb.Base.Duration.{Duration}
use embb.Base.Time.{Time, instant}
use embb.Mtapi.Polling.{deadline, timed_out, poll, rounds}
use embb.Mtapi.Polling.First.{timed_out-deadline, poll-first}

abbrev start : Time
start = record { seconds = 5; nanoseconds = 0 }

abbrev later : Time
later = record { seconds = 6; nanoseconds = 1 }

abbrev leftover : Duration
leftover = record { seconds = 0; nanoseconds = 0 }

timed_out-deadline_test :
    timed_out (deadline leftover (some 1000) start) later
    ≡ ltb (instant start + 1000 * 1000000) (instant later)
timed_out-deadline_test =
    timed_out-deadline leftover 1000 start later (omega arith) (omega arith) (omega arith)
      (omega arith)

abbrev step : ℕ → ℕ → ℕ
step i n = n - 1

abbrev pending : ℕ → Bool
pending n = ltb 0 n

before : (n : ℕ) → n < 1 → (pending (rounds step n 0 1) ≡ true) × (false ≡ false)
unfolding rounds
before zero h = (refl, refl)
before (suc n) h = absurd (omega arith)

poll-first_test :
    poll pending (λ i. false) step 5 0 1
    ≡ some (not (pending (rounds step 1 0 1)), rounds step 1 0 1)
unfolding rounds
poll-first_test = poll-first pending (λ i. false) step 1 5 1 (omega arith) before (inl refl)
