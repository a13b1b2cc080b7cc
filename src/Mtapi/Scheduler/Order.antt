-- ===== src/Mtapi/Scheduler/Order.antt =====
-- The order in which a worker looks at the queues (mtapi_c/src/embb_mtapi_scheduler_t.c).
use embb.Common.{
  ℕ, zero, suc, ap, ◌∙◌, ◌+◌, ◌-◌, ◌%◌, ◌≡◌, refl, sym, List, [], ◌∷◌, ◌++◌, Option, none, some,
}
use embb.Mtapi.Scheduler.{
  Scheduler, Mode, work_steal_vhpf, work_steal_lf, num_scheduler_modes, or_else, pop_public,
  pop_private, get_private_task_from_context, get_public_task_from_context, steal,
  steal_from_others, vhpf_from, get_next_task_vhpf, private_from, public_from, steal_all_from,
  get_next_task_lf, get_next_task, next_in_mode,
}
use embb.Mtapi.Scheduler.Places.{
  Place, private_of, public_of, ring, others, by_priority, all_private, all_public, all_others,
  places, pop_at, take_first,
}

module _ {A : Type 0} where
  or_else_cong :
      (r : Option A × Scheduler A)
      → {f g : Scheduler A → Option A × Scheduler A} → ((s : Scheduler A) → r.1 ≡ s → f s ≡ g s)
      → or_else r f ≡ or_else r g
  or_else_cong (none, s) e = e s refl
  or_else_cong (some task, s) e = refl

  or_else_assoc :
      (r : Option A × Scheduler A) (f g : Scheduler A → Option A × Scheduler A)
      → or_else (or_else r f) g ≡ or_else r (λ s. or_else (f s) g)
  or_else_assoc (none, s) f g = refl
  or_else_assoc (some task, s) f g = refl

  take_first-append :
      (ps qs : List Place) (s : Scheduler A)
      → take_first (ps ++ qs) s ≡ or_else (take_first ps s) (take_first qs)
  unfolding take_first
  take_first-append [] qs s = refl
  take_first-append (p ∷ ps) qs s =
      or_else_cong (pop_at s p) (λ s' e. take_first-append ps qs s')
      ∙ sym (or_else_assoc (pop_at s p) (take_first ps) (take_first qs))

  worker_count-pop_at : (s : Scheduler A) (p : Place) → (pop_at s p).1.worker_count ≡ s.worker_count
  unfolding pop_at pop_public pop_private
  worker_count-pop_at s (private_of w p) = refl
  worker_count-pop_at s (public_of w p) = refl

  worker_count-or_else :
      (n : ℕ) (r : Option A × Scheduler A) (f : Scheduler A → Option A × Scheduler A)
      → r.1.worker_count ≡ n
      → ((s : Scheduler A) → s.worker_count ≡ n → (f s).1.worker_count ≡ n)
      → (or_else r f).1.worker_count ≡ n
  worker_count-or_else n (none, s) f e h = h s e
  worker_count-or_else n (some task, s) f e h = e

  worker_count-take_first :
      (n : ℕ) (ps : List Place) (s : Scheduler A)
      → s.worker_count ≡ n
      → (take_first ps s).1.worker_count ≡ n
  unfolding take_first
  worker_count-take_first n [] s e = e
  worker_count-take_first n (p ∷ ps) s e =
      worker_count-or_else n (pop_at s p) (take_first ps) (worker_count-pop_at s p ∙ e)
        (worker_count-take_first n ps)

  steal-ring :
      (n priority rounds worker : ℕ) (s : Scheduler A)
      → s.worker_count ≡ n
      → steal priority rounds worker s ≡ take_first (ring n priority rounds worker) s
  unfolding steal ring take_first pop_at
  steal-ring n priority zero worker s e = refl
  steal-ring n priority (suc rounds) worker s e =
      ap (λ k. or_else (pop_public s worker priority) (steal priority rounds ((worker + 1) % k))) e
      ∙ or_else_cong (pop_public s worker priority) λ s' e'.
        steal-ring n priority rounds ((worker + 1) % n) s' (
          ap (λ (x : Scheduler A). x.worker_count) (sym e')
          ∙ worker_count-pop_at s (public_of worker priority)
          ∙ e)

  steal-others :
      (n me priority : ℕ) (s : Scheduler A)
      → s.worker_count ≡ n
      → steal_from_others me priority s ≡ take_first (others n me priority) s
  steal-others n me priority s e =
      ap (λ k. steal priority (k - 1) ((me + 1) % k) s) e
      ∙ steal-ring n priority (n - 1) ((me + 1) % n) s e

  -- One search that goes on with a list of places.
  then_places :
      (n : ℕ) (ps qs : List Place) (s : Scheduler A) (f : Scheduler A → Option A × Scheduler A)
      → s.worker_count ≡ n
      → ((s' : Scheduler A) → s'.worker_count ≡ n → f s' ≡ take_first qs s')
      → or_else (take_first ps s) f ≡ take_first (ps ++ qs) s
  then_places n ps qs s f e h =
      or_else_cong (take_first ps s) (λ s' e'.
        h s' (ap (λ (x : Scheduler A). x.worker_count) (sym e') ∙ worker_count-take_first n ps s e))
      ∙ sym (take_first-append ps qs s)

  vhpf_from-places :
      (n me rounds priority : ℕ) (s : Scheduler A)
      → s.worker_count ≡ n
      → vhpf_from me rounds priority s ≡ take_first (by_priority n me rounds priority) s
  unfolding vhpf_from by_priority take_first pop_at get_private_task_from_context
      get_public_task_from_context
  vhpf_from-places n me zero priority s e = refl
  vhpf_from-places n me (suc rounds) priority s e =
      or_else_cong (pop_private s me priority) λ s' e'.
        let w' =
          ap (λ (x : Scheduler A). x.worker_count) (sym e')
          ∙ worker_count-pop_at s (private_of me priority)
          ∙ e in
        or_else_cong (pop_public s' me priority) λ s'' e''.
          let w'' =
            ap (λ (x : Scheduler A). x.worker_count) (sym e'')
            ∙ worker_count-pop_at s' (public_of me priority)
            ∙ w' in
          ap (λ r. or_else r (vhpf_from me rounds (priority + 1)))
            (steal-others n me priority s'' w'')
          ∙ then_places n (others n me priority) (by_priority n me rounds (priority + 1)) s''
              (vhpf_from me rounds (priority + 1)) w'' (vhpf_from-places n me rounds (priority + 1))

  private_from-places :
      (me rounds priority : ℕ) (s : Scheduler A)
      → private_from me rounds priority s ≡ take_first (all_private me rounds priority) s
  unfolding private_from all_private take_first pop_at get_private_task_from_context
  private_from-places me zero priority s = refl
  private_from-places me (suc rounds) priority s =
      or_else_cong (pop_private s me priority)
        λ s' e'. private_from-places me rounds (priority + 1) s'

  public_from-places :
      (me rounds priority : ℕ) (s : Scheduler A)
      → public_from me rounds priority s ≡ take_first (all_public me rounds priority) s
  unfolding public_from all_public take_first pop_at get_public_task_from_context
  public_from-places me zero priority s = refl
  public_from-places me (suc rounds) priority s =
      or_else_cong (pop_public s me priority)
        λ s' e'. public_from-places me rounds (priority + 1) s'

  steal_all_from-places :
      (n me rounds priority : ℕ) (s : Scheduler A)
      → s.worker_count ≡ n
      → steal_all_from me rounds priority s ≡ take_first (all_others n me rounds priority) s
  unfolding steal_all_from all_others take_first
  steal_all_from-places n me zero priority s e = refl
  steal_all_from-places n me (suc rounds) priority s e =
      ap (λ r. or_else r (steal_all_from me rounds (priority + 1))) (steal-others n me priority s e)
      ∙ then_places n (others n me priority) (all_others n me rounds (priority + 1)) s
          (steal_all_from me rounds (priority + 1)) e
          (steal_all_from-places n me rounds (priority + 1))

  lf-places :
      (n max_priorities me : ℕ) (s : Scheduler A)
      → s.worker_count ≡ n
      → get_next_task_lf max_priorities me s
        ≡ take_first (places work_steal_lf n max_priorities me) s
  unfolding get_next_task_lf places
  lf-places n max_priorities me s e =
      ap
        (λ r.
          or_else r
            λ s'. or_else (public_from me max_priorities 0 s') (steal_all_from me max_priorities 0))
        (private_from-places me max_priorities 0 s)
      ∙ then_places n (all_private me max_priorities 0)
          (all_public me max_priorities 0 ++ all_others n me max_priorities 0) s
          (λ s'. or_else (public_from me max_priorities 0 s') (steal_all_from me max_priorities 0))
          e
          λ s' w'.
            ap (λ r. or_else r (steal_all_from me max_priorities 0))
              (public_from-places me max_priorities 0 s')
            ∙ then_places n (all_public me max_priorities 0) (all_others n me max_priorities 0) s'
                (steal_all_from me max_priorities 0) w'
                (steal_all_from-places n me max_priorities 0)

  next_in_mode-places :
      (mode : Mode) (max_priorities me : ℕ) (s : Scheduler A)
      → next_in_mode mode max_priorities me s
        ≡ take_first (places mode s.worker_count max_priorities me) s
  unfolding next_in_mode get_next_task_vhpf places take_first
  next_in_mode-places work_steal_vhpf max_priorities me s =
      vhpf_from-places s.worker_count me max_priorities 0 s refl
  next_in_mode-places work_steal_lf max_priorities me s =
      lf-places s.worker_count max_priorities me s refl
  next_in_mode-places num_scheduler_modes max_priorities me s = refl

  -- What a worker takes next is the first task at the places of the scheduler's mode: priority by
  -- priority its private queue, its public one and those of the other workers in turn, or first all
  -- its private queues, then all its public ones, then those of the others.
  pub get_next_task-places :
      (max_priorities me : ℕ) (s : Scheduler A)
      → get_next_task max_priorities me s
        ≡ take_first (places s.mode s.worker_count max_priorities me) s
  unfolding get_next_task
  get_next_task-places max_priorities me s = next_in_mode-places s.mode max_priorities me s
