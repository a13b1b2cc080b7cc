-- ===== src/Mtapi/Job/Examples.antt =====
-- A job of three actions, and a list of two jobs.
use embb.Common.{
  ◌+◌, ◌-◌, ◌<◌, ◌≡◌, ◌⊎◌, refl, true, false, [], ◌∷◌, arith, ◌==◌, if◌then◌else◌, get_or,
}
use embb.Mtapi.Status.{success}
use embb.Mtapi.Pool.{Handle}
use embb.Mtapi.Job.{
  Job, no_handle, no_job, same_handle, add_action, remove_action, replace_from, initialize_list,
  get, is_handle_valid,
}
use embb.Mtapi.Job.Remove.{IsValid, get_or-remove_action, get_or-add_action, is_handle_valid-get}

abbrev a : Handle
a = record { tag = 0; id = 1 }

abbrev b : Handle
b = record { tag = 2; id = 2 }

abbrev c : Handle
c = record { tag = 1; id = 3 }

abbrev three : Job
three = record {
  handle = record { tag = 0; id = 1 };
  domain_id = 1;
  node_id = 1;
  num_actions = 3;
  max_actions = 4;
  actions = a ∷ b ∷ c ∷ no_handle ∷ [];
}

-- The first action goes, and the last takes its place.
remove-first : (remove_action three a).actions ≡ c ∷ b ∷ c ∷ no_handle ∷ []
unfolding remove_action replace_from
remove-first = refl

-- An action that the job does not have takes the last one with it.
remove-absent : (remove_action three no_handle).num_actions ≡ 2
unfolding remove_action replace_from
remove-absent = refl

get_or-remove_action_example :
    let j' = remove_action three no_handle in
    IsValid j'
    × (j'.num_actions + 1 ≡ three.num_actions)
    × (get_or j'.actions 0 no_handle ≡ (
        if same_handle (get_or three.actions 0 no_handle) no_handle
        then get_or three.actions (three.num_actions - 1) no_handle
        else get_or three.actions 0 no_handle))
get_or-remove_action_example = get_or-remove_action no_handle 0 (omega arith) (omega arith)

get_or-add_action_test :
    let (done, j') = add_action three 1 1 b in
    ((three.num_actions ≡ three.max_actions) × (done ≡ false) × (j' ≡ three))
    ⊎ ((three.num_actions < three.max_actions)
        × (done ≡ true)
        × IsValid j'
        × (j'.num_actions ≡ three.num_actions + 1)
        × (get_or j'.actions 3 no_handle
            ≡ (if 3 == three.num_actions then b else get_or three.actions 3 no_handle)))
get_or-add_action_test = get_or-add_action 1 1 b 3 (omega arith)

is_handle_valid-get_test :
    let job_list = initialize_list (λ ii. a ∷ []) 1 0 (no_job ∷ no_job ∷ no_job ∷ []) in
    let (status, handle) = get true 2 job_list 2 in
    (status ≡ success) × (handle.id ≡ 2) × (is_handle_valid 2 job_list handle ≡ true)
is_handle_valid-get_test =
    is_handle_valid-get (λ ii. a ∷ []) 1 2 2 (no_job ∷ no_job ∷ no_job ∷ []) refl (omega arith)
      (omega arith)
