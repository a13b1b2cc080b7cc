-- ===== src/Mtapi/Job/Remove.antt =====
-- The actions of a job (mtapi_c/src/embb_mtapi_job_t.c).
use embb.Common.{
  ℕ, zero, suc, ◌+◌, ◌-◌, ◌≤◌, ◌<◌, ◌≡◌, ◌⊎◌, refl, ap, ◌∙◌, true, false, List, [], ◌∷◌, arith,
  ◌==◌, if◌then◌else◌, length, get_or, set, length-set, get_or-set_self, get_or-set_ne,
}
use embb.Mtapi.Status.{success}
use embb.Mtapi.IdPool.{uint_mod}
use embb.Mtapi.Pool.{Handle}
use embb.Mtapi.Job.{
  Job, no_handle, no_job, same_handle, initialize_list, add_action, remove_action, replace_from,
  is_handle_valid, is_id_valid, get_storage_for_id, get,
}

pub record IsValid (j : Job) : Type 0 where
  pub block : length j.actions ≡ j.max_actions
  pub within : j.num_actions ≤ j.max_actions
  pub small : j.max_actions < uint_mod

abbrev action_at : Job → ℕ → Handle
action_at j i = get_or j.actions i no_handle

get_or-replace_out :
    (action : Handle) (last rounds ii k : ℕ) (actions : List Handle)
    → (k < ii) ⊎ (ii + rounds ≤ k)
    → get_or (replace_from action last rounds ii actions) k no_handle ≡ get_or actions k no_handle
unfolding replace_from
get_or-replace_out action last zero ii k actions h = refl
get_or-replace_out action last (suc rounds) ii k actions h =
    let next =
      if same_handle (get_or actions ii no_handle) action
      then set actions ii (get_or actions last no_handle)
      else actions in
    ground (
      arith,
      get_or-replace_out action last rounds (ii + 1) k next,
      get_or-set_ne actions {i = ii} {j = k} (get_or actions last no_handle) no_handle
          (omega arith),
    )

length-replace :
    (action : Handle) (last rounds ii : ℕ) (actions : List Handle)
    → length (replace_from action last rounds ii actions) ≡ length actions
unfolding replace_from
length-replace action last zero ii actions = refl
length-replace action last (suc rounds) ii actions =
    let next =
      if same_handle (get_or actions ii no_handle) action
      then set actions ii (get_or actions last no_handle)
      else actions in
    ground (
      arith,
      length-replace action last rounds (ii + 1) next,
      length-set actions ii (get_or actions last no_handle),
    )

get_or-replace_in :
    (action : Handle) (last rounds ii k : ℕ) (actions : List Handle)
    → ii ≤ k
    → k < ii + rounds
    → ii + rounds ≤ last
    → last < length actions
    → get_or (replace_from action last rounds ii actions) k no_handle ≡ (
        if same_handle (get_or actions k no_handle) action
        then get_or actions last no_handle
        else get_or actions k no_handle)
unfolding replace_from
get_or-replace_in action last zero ii k actions h l m n = absurd (omega arith)
get_or-replace_in action last (suc rounds) ii k actions h l m n =
    let value = get_or actions last no_handle in
    let next =
      if same_handle (get_or actions ii no_handle) action then set actions ii value else actions in
    ground (
      arith,
      get_or-replace_in action last rounds (ii + 1) k next,
      get_or-replace_out action last rounds (ii + 1) k next,
      get_or-set_self actions ii value no_handle,
      length-set actions ii value,
      get_or-set_ne actions {i = ii} {j = k} value no_handle,
      get_or-set_ne actions {i = ii} {j = last} value no_handle (omega arith),
    )

-- remove_action on a valid job of more than k + 1 actions keeps it valid and leaves one action
-- less, and index k then holds what it held, but the last action where it held the one removed.
pub get_or-remove_action :
    {j : Job} (action : Handle) (k : ℕ)
    → IsValid j
    → k + 1 < j.num_actions
    → let j' = remove_action j action in
      IsValid j'
      × (j'.num_actions + 1 ≡ j.num_actions)
      × (get_or j'.actions k no_handle ≡ (
          if same_handle (get_or j.actions k no_handle) action
          then get_or j.actions (j.num_actions - 1) no_handle
          else get_or j.actions k no_handle))
unfolding remove_action
get_or-remove_action {j} action k v h = ground (
  arith,
  get_or-replace_in action (j.num_actions - 1) (j.num_actions - 1) 0 k j.actions,
  length-replace action (j.num_actions - 1) (j.num_actions - 1) 0 j.actions,
)

-- add_action on a valid job fails and changes nothing where it has max_actions, and else puts the
-- action behind the others, which stay, and keeps the job valid.
pub get_or-add_action :
    {j : Job} (domain_id node_id : ℕ) (action : Handle) (k : ℕ)
    → IsValid j
    → let (done, j') = add_action j domain_id node_id action in
      ((j.num_actions ≡ j.max_actions) × (done ≡ false) × (j' ≡ j))
      ⊎ ((j.num_actions < j.max_actions)
          × (done ≡ true)
          × IsValid j'
          × (j'.num_actions ≡ j.num_actions + 1)
          × (get_or j'.actions k no_handle
              ≡ (if k == j.num_actions then action else get_or j.actions k no_handle)))
unfolding add_action
get_or-add_action {j} domain_id node_id action k v = ground (
  arith,
  length-set j.actions j.num_actions action,
  get_or-set_self j.actions j.num_actions action no_handle,
  get_or-set_ne j.actions {i = j.num_actions} {j = k} action no_handle,
)

handle-initialize_list :
    (memory : ℕ → List Handle) (max_actions ii k : ℕ) (jobs : List Job)
    → k < length jobs
    → (get_or (initialize_list memory max_actions ii jobs) k no_job).handle
      ≡ record { tag = 0; id = ii + k }
unfolding initialize_list
handle-initialize_list memory max_actions ii k [] h = absurd (omega arith)
handle-initialize_list memory max_actions ii zero (job ∷ jobs) h =
    ap (λ i. record { tag = 0; id = i }) {x = ii} {y = ii + zero} (omega arith)
handle-initialize_list memory max_actions ii (suc k) (job ∷ jobs) h =
    handle-initialize_list memory max_actions (ii + 1) k jobs (omega arith)
    ∙ ap (λ i. record { tag = 0; id = i }) {x = ii + 1 + k} {y = ii + suc k} (omega arith)

-- In a job list initialised for `max_jobs` jobs and the invalid one, mtapi_job_get on a number from
-- 1 to `max_jobs` gives a valid handle with that number.
pub is_handle_valid-get :
    (memory : ℕ → List Handle) (max_actions max_jobs job_id : ℕ) (jobs : List Job)
    → length jobs ≡ max_jobs + 1
    → 0 < job_id
    → job_id ≤ max_jobs
    → let job_list = initialize_list memory max_actions 0 jobs in
      let (status, handle) = get true max_jobs job_list job_id in
      (status ≡ success) × (handle.id ≡ job_id) × (is_handle_valid max_jobs job_list handle ≡ true)
unfolding get is_id_valid get_storage_for_id is_handle_valid
is_handle_valid-get memory max_actions max_jobs job_id jobs e pos h =
    ground (arith, handle-initialize_list memory max_actions 0 job_id jobs)
