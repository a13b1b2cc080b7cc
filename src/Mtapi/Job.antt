-- ===== src/Mtapi/Job.antt =====
-- mtapi_c/src/embb_mtapi_job_t.c. The node's job list comes with its `max_jobs`; a pointer to a job
-- is its index.
pub mod Remove
mod Examples
use embb.Common.{
  ℕ, zero, suc, ◌+◌, ◌-◌, ◌%◌, List, [], ◌∷◌, Bool, true, false, ◌&&◌, Option, none, some, ltb, leb,
  ◌==◌, if◌then◌else◌, get_or, set, update,
}
use embb.Mtapi.Status.{Status, success, err_job_invalid, err_node_notinit}
use embb.Mtapi.IdPool.{uint_mod, invalid_id}
use embb.Mtapi.Pool.{Handle}

pub record Job : Type 0 where
  pub handle : Handle
  pub domain_id : ℕ
  pub node_id : ℕ
  pub num_actions : ℕ
  pub max_actions : ℕ
  pub actions : List Handle

abbrev pub no_handle : Handle
no_handle = record { tag = 0; id = invalid_id }

-- What stands behind a job pointer out of bounds.
abbrev pub no_job : Job
no_job = record {
  handle = no_handle;
  domain_id = 0;
  node_id = 0;
  num_actions = 0;
  max_actions = 0;
  actions = [];
}

abbrev pub same_handle : Handle → Handle → Bool
same_handle a b = (a.id == b.id) && (a.tag == b.tag)

-- `for (ii = first; ...; ii++) actions[ii].id = EMBB_MTAPI_IDPOOL_INVALID_ID`, so many rounds.
pub clear_actions : ℕ → ℕ → List Handle → List Handle
clear_actions zero ii actions = actions
clear_actions (suc rounds) ii actions =
    clear_actions rounds (ii + 1) (update actions ii (λ h. record h { id = invalid_id }))

-- `memory` is the block that the allocator gave, of `max_actions` entries.
unfoldable pub initialize : List Handle → Job → ℕ → Job
initialize memory that max_actions = record {
  handle = record that.handle { tag = 0 };
  domain_id = 0;
  node_id = 0;
  num_actions = 0;
  max_actions = max_actions;
  actions = clear_actions max_actions 0 memory;
}

unfoldable pub finalize : Job → Job
finalize that = record {
  handle = record that.handle { tag = (that.handle.tag + 1) % uint_mod };
  domain_id = 0;
  node_id = 0;
  num_actions = 0;
  max_actions = 0;
  actions = [];
}

-- The loop of `embb_mtapi_job_initialize_list` from index `ii` on: `memory ii` is the block for the
-- actions of job `ii`.
unfoldable pub initialize_list : (ℕ → List Handle) → ℕ → ℕ → List Job → List Job
initialize_list memory max_actions ii [] = []
initialize_list memory max_actions ii (job ∷ jobs) =
    record (initialize (memory ii) job max_actions) { handle = record { tag = 0; id = ii } }
    ∷ initialize_list memory max_actions (ii + 1) jobs

-- What the jobs become before their block is given back.
pub finalize_list : List Job → List Job
finalize_list [] = []
finalize_list (job ∷ jobs) =
    let job' = finalize job in
    record job' { handle = record job'.handle { id = 0 } } ∷ finalize_list jobs

unfoldable pub add_action : Job → ℕ → ℕ → Handle → Bool × Job
add_action that domain_id node_id action =
    if ltb that.num_actions that.max_actions
    then (
      true,
      record that {
        domain_id = domain_id;
        node_id = node_id;
        actions = set that.actions that.num_actions action;
        num_actions = (that.num_actions + 1) % uint_mod;
      },
    )
    else (false, that)

-- The loop of `embb_mtapi_job_remove_action`, for the rounds left: `last` is the index of the last
-- action.
pub replace_from : Handle → ℕ → ℕ → ℕ → List Handle → List Handle
replace_from action last zero ii actions = actions
replace_from action last (suc rounds) ii actions = replace_from action last rounds (ii + 1) (
    if same_handle (get_or actions ii no_handle) action
    then set actions ii (get_or actions last no_handle)
    else actions)

-- The loop runs while ii + 1 < num_actions, and the count goes down from 0 to 2^32 - 1.
unfoldable pub remove_action : Job → Handle → Job
remove_action that action =
    let last = that.num_actions - 1 in
    record that {
      actions = replace_from action last last 0 that.actions;
      num_actions = (that.num_actions + (uint_mod - 1)) % uint_mod;
    }

unfoldable pub is_handle_valid : ℕ → List Job → Handle → Bool
is_handle_valid max_jobs job_list handle =
    ltb 0 handle.id
    && (leb handle.id max_jobs && ((get_or job_list handle.id no_job).handle.tag == handle.tag))

unfoldable pub is_id_valid : ℕ → ℕ → Bool
is_id_valid max_jobs id = ltb 0 id && leb id max_jobs

-- The source asserts that the handle, or the id, is valid.
unfoldable pub get_storage_for_handle : List Job → Handle → Job
get_storage_for_handle job_list handle = get_or job_list handle.id no_job

unfoldable pub get_storage_for_id : List Job → ℕ → Job
get_storage_for_id job_list id = get_or job_list id no_job

-- mtapi_job_get; the node is initialised or not.
unfoldable pub get : Bool → ℕ → List Job → ℕ → Status × Handle
get is_initialized max_jobs job_list job_id =
    if is_initialized
    then (if is_id_valid max_jobs job_id
        then (success, (get_storage_for_id job_list job_id).handle)
        else (err_job_invalid, no_handle))
    else (err_node_notinit, no_handle)
