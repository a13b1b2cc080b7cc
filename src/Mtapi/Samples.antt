-- ===== src/Mtapi/Samples.antt =====
-- A node for the examples: one job besides the invalid one, and room for two of each object.
use embb.Common.{ℕ, refl, true, List, [], ◌∷◌, arith}
use embb.Mtapi.Pool
use embb.Mtapi.Pool.{Pool, Entry}
use embb.Mtapi.Pool.Valid.{IsValid, initialize-IsValid}
use embb.Mtapi.Job.{Job, no_job}
use embb.Mtapi.Node.{Node}
use embb.Mtapi.Group.{no_group}
use embb.Mtapi.Action.{no_action}
use embb.Mtapi.Queue.{no_queue}

abbrev pub ids : List ℕ
ids = 9 ∷ 9 ∷ 9 ∷ []

abbrev pub entry : {A : Type 0} → A → Entry A
entry a = record { tag = 5; id = 6; object = a }

abbrev pub slots : {A : Type 0} → A → List (Entry A)
slots a = entry a ∷ entry a ∷ entry a ∷ []

abbrev pub fresh_pool : {A : Type 0} → A → Pool A
fresh_pool a = Pool.initialize (λ x. x) ids (slots a) 2

pub fresh_pool-IsValid : {A : Type 0} (a : A) → IsValid (fresh_pool a)
fresh_pool-IsValid a =
    initialize-IsValid (λ x. x) ids (slots a) 2 refl refl (omega arith) (omega arith)

abbrev pub first_job : Job
first_job = record {
  handle = record { tag = 0; id = 1 };
  domain_id = 0;
  node_id = 0;
  num_actions = 0;
  max_actions = 1;
  actions = record { tag = 0; id = 0 } ∷ [];
}

abbrev pub sample_node : Node
sample_node = record {
  is_initialized = true;
  domain_id = 1;
  node_id = 1;
  attributes = record {
    core_affinity = 3;
    num_cores = 2;
    type = 1;
    max_tasks = 2;
    max_actions = 2;
    max_groups = 2;
    max_queues = 2;
    queue_limit = 2;
    max_jobs = 1;
    max_actions_per_job = 1;
    max_priorities = 4;
  };
  worker_count = 2;
  job_list = no_job ∷ first_job ∷ [];
  action_pool = fresh_pool no_action;
  group_pool = fresh_pool no_group;
  queue_pool = fresh_pool no_queue;
}
