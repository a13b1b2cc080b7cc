-- ===== src/Mtapi/Node.antt =====
-- The state of the node, as the interface functions see it: mtapi_c/src/embb_mtapi_node_t.h.
use embb.Common.{ℕ, List, Bool}
use embb.Mtapi.Attributes.Node.{NodeAttributes}
use embb.Mtapi.Job.{Job}
use embb.Mtapi.Pool.{Pool}
use embb.Mtapi.Objects.{Action, Group, Queue}

-- `is_initialized` is what embb_mtapi_node_is_initialized() returns, and `worker_count` is the
-- scheduler's.
pub record Node : Type 0 where
  pub is_initialized : Bool
  pub domain_id : ℕ
  pub node_id : ℕ
  pub attributes : NodeAttributes
  pub worker_count : ℕ
  pub job_list : List Job
  pub action_pool : Pool Action
  pub group_pool : Pool Group
  pub queue_pool : Pool Queue
