-- ===== src/Mtapi/Queue.antt =====
-- mtapi_c/src/embb_mtapi_queue_t.c: the interface functions for queues that do not wait.
pub mod Life
mod Examples
use embb.Common.{
  ℕ, zero, suc, ◌+◌, ◌%◌, Option, none, some, Bool, true, false, not, ◌==◌, if◌then◌else◌,
}
use embb.Mtapi.Status.{
  Status, success, err_parameter, err_queue_invalid, err_queue_limit, err_job_invalid,
  err_node_notinit, is_success,
}
use embb.Mtapi.Affinity
use embb.Mtapi.Pool
use embb.Mtapi.Pool.{Pool, Handle}
use embb.Mtapi.Job
use embb.Mtapi.Job.{no_handle}
use embb.Mtapi.Attributes.{Attribute}
use embb.Mtapi.Attributes.Queue as QueueAttr
use embb.Mtapi.Attributes.Queue.{QueueAttributes, Num}
use embb.Mtapi.Objects.{
  Queue, initialize_queue_with_attributes_and_job, finalize_queue, attributes_or,
}
use embb.Mtapi.Node.{Node}

-- What stands behind a queue pointer out of bounds.
abbrev pub no_queue : Queue
no_queue = record {
  queue_id = 0;
  enabled = false;
  job_handle = record { tag = 0; id = 0 };
  attributes = record {
    global = 1;
    priority = 0;
    limit = 2;
    ordered = 0;
    retain = 0;
    domain_shared = 1;
  };
  num_tasks = 0;
  ordered_affinity = 0;
}

-- The queue at a pointer.
abbrev pub queue_at : Node → ℕ → Queue
queue_at node queue = Pool.get_object node.queue_pool queue no_queue

abbrev pub deallocate_queue : Node → ℕ → Node
deallocate_queue node queue = record node {
  queue_pool =
      Pool.deallocate (finalize_queue (some node.attributes.queue_limit)) true node.queue_pool
        queue;
}

-- The attributes handed over, or the default ones for the node's queue_limit.
abbrev pub choose_attributes : ℕ → Option QueueAttributes → Status × QueueAttributes
choose_attributes queue_limit (some given) = (success, given)
choose_attributes queue_limit none =
    let result = QueueAttr.init (some queue_limit) (some no_queue.attributes) in
    (result.0, attributes_or result no_queue.attributes)

-- The affinity of an ordered queue: one worker, chosen by the id of the queue.
pub order_affinity : Node → ℕ → ℕ → ℕ
order_affinity node id mask =
    let num_cores = some node.attributes.num_cores in
    let empty = attributes_or (Affinity.init num_cores (some mask) false) mask in
    attributes_or (Affinity.set num_cores (some empty) (id % node.worker_count) true) empty

-- The new queue in the entry of that id.
abbrev pub fill_in : Node → ℕ → Handle → QueueAttributes → ℕ → Queue → Queue
fill_in node queue_id job attributes id q =
    let q' = initialize_queue_with_attributes_and_job attributes job q in
    record q' {
      queue_id = queue_id;
      ordered_affinity =
          if attributes.ordered == 0
          then q.ordered_affinity
          else order_affinity node id q.ordered_affinity;
    }

-- mtapi_queue_create once the pool has given an entry, or none.
pub create_with : Node → ℕ → Handle → Option QueueAttributes → Option ℕ → Status × Handle × Node
create_with node queue_id job attributes none = (err_queue_limit, no_handle, node)
create_with node queue_id job attributes (some queue) =
    let choice = choose_attributes node.attributes.queue_limit attributes in
    let id = (Pool.handle_of node.queue_pool queue).id in
    let pool = Pool.modify node.queue_pool queue (fill_in node queue_id job choice.1 id) in
    if is_success choice.0
    then (if Job.is_handle_valid node.attributes.max_jobs node.job_list job
        then (choice.0, Pool.handle_of pool queue, record node { queue_pool = pool })
        else (err_job_invalid, no_handle, deallocate_queue node queue))
    else (choice.0, no_handle, deallocate_queue node queue)

pub create : Node → ℕ → Handle → Option QueueAttributes → Status × Handle × Node
create node queue_id job attributes =
    let (queue, pool) = Pool.allocate true node.queue_pool in
    if node.is_initialized
    then create_with (record node { queue_pool = pool }) queue_id job attributes queue
    else (err_node_notinit, no_handle, node)

pub set_attribute : Node → Handle → Num → Attribute → ℕ → Status × Node
set_attribute node queue num attribute size =
    let (status, attributes) =
      QueueAttr.set_at (queue_at node queue.id).attributes num attribute size in
    if node.is_initialized
    then (if Pool.is_handle_valid node.queue_pool queue
        then (
          status,
          record node {
            queue_pool =
                Pool.modify node.queue_pool queue.id (λ q. record q { attributes = attributes });
          },
        )
        else (err_queue_invalid, node))
    else (err_node_notinit, node)

pub get_attribute : Node → Handle → Num → Attribute → ℕ → Status × Option ℕ
get_attribute node queue num attribute size =
    if node.is_initialized
    then (if Pool.is_handle_valid node.queue_pool queue
        then (if attribute.pointer == 0
            then (err_parameter, none)
            else QueueAttr.get (queue_at node queue.id).attributes num size)
        else (err_queue_invalid, none))
    else (err_node_notinit, none)

-- The loop of mtapi_queue_get, for the rounds left.
pub find_from : Node → ℕ → ℕ → ℕ → Status × Handle
find_from node queue_id zero ii = (err_queue_invalid, no_handle)
find_from node queue_id (suc rounds) ii =
    let rest = find_from node queue_id rounds (ii + 1) in
    if queue_id == (queue_at node ii).queue_id
    then (success, Pool.handle_of node.queue_pool ii)
    else rest

pub get : Node → ℕ → Status × Handle
get node queue_id =
    if node.is_initialized
    then find_from node queue_id node.attributes.max_queues 0
    else (err_node_notinit, no_handle)
