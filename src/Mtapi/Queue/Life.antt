-- ===== src/Mtapi/Queue/Life.antt =====
-- Queues are created and found (mtapi_c/src/embb_mtapi_queue_t.c).
use embb.Common.{
  ℕ, zero, suc, ◌+◌, ◌≤◌, ◌<◌, ◌≡◌, ◌≢◌, ◌⊎◌, refl, true, false, none, some, arith, ◌==◌,
  if◌then◌else◌, length,
}
use embb.Mtapi.Status.{success, err_parameter, err_queue_invalid, err_queue_limit, err_job_invalid}
use embb.Mtapi.IdPool
use embb.Mtapi.Pool
use embb.Mtapi.Pool.{Handle}
use embb.Mtapi.Pool.Valid
use embb.Mtapi.Pool.Modify.{
  is_handle_valid-modify, handle_of-modify, get_object-modify, is_handle_valid-in_range,
}
use embb.Mtapi.Job
use embb.Mtapi.Job.{no_handle}
use embb.Mtapi.Attributes.{Attribute}
use embb.Mtapi.Attributes.Queue as QueueAttr
use embb.Mtapi.Attributes.Queue.{QueueAttributes, Num}
use embb.Mtapi.Objects.{Queue, initialize_queue_with_attributes_and_job}
use embb.Mtapi.Node.{Node}
use embb.Mtapi.Queue.{
  queue_at, no_queue, fill_in, create, create_with, set_attribute, get_attribute, get, find_from,
  order_affinity,
}

-- On an initialised node with a valid pool of queues, create with given attributes fails and
-- changes nothing where no id is left, fails without a handle for an invalid job, and else
-- succeeds with a valid handle of an enabled queue of that number, job and attributes without
-- tasks, with the affinity that order_affinity gives if it is ordered.
pub create-queue :
    {node : Node} (queue_id : ℕ) (job : Handle) (given : QueueAttributes)
    → node.is_initialized ≡ true
    → Valid.IsValid node.queue_pool
    → let (status, queue, node') = create node queue_id job (some given) in
      let new = queue_at node' queue.id in
      ((node.queue_pool.id_pool.ids_available ≡ 0) × (status ≡ err_queue_limit) × (node' ≡ node))
      ⊎ ((Job.is_handle_valid node.attributes.max_jobs node.job_list job ≡ false)
          × (status ≡ err_job_invalid)
          × (queue ≡ no_handle))
      ⊎ ((status ≡ success)
          × (Pool.is_handle_valid node'.queue_pool queue ≡ true)
          × (new.enabled ≡ true)
          × (new.queue_id ≡ queue_id)
          × (new.job_handle ≡ job)
          × (new.attributes ≡ given)
          × (new.num_tasks ≡ 0)
          × ((given.ordered ≡ 0)
              ⊎ (new.ordered_affinity
                  ≡ order_affinity node queue.id
                      (queue_at
                        (record node { queue_pool = (Pool.allocate true node.queue_pool).1 })
                        queue.id).ordered_affinity)))
unfolding create create_with initialize_queue_with_attributes_and_job order_affinity
create-queue {node} queue_id job given init v =
    let pool = (Pool.allocate true node.queue_pool).1 in
    let id = (IdPool.allocate true node.queue_pool.id_pool).0 in
    let ready = Valid.allocate_ready v in
    let finish =
      fill_in (record node { queue_pool = pool }) queue_id job given (Pool.handle_of pool id).id in
    let kept = is_handle_valid-modify pool id finish (Pool.handle_of pool id) in
    let same = handle_of-modify pool id id finish in
    let made = get_object-modify pool id finish no_queue in ground arith

-- On a valid handle of an initialised node, set_attribute changes the attributes as
-- mtapi_queueattr_set does and get_attribute then reads them, and every handle is kept.
pub get_attribute-set_queue :
    (node : Node) (queue other : Handle) (num num' : Num) (v w : Attribute) (size size' : ℕ)
    → node.is_initialized ≡ true
    → length node.queue_pool.storage ≡ node.queue_pool.id_pool.capacity + 1
    → Pool.is_handle_valid node.queue_pool queue ≡ true
    → let (status, node') = set_attribute node queue num v size in
      let (status', a) = QueueAttr.set_at (queue_at node queue.id).attributes num v size in
      (status ≡ status')
      × (get_attribute node' queue num' w size'
          ≡ (if w.pointer == 0 then (err_parameter, none) else QueueAttr.get a num' size'))
      × (Pool.is_handle_valid node'.queue_pool other ≡ Pool.is_handle_valid node.queue_pool other)
unfolding set_attribute get_attribute
get_attribute-set_queue node queue other num num' v w size size' init slots valid =
    let pool = node.queue_pool in
    let change = λ (q : Queue). record q {
      attributes = (QueueAttr.set_at (queue_at node queue.id).attributes num v size).1;
    } in
    let inside = is_handle_valid-in_range pool queue valid in
    ground (
      arith,
      is_handle_valid-modify pool queue.id change queue,
      is_handle_valid-modify pool queue.id change other,
      get_object-modify pool queue.id change no_queue,
    )

find_from-first :
    (node : Node) (queue_id k : ℕ)
    → ((j : ℕ) → j < k → (queue_at node j).queue_id ≢ queue_id)
    → (rounds ii : ℕ) → ii ≤ k
    → k < ii + rounds
    → (queue_at node k).queue_id ≡ queue_id
    → find_from node queue_id rounds ii ≡ (success, Pool.handle_of node.queue_pool k)
unfolding find_from
find_from-first node queue_id k others zero ii h l e = absurd (omega arith)
find_from-first node queue_id k others (suc rounds) ii h l e =
    ground (arith, others ii, find_from-first node queue_id k others rounds (ii + 1))

-- On an initialised node mtapi_queue_get gives the handle of the first entry below max_queues with
-- that queue id.
pub get-first :
    (node : Node) (queue_id k : ℕ)
    → node.is_initialized ≡ true
    → k < node.attributes.max_queues
    → (queue_at node k).queue_id ≡ queue_id
    → ((j : ℕ) → j < k → (queue_at node j).queue_id ≢ queue_id)
    → get node queue_id ≡ (success, Pool.handle_of node.queue_pool k)
unfolding get
get-first node queue_id k init h e others =
    let found =
      find_from-first node queue_id k others node.attributes.max_queues 0 (omega arith)
        (omega (arith, h)) e in
    ground arith

find_from-none :
    (node : Node) (queue_id rounds ii : ℕ)
    → ((j : ℕ) → j < ii + rounds → (queue_at node j).queue_id ≢ queue_id)
    → find_from node queue_id rounds ii ≡ (err_queue_invalid, no_handle)
unfolding find_from
find_from-none node queue_id zero ii others = refl
find_from-none node queue_id (suc rounds) ii others = ground (
  arith,
  others ii (omega arith),
  find_from-none node queue_id rounds (ii + 1) (λ j h. others j (omega arith)),
)

-- On an initialised node mtapi_queue_get fails on the queue id of the last entry of the pool,
-- number max_queues, where no entry before it has that queue id.
pub get-last :
    (node : Node) (queue_id : ℕ)
    → node.is_initialized ≡ true
    → (queue_at node node.attributes.max_queues).queue_id ≡ queue_id
    → ((j : ℕ) → j < node.attributes.max_queues → (queue_at node j).queue_id ≢ queue_id)
    → get node queue_id ≡ (err_queue_invalid, no_handle)
unfolding get
get-last node queue_id init e others =
    let missed =
      find_from-none node queue_id node.attributes.max_queues 0
        (λ j h. others j (omega (arith, h))) in
    ground arith
