-- ===== src/Mtapi/Queue/Examples.antt =====
-- A queue is created on a small node, changed and looked for.
use embb.Common.{
  ℕ, zero, suc, ◌+◌, ◌<◌, ◌≡◌, ◌≢◌, ◌⊎◌, refl, true, false, none, some, arith, ◌==◌, if◌then◌else◌,
  length,
}
use embb.Mtapi.Status.{success, err_parameter, err_queue_limit, err_queue_invalid, err_job_invalid}
use embb.Mtapi.IdPool
use embb.Mtapi.Pool
use embb.Mtapi.Pool.{Handle}
use embb.Mtapi.Job
use embb.Mtapi.Job.{no_handle}
use embb.Mtapi.Attributes.{Attribute}
use embb.Mtapi.Attributes.Queue as QueueAttr
use embb.Mtapi.Attributes.Queue.{QueueAttributes, Num}
use embb.Mtapi.Node.{Node}
use embb.Mtapi.Queue.{queue_at, no_queue, create, set_attribute, get_attribute, get, order_affinity}
use embb.Mtapi.Queue.Life.{create-queue, get_attribute-set_queue, get-first, get-last}
use embb.Mtapi.Samples.{sample_node, fresh_pool-IsValid}

abbrev ordered : QueueAttributes
ordered = record { global = 1; priority = 0; limit = 2; ordered = 1; retain = 0; domain_shared = 1 }

abbrev job : Handle
job = record { tag = 0; id = 1 }

create-queue_test :
    let (status, queue, node') = create sample_node 5 job (some ordered) in
    let new = queue_at node' queue.id in
    ((sample_node.queue_pool.id_pool.ids_available ≡ 0)
      × (status ≡ err_queue_limit)
      × (node' ≡ sample_node))
    ⊎ ((Job.is_handle_valid 1 sample_node.job_list job ≡ false)
        × (status ≡ err_job_invalid)
        × (queue ≡ no_handle))
    ⊎ ((status ≡ success)
        × (Pool.is_handle_valid node'.queue_pool queue ≡ true)
        × (new.enabled ≡ true)
        × (new.queue_id ≡ 5)
        × (new.job_handle ≡ job)
        × (new.attributes ≡ ordered)
        × (new.num_tasks ≡ 0)
        × ((ordered.ordered ≡ 0)
            ⊎ (new.ordered_affinity
                ≡ order_affinity sample_node queue.id
                    (queue_at
                      (record sample_node {
                        queue_pool = (Pool.allocate true sample_node.queue_pool).1;
                      })
                      queue.id).ordered_affinity)))
create-queue_test = create-queue 5 job ordered refl (fresh_pool-IsValid no_queue)

-- Three entries, of which the last two hold queues 5 and 6.
abbrev filled : Node
filled = record sample_node {
  queue_pool =
      Pool.modify (Pool.modify sample_node.queue_pool 1 (λ q. record q { queue_id = 5 })) 2
        (λ q. record q { queue_id = 6 });
}

abbrev first : Handle
first = record { tag = 0; id = 1 }

filled_slots :
    (length filled.queue_pool.storage ≡ filled.queue_pool.id_pool.capacity + 1)
    × (Pool.is_handle_valid filled.queue_pool first ≡ true)
unfolding Pool.initialize Pool.clear_handles Pool.modify Pool.is_handle_valid Pool.tag_at
    IdPool.initialize IdPool.fill
filled_slots = (refl, refl)

-- The number 5 at address 4096.
abbrev five : Attribute
five = record { pointer = 4096; content = λ k. 5 }

get_attribute-set_queue_test :
    let (status, node') = set_attribute filled first Num.priority five 4 in
    let (status', a) = QueueAttr.set_at (queue_at filled 1).attributes Num.priority five 4 in
    (status ≡ status')
    × (get_attribute node' first Num.priority five 4
        ≡ (if five.pointer == 0 then (err_parameter, none) else QueueAttr.get a Num.priority 4))
    × (Pool.is_handle_valid node'.queue_pool first ≡ Pool.is_handle_valid filled.queue_pool first)
get_attribute-set_queue_test =
    get_attribute-set_queue filled first first Num.priority Num.priority five five 4 4 refl
      filled_slots.0 filled_slots.1

ids_at :
    ((queue_at filled 0).queue_id ≡ 0)
    × ((queue_at filled 1).queue_id ≡ 5)
    × ((queue_at filled 2).queue_id ≡ 6)
unfolding Pool.initialize Pool.clear_handles Pool.modify Pool.get_object Pool.object_at
ids_at = (refl, refl, refl)

before_first : (j : ℕ) → j < 1 → (queue_at filled j).queue_id ≢ 5
before_first zero h = omega (arith, ids_at.0)
before_first (suc j) h = absurd (omega arith)

get-first_test : get filled 5 ≡ (success, Pool.handle_of filled.queue_pool 1)
get-first_test = get-first filled 5 1 refl (omega arith) ids_at.1 before_first

before_last : (j : ℕ) → j < 2 → (queue_at filled j).queue_id ≢ 6
before_last zero h = omega (arith, ids_at.0)
before_last (suc zero) h = omega (arith, ids_at.1)
before_last (suc (suc j)) h = absurd (omega arith)

get-last_test : get filled 6 ≡ (err_queue_invalid, no_handle)
get-last_test = get-last filled 6 refl ids_at.2 before_last
