-- ===== src/Mtapi/Attributes/Examples.antt =====
-- Attributes at concrete values.
use embb.Common.{◌≡◌, ◌&&◌, ◌==◌, if◌then◌else◌}
use embb.Mtapi.Status.{is_success}
use embb.Mtapi.Attributes.{Attribute, get_value, given}
use embb.Mtapi.Attributes.Queue.{QueueAttributes, get-set_queue}
use embb.Mtapi.Attributes.Queue
use embb.Mtapi.Attributes.Action.{ActionAttributes, get-set_action}
use embb.Mtapi.Attributes.Action
use embb.Mtapi.Attributes.Task.{TaskAttributes, field-set_task}
use embb.Mtapi.Attributes.Task
use embb.Mtapi.Attributes.Node.{NodeAttributes, get-set_node}
use embb.Mtapi.Attributes.Node

-- The number 5 at address 4096.
abbrev five : Attribute
five = record { pointer = 4096; content = λ k. 5 }

abbrev queue : QueueAttributes
queue = record { global = 1; priority = 0; limit = 8; ordered = 1; retain = 0; domain_shared = 1 }

get-set_queue_test :
    let (status, a') = Queue.set_at queue Queue.Num.limit five 4 in
    Queue.get a' Queue.Num.limit 4 ≡ (
      if is_success status && (◌==◌ 2 2)
      then get_value 4 (given 4 five 4) 4
      else Queue.get queue Queue.Num.limit 4)
get-set_queue_test = get-set_queue queue Queue.Num.limit Queue.Num.limit five 4 4

abbrev action : ActionAttributes
action = record { global = 1; affinity = 15; domain_shared = 1 }

get-set_action_test :
    let (status, a') = Action.set_at action Action.Num.affinity five 8 in
    Action.get a' Action.Num.global 1 ≡ (
      if is_success status && (◌==◌ 1 0)
      then get_value 8 (given 8 five 8) 1
      else Action.get action Action.Num.global 1)
get-set_action_test = get-set_action action Action.Num.affinity Action.Num.global five 8 1

abbrev task : TaskAttributes
task = record {
  is_detached = 0;
  num_instances = 1;
  priority = 0;
  affinity = 15;
  user_data = 0;
  complete_func = 0;
}

field-set_task_test :
    let (status, a') = Task.set_at task Task.Num.priority five 4 in
    Task.field a' Task.Num.priority ≡ (
      if is_success status && (◌==◌ 2 2)
      then Task.handed Task.Num.priority five 4
      else Task.field task Task.Num.priority)
field-set_task_test = field-set_task task Task.Num.priority Task.Num.priority five 4

abbrev node : NodeAttributes
node = record {
  core_affinity = 3;
  num_cores = 2;
  type = 1;
  max_tasks = 8;
  max_actions = 8;
  max_groups = 8;
  max_queues = 8;
  queue_limit = 8;
  max_jobs = 8;
  max_actions_per_job = 4;
  max_priorities = 4;
}

get-set_node_test :
    let (status, a') = Node.set_at node Node.Num.core_affinity five 8 in
    Node.get a' Node.Num.numcores 4 ≡ (
      if is_success status
      then Node.reads node Node.Num.core_affinity five 8 Node.Num.numcores 4
      else Node.get node Node.Num.numcores 4)
get-set_node_test = get-set_node node Node.Num.core_affinity Node.Num.numcores five 8 4
