-- ===== src/Network/Plugin/Examples.antt =====
-- A task is started on another node, and its result comes back.
use embb.Common.{ℕ, ◌+◌, ◌≤◌, ◌<◌, ◌≡◌, refl, List, [], ◌∷◌, ◌++◌, some, arith, replicate}
use embb.Mtapi.Status.{Status, success}
use embb.Mtapi.IdPool
use embb.Mtapi.Pool
use embb.Mtapi.Pool.{Handle}
use embb.Mtapi.Attributes.Task.{TaskAttributes}
use embb.Mtapi.System.{task_at}
use embb.Mtapi.System.Start.{start}
use embb.Mtapi.System.Samples.{first, one_instance}
use embb.Network.Buffer.{Buffer}
use embb.Network.Samples.{send_one, receive_one, stream, sink, buffer, buffer-IsValid, net_with}
use embb.Network.Plugin.{Net, put, network_task_start, network_task_complete}
use embb.Network.Plugin.Heads.{Locals}
use embb.Network.Plugin.Thread.{remote_request, after_start, handle_message}
use embb.Network.Plugin.Sending.{head_of, arguments_of, IsOutgoing, CanSend}
use embb.Network.Plugin.Remote.{IsRemote, network_task_start-handle_message}
use embb.Network.Plugin.Result.{handle_for, result_of, CanReturn, result_head_of}
use embb.Network.Plugin.Return.{
  HasEntries, IsWaiting, IsReturned, network_task_complete-handle_message,
}
use embb.Network.Buffer.Items.{encode_all}
use embb.Mtapi.Task.{running}
use embb.Network.Plugin.Truncated.{bare_items, network_task_start-truncated}

abbrev locals : Locals
locals = record {
  operation = 9;
  domain_id = 0;
  job_id = 0;
  remote_task_id = 0;
  remote_task_tag = 0;
  results_size = 0;
  arguments_size = 0;
  task_id = 0;
  task_tag = 0;
  task_status = 0;
  attributes = one_instance;
  network_task = 300;
  results = 400;
  arguments = 500;
}

abbrev here : Net (List ℕ)
here = net_with []

abbrev plugin : ℕ → Handle → Status
plugin start handle = success

outgoing : IsOutgoing here first
unfolding Pool.initialize Pool.clear_handles Pool.modify Pool.get_object Pool.object_at
    Pool.is_handle_valid Pool.tag_at IdPool.initialize
outgoing = record {
  initialized = refl;
  valid = refl;
  action_valid = refl;
  small = omega arith;
  arguments = refl;
  empty = (buffer-IsValid, refl, refl);
}

can_send : CanSend here first
unfolding Pool.initialize Pool.clear_handles Pool.modify Pool.get_object Pool.object_at
    Pool.handle_of Pool.tag_at Pool.id_at
can_send = record {
  outgoing = outgoing;
  head = record {
    domain_id = omega arith;
    job_id = omega arith;
    priority = omega arith;
    remote_task_id = omega arith;
    remote_task_tag = omega arith;
    results_size = omega arith;
    arguments_size = omega arith;
  };
  room = omega arith;
}

few_arguments : (task_at here.system 1).arguments_size ≤ 64
unfolding Pool.initialize Pool.clear_handles Pool.modify Pool.get_object Pool.object_at
few_arguments = omega arith

abbrev start_bytes : List ℕ
start_bytes = (network_task_start (λ s. send_one) here first).1.sockets

network_task_start-handle_message_example :
    let there = net_with (start_bytes ++ (1 ∷ [])) in
    let h = head_of here first in
    let request = remote_request locals there.system.node 4096 h in
    ((network_task_start (λ s. send_one) here first).0 ≡ success)
    × (a : TaskAttributes) × (request.attributes ≡ some a)
    × IsRemote 300 h.priority 4096 a
    × (b' : Buffer) × (sockets : List ℕ) × (sockets ≡ 1 ∷ [])
    × (handle_message (λ s. receive_one) plugin 4096 locals 4 buffer there
        ≡ after_start
            (record there {
              tasks = put there.tasks 300 (record {
                socket = 4;
                remote_task_id = h.remote_task_id;
                remote_task_tag = h.remote_task_tag;
              });
              blocks = put there.blocks 500 (arguments_of here first);
              sockets = sockets;
            })
            b'
            (start plugin there.system request))
network_task_start-handle_message_example =
    network_task_start-handle_message (λ s. send_one) (λ s. s) (λ s. receive_one) (λ s. s) here
      first (net_with (start_bytes ++ (1 ∷ []))) plugin 4096 locals 4 buffer start_bytes (1 ∷ [])
      sink can_send stream buffer-IsValid (omega arith) few_arguments refl refl refl

can_return : CanReturn here first
unfolding Pool.initialize Pool.clear_handles Pool.modify Pool.get_object Pool.object_at
    Pool.is_handle_valid Pool.tag_at IdPool.initialize
can_return = record {
  initialized = refl;
  valid = refl;
  action_valid = refl;
  remote_id = omega arith;
  remote_tag = omega arith;
  small = omega arith;
  result = refl;
  buffer = buffer-IsValid;
  room = omega arith;
}

abbrev result_bytes : List ℕ
result_bytes = (network_task_complete (λ s. send_one) here first).1.sockets

abbrev waiting : Net (List ℕ)
waiting = net_with (result_bytes ++ (1 ∷ []))

is_waiting : IsWaiting waiting (handle_for (result_head_of here first))
unfolding Pool.initialize Pool.clear_handles Pool.modify Pool.get_object Pool.object_at
    Pool.is_handle_valid Pool.tag_at IdPool.initialize
is_waiting = record {
  initialized = refl;
  valid = refl;
  action_valid = refl;
  tasks = refl;
  actions = refl;
  groups = refl;
}

small_result : (task_at here.system 1).result_size ≤ 64
unfolding Pool.initialize Pool.clear_handles Pool.modify Pool.get_object Pool.object_at
small_result = omega arith

network_task_complete-handle_message_example :
    ((network_task_complete (λ s. send_one) here first).0 ≡ success)
    × (b' : Buffer) × (after : Net (List ℕ)) × (handle_message
          (λ s. receive_one)
          plugin
          4096
          locals
          4
          buffer
          waiting
        ≡ some (b', after))
    × (after.sockets ≡ 1 ∷ [])
    × IsReturned waiting 1 (task_at here.system 1).error_code (result_of here first) after
network_task_complete-handle_message_example =
    network_task_complete-handle_message (λ s. send_one) (λ s. s) (λ s. receive_one) (λ s. s) here
      first waiting plugin 4096 locals 4 buffer result_bytes (1 ∷ []) sink can_return stream
      buffer-IsValid (omega arith) small_result is_waiting refl refl

-- A buffer of 30 bytes, which the three bytes of the arguments do not fit into behind the head.
abbrev tight : Buffer
tight = record { position = 0; size = 0; capacity = 30; bytes = replicate 30 0 }

abbrev crowded : Net (List ℕ)
crowded = record here {
  actions = λ a. record {
    domain_id = 1;
    job_id = 1;
    host = 0;
    port = 80;
    socket = 4;
    send_buffer = tight;
  };
}

crowded-IsOutgoing : IsOutgoing crowded first
unfolding Pool.initialize Pool.clear_handles Pool.modify Pool.get_object Pool.object_at
    Pool.is_handle_valid Pool.tag_at IdPool.initialize
crowded-IsOutgoing = record {
  initialized = refl;
  valid = refl;
  action_valid = refl;
  small = omega arith;
  arguments = refl;
  empty = (omega arith, refl, refl);
}

crowded_entries :
    HasEntries crowded.system.task_pool × (30 < 29 + (task_at crowded.system 1).arguments_size)
unfolding Pool.initialize Pool.clear_handles Pool.modify Pool.get_object Pool.object_at
    IdPool.initialize
crowded_entries = (refl, omega arith)

network_task_start-truncated_example :
    let (status, w') = network_task_start (λ s. send_one) crowded first in
    (status ≡ success)
    × ((task_at w'.system 1).state ≡ running)
    × (w'.sockets ≡ encode_all (bare_items (head_of crowded first)))
network_task_start-truncated_example =
    network_task_start-truncated (λ s. send_one) (λ s. s) crowded first sink crowded-IsOutgoing
      crowded_entries.0 (omega arith) crowded_entries.1
