-- ===== src/Network/Plugin/Remote.antt =====
-- A task that is started on another node (mtapi_network_c/src/embb_mtapi_network.c).
use embb.Common.{
  ℕ, ap, sym, ◌∙◌, ◌≤◌, ◌≡◌, refl, List, [], ◌∷◌, ◌++◌, none, some, Bool, true, arith, length,
  if◌then◌else◌,
}
use mathlib.Core.List.{append-nil, append_assoc}
use embb.Mtapi.Status.{Status, success}
use embb.Mtapi.Pool.{Handle}
use embb.Mtapi.System.{task_at}
use embb.Mtapi.System.Start.{start}
use embb.Mtapi.Attributes.{set_value}
use embb.Mtapi.Affinity
use embb.Mtapi.Attributes.Task as TaskAttr
use embb.Mtapi.Attributes.Task.{TaskAttributes}
use embb.Network.Buffer.{Buffer, to_bytes}
use embb.Network.Buffer.Valid.{IsValid}
use embb.Network.Buffer.Items.{rawdata, encode, encode_all}
use embb.Network.Buffer.RoundTrip.{append-cancel}
use embb.Network.Socket.{Receive, Send}
use embb.Network.Socket.Stream.{IsStream, IsSink}
use embb.Network.Plugin.{Net, put, start_task, network_task_start}
use embb.Network.Plugin.Heads.{Locals, StartHead}
use embb.Network.Plugin.Thread.{
  remote_request, remote_attributes, after_start, handle_message, dispatch,
}
use embb.Network.Plugin.Incoming.{handle_message-operation}
use embb.Network.Plugin.Messages.{encode_all-append, start_head, start_items}
use embb.Network.Plugin.Starting.{handle_start-message}
use embb.Network.Plugin.Sending.{head_of, arguments_of, action_of, CanSend, network_task_start-sent}

-- The attributes of a remote task: of the priority in the message, detached, for one instance, with
-- the network task as its user data and the plugin's function for its completion.
abbrev pub IsRemote : ℕ → ℕ → ℕ → TaskAttributes → Type 0
IsRemote network_task priority complete a =
    (a.is_detached ≡ 1)
    × (a.num_instances ≡ 1)
    × (a.priority ≡ priority)
    × (a.user_data ≡ network_task)
    × (a.complete_func ≡ complete)

remote_attributes-IsRemote :
    (num_cores : ℕ) (leftover : TaskAttributes) (network_task priority complete : ℕ)
    → IsRemote network_task priority complete
        (remote_attributes (some num_cores) leftover network_task priority complete)
unfolding remote_attributes TaskAttr.init TaskAttr.set_at set_value Affinity.init
remote_attributes-IsRemote num_cores leftover network_task priority complete =
    (refl, refl, refl, refl, refl)

encode_start :
    (h : StartHead) (arguments rest : List ℕ)
    → encode_all (start_items h arguments) ++ rest
      ≡ to_bytes 1 start_task ++ (encode_all (start_head h) ++ (arguments ++ rest))
unfolding encode_all encode
encode_start h arguments rest =
    ap (λ bs. (to_bytes 1 start_task ++ bs) ++ rest)
      (encode_all-append (start_head h) (rawdata arguments ∷ [])
        ∙ ap (λ bs. encode_all (start_head h) ++ bs) (append-nil arguments))
    ∙ append_assoc (to_bytes 1 start_task) (encode_all (start_head h) ++ arguments) rest
    ∙ ap (λ bs. to_bytes 1 start_task ++ bs)
        (append_assoc (encode_all (start_head h)) arguments rest)

-- A task is started over the network. On the node that sends, the task is valid, of a valid action
-- of the plugin, its message, of numbers of 32 bits, fits into the action's empty buffer, and the
-- connection takes bytes; on the node that receives, which is initialised, the connection stays
-- open and the thread's buffer is valid, with room for the head and for the arguments. Then
-- network_task_start succeeds, and what the other thread does with the bytes that it sent is
-- mtapi_task_start of the request with the sender's job, sizes and arguments, in the blocks that
-- are allocated there, for a detached task of the sender's priority; the handle of the sender's
-- task is kept in the network task, and what comes behind the message is still to be received.
pub network_task_start-handle_message :
    {S R : Type 0} (send : ℕ → Send S) (sent : S → List ℕ) (recv : ℕ → Receive R)
    (pending : R → List ℕ) (here : Net S) (task : Handle) (there : Net R)
    (plugin : ℕ → Handle → Status) (complete : ℕ) (l : Locals) (socket : ℕ) (b : Buffer)
    (bytes rest : List ℕ)
    → IsSink (send (action_of here task).socket) sent
    → CanSend here task
    → IsStream (recv socket) pending
    → IsValid b
    → 28 ≤ b.capacity
    → (task_at here.system task.id).arguments_size ≤ b.capacity
    → there.system.node.is_initialized ≡ true
    → sent (network_task_start send here task).1.sockets ≡ sent here.sockets ++ bytes
    → pending there.sockets ≡ bytes ++ rest
    → let h = head_of here task in
      let request = remote_request l there.system.node complete h in
      ((network_task_start send here task).0 ≡ success)
      × (a : TaskAttributes) × (request.attributes ≡ some a)
      × IsRemote l.network_task h.priority complete a
      × (b' : Buffer) × (sockets : R) × (pending sockets ≡ rest)
      × (handle_message recv plugin complete l socket b there
          ≡ after_start
              (record there {
                tasks = put there.tasks l.network_task (record {
                  socket = socket;
                  remote_task_id = h.remote_task_id;
                  remote_task_tag = h.remote_task_tag;
                });
                blocks = put there.blocks l.arguments (arguments_of here task);
                sockets = sockets;
              })
              b'
              (start plugin there.system request))
unfolding dispatch
network_task_start-handle_message send sent recv pending here task there plugin complete l socket b
      bytes rest sink can stream v fit fit' open_node out incoming =
    let h = head_of here task in
    let arguments = arguments_of here task in
    let (done, message) = network_task_start-sent send sent here task sink can in
    let same : bytes ≡ encode_all (start_items h arguments) =
      (append-cancel (sent here.sockets) (sent here.sockets) refl (sym out ∙ message)).1 in
    let payload = encode_all (start_head h) ++ (arguments ++ rest) in
    let p : pending there.sockets ≡ to_bytes 1 start_task ++ payload =
      incoming ∙ ap (λ x. x ++ rest) same ∙ encode_start h arguments rest in
    let (b1, sockets1, c, left, first) =
      handle_message-operation recv pending socket stream plugin complete l b there start_task
        payload v (omega arith) (omega arith) p in
    let size : length arguments ≡ h.arguments_size =
      omega (arith, can.outgoing.arguments, can.outgoing.small) in
    let (b2, sockets2, left2, second) =
      handle_start-message (recv socket) pending stream plugin complete l socket b1
        (record there { sockets = sockets1 }) h arguments rest can.head size
        (record { valid = c.valid; position = c.position; size = refl }) (omega (arith, c.size))
        (omega (arith, c.size, size, can.outgoing.arguments)) left in
    (
      done,
      _,
      ap
          (λ (yes_node : Bool). some (
            remote_attributes
              (if yes_node then some there.system.node.attributes.num_cores else none) l.attributes
              l.network_task h.priority complete))
          open_node,
      remote_attributes-IsRemote there.system.node.attributes.num_cores l.attributes l.network_task
          h.priority complete,
      b2,
      sockets2,
      left2,
      first ∙ second,
    )
