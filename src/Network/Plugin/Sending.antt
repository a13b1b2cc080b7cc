-- ===== src/Network/Plugin/Sending.antt =====
-- What network_task_start sends (mtapi_network_c/src/embb_mtapi_network.c).
use embb.Common.{ℕ, ap, ◌∙◌, ◌+◌, ◌^◌, ◌≤◌, ◌<◌, ◌≡◌, List, ◌++◌, true, arith, length}
use mathlib.Core.List.{append-nil}
use embb.Mtapi.Status.{success}
use embb.Mtapi.Pool
use embb.Mtapi.Pool.{Handle}
use embb.Mtapi.System.{task_at}
use embb.Mtapi.Action.{action_at}
use embb.Network.Buffer.{Buffer, to_bytes, read}
use embb.Network.Buffer.Items.{encode, encode_all}
use embb.Network.Socket.{Send}
use embb.Network.Socket.Stream.{IsSink, sendbuffer-sent}
use embb.Network.Plugin.{
  Net, NetworkAction, start_message, to_int32, network_task_start, send_start,
}
use embb.Network.Plugin.Heads.{StartHead}
use embb.Network.Plugin.Messages.{
  start_items, sent_start, IsStartHead, IsEmpty, message-bytes, start_message-push_all,
}

-- What a network task is started with: the head of its message, and the arguments.
abbrev pub head_of : {S : Type 0} → Net S → Handle → StartHead
head_of w task =
    let that = task_at w.system task.id in
    sent_start (w.actions (action_at w.system.node that.action.id).plugin_data) that
      (Pool.handle_of w.system.task_pool task.id)

abbrev pub arguments_of : {S : Type 0} → Net S → Handle → List ℕ
arguments_of w task = w.blocks (task_at w.system task.id).arguments

abbrev pub action_of : {S : Type 0} → Net S → Handle → NetworkAction
action_of w task =
    w.actions (action_at w.system.node (task_at w.system task.id).action.id).plugin_data

-- A valid task of a valid action of the plugin, whose buffer is empty, with as many bytes at the
-- address of the arguments as it has.
pub record IsOutgoing {S : Type 0} (w : Net S) (task : Handle) : Type 0 where
  pub initialized : w.system.node.is_initialized ≡ true
  pub valid : Pool.is_handle_valid w.system.task_pool task ≡ true
  pub action_valid :
      Pool.is_handle_valid w.system.node.action_pool (task_at w.system task.id).action ≡ true
  pub small : (task_at w.system task.id).arguments_size < 2 ^ 31
  pub arguments : length (arguments_of w task) ≡ (task_at w.system task.id).arguments_size
  pub empty : IsEmpty (action_of w task).send_buffer

-- A task whose message fits into the buffer and has numbers of 32 bits.
pub record CanSend {S : Type 0} (w : Net S) (task : Handle) : Type 0 where
  pub outgoing : IsOutgoing w task
  pub head : IsStartHead (head_of w task)
  pub room :
      29 + (task_at w.system task.id).arguments_size ≤ (action_of w task).send_buffer.capacity

pub length-start_items :
    (h : StartHead) (arguments : List ℕ)
    → length (encode_all (start_items h arguments)) ≡ 29 + length arguments
unfolding encode_all encode to_bytes
length-start_items h arguments = omega (arith, ap length (append-nil arguments))

module _ {S : Type 0} (send : ℕ → Send S) (sent : S → List ℕ) where
  pub network_task_start-sent :
      (w : Net S) (task : Handle)
      → IsSink (send (action_of w task).socket) sent
      → CanSend w task
      → let (status, w') = network_task_start send w task in
        (status ≡ success)
        × (sent w'.sockets
            ≡ sent w.sockets ++ encode_all (start_items (head_of w task) (arguments_of w task)))
  unfolding network_task_start send_start
  network_task_start-sent w task sink can =
      let that = task_at w.system task.id in
      let a = action_of w task in
      let handle = Pool.handle_of w.system.task_pool task.id in
      let arguments = arguments_of w task in
      let b = start_message a that handle arguments a.send_buffer in
      let size : length arguments ≡ to_int32 that.arguments_size =
        omega (arith, can.outgoing.arguments, can.outgoing.small) in
      let items = start_items (head_of w task) arguments in
      let all =
        (sendbuffer-sent (send a.socket) sent sink b w.sockets).1
        ∙ ap (λ bs. sent w.sockets ++ bs)
            (ap (λ (m : Buffer). read m.bytes 0 m.size)
                (start_message-push_all a that handle arguments a.send_buffer size)
              ∙ message-bytes items can.outgoing.empty (
                  omega (
                    arith,
                    length-start_items (head_of w task) arguments,
                    can.outgoing.arguments,
                    can.room,
                  ))) in
      let open_node = can.outgoing.initialized in
      let good = can.outgoing.valid in let good' = can.outgoing.action_valid in ground (arith, all)
