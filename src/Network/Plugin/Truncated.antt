-- ===== src/Network/Plugin/Truncated.antt =====
-- A task whose arguments do not fit into the send buffer (mtapi_network_c/src/embb_mtapi_network.c).
use embb.Common.{
  ℕ, ap, ◌∙◌, ◌+◌, ◌-◌, ◌≤◌, ◌<◌, ◌≡◌, refl, List, ◌∷◌, ◌++◌, inl, inr, arith, length,
  length-append,
}
use embb.Mtapi.Status.{success}
use embb.Mtapi.Pool
use embb.Mtapi.Pool.{Handle}
use embb.Mtapi.Pool.Modify.{get_object-modify, is_handle_valid-in_range}
use embb.Mtapi.Task.{Task, running, set_state}
use embb.Mtapi.System.{task_at, no_task}
use embb.Network.Buffer.{Buffer, read, to_bytes}
use embb.Network.Buffer.Bytes.{length-read}
use embb.Network.Buffer.Valid.{contents, push_back_rawdata_refines}
use embb.Network.Buffer.Items.{Item, int8, encode, encode_all, push, push_all}
use embb.Network.Buffer.RoundTrip.{push_all-bytes}
use embb.Network.Socket.{Send}
use embb.Network.Socket.Stream.{IsSink, sendbuffer-sent}
use embb.Network.Plugin.{
  Net, NetworkAction, start_task, to_int32, start_message, network_task_start, send_start,
}
use embb.Network.Plugin.Heads.{StartHead}
use embb.Network.Plugin.Messages.{start_head, sent_start, IsEmpty, message-bytes, push-all_of}
use embb.Network.Plugin.Sending.{head_of, arguments_of, action_of, IsOutgoing}
use embb.Network.Plugin.Return.{HasEntries}

-- The message without its data.
abbrev pub bare_items : StartHead → List Item
bare_items h = int8 start_task ∷ start_head h

length-bare_items : (h : StartHead) → length (encode_all (bare_items h)) ≡ 29
unfolding encode_all encode to_bytes
length-bare_items h = refl

start_message-bare :
    (action : NetworkAction) (that : Task) (handle : Handle) (arguments : List ℕ) (b : Buffer)
    → IsEmpty b
    → length arguments ≡ to_int32 that.arguments_size
    → 29 ≤ b.capacity
    → b.capacity < 29 + length arguments
    → start_message action that handle arguments b
      ≡ push_all b (bare_items (sent_start action that handle))
unfolding start_message push_all push
start_message-bare action that handle arguments b (v, start, none) e fit over =
    let items = bare_items (sent_start action that handle) in
    let n = length-bare_items (sent_start action that handle) in
    let (valid, bytes, position, capacity) = push_all-bytes {b = b} items v (omega (arith, n)) in
    let b8 = push_all b items in
    let full = ap length bytes ∙ length-append (contents b) (encode_all items) in
    let size = length-read b8.bytes b8.position (b8.size - b8.position) in
    let size' = length-read b.bytes b.position (b.size - b.position) in
    let refused = push_back_rawdata_refines {b = b8} arguments valid in
    push-all_of b8 (to_int32 that.arguments_size) arguments e
    ∙ elim refused [ inl fits ↦ absurd (omega (arith, fits.0)) | inr kept ↦ kept.2 ]

-- Where the buffer of a plugin's action is empty and has room for the head of a message but not for
-- the arguments of the task, which is valid, of that valid action and in a pool with an entry for
-- each id and entry 0, and the connection takes bytes, network_task_start still succeeds and leaves
-- the task running: it sends the head, with the size of the arguments, and none of the arguments.
pub network_task_start-truncated :
    {S : Type 0} (send : ℕ → Send S) (sent : S → List ℕ) (w : Net S) (task : Handle)
    → IsSink (send (action_of w task).socket) sent
    → IsOutgoing w task
    → HasEntries w.system.task_pool
    → 29 ≤ (action_of w task).send_buffer.capacity
    → (action_of w task).send_buffer.capacity < 29 + (task_at w.system task.id).arguments_size
    → let (status, w') = network_task_start send w task in
      (status ≡ success)
      × ((task_at w'.system task.id).state ≡ running)
      × (sent w'.sockets ≡ sent w.sockets ++ encode_all (bare_items (head_of w task)))
unfolding network_task_start send_start set_state
network_task_start-truncated send sent w task sink out entries fit over =
    let that = task_at w.system task.id in
    let a = action_of w task in
    let handle = Pool.handle_of w.system.task_pool task.id in
    let arguments = arguments_of w task in
    let b = start_message a that handle arguments a.send_buffer in
    let size : length arguments ≡ to_int32 that.arguments_size =
      omega (arith, out.arguments, out.small) in
    let items = bare_items (head_of w task) in
    let all =
      (sendbuffer-sent (send a.socket) sent sink b w.sockets).1
      ∙ ap (λ bs. sent w.sockets ++ bs)
          (ap (λ (m : Buffer). read m.bytes 0 m.size)
              (start_message-bare a that handle arguments a.send_buffer out.empty size fit
                (omega (arith, out.arguments, over)))
            ∙ message-bytes items out.empty
                (omega (arith, length-bare_items (head_of w task), fit))) in
    let (low, high) = is_handle_valid-in_range w.system.task_pool task out.valid in
    let started =
      ap (λ (t : Task). t.state)
        (get_object-modify w.system.task_pool task.id (λ t. set_state t running) no_task
          (omega (arith, entries))) in
    let open_node = out.initialized in
    let good = out.valid in let good' = out.action_valid in ground (arith, all, started)
