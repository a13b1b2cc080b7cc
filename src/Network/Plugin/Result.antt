-- ===== src/Network/Plugin/Result.antt =====
-- The result of a task that has run on another node (mtapi_network_c/src/embb_mtapi_network.c).
use embb.Common.{
  ℕ, ap, sym, ◌∙◌, ◌+◌, ◌^◌, ◌≤◌, ◌<◌, ◌≡◌, refl, List, ◌++◌, Bool, true, arith, length,
  if◌then◌else◌,
}
use mathlib.Core.List.{append-nil}
use embb.Mtapi.Status.{success, code-lt}
use embb.Mtapi.Pool
use embb.Mtapi.Pool.{Pool, Handle}
use embb.Mtapi.System.{task_at}
use embb.Network.Buffer
use embb.Network.Buffer.{Buffer, to_bytes, read, pop_front_rawdata}
use embb.Network.Buffer.Valid.{IsValid, contents-clear}
use embb.Network.Buffer.Items.{encode, encode_all}
use embb.Network.Buffer.RoundTrip.{pop_front_rawdata-bytes}
use embb.Network.Socket.{Receive, Send, recvbuffer_sized}
use embb.Network.Socket.Stream.{IsStream, IsSink, recvbuffer_sized-received, sendbuffer-sent}
use embb.Network.Plugin.{
  Net, NetworkTask, to_int32, result_message, network_task_complete, send_result,
}
use embb.Network.Plugin.Heads.{Locals, ResultHead, pop_result}
use embb.Network.Plugin.Thread.{handle_result, take_result}
use embb.Network.Plugin.Incoming.{IsCleared}
use embb.Network.Plugin.Messages.{
  result_head, result_items, sent_result, IsResultHead, IsEmpty, message-bytes,
  result_message-push_all, pop_result-head, length-result_head,
}

-- The handle that a result is for.
abbrev pub handle_for : ResultHead → Handle
handle_for h = record { tag = h.task_tag; id = h.task_id }

guarded :
    {A : Type 0} (x y z : Bool) (p q r s : A)
    → x ≡ true
    → y ≡ true
    → z ≡ true
    → (if x then (if y then (if z then p else q) else r) else s) ≡ p
guarded x y z p q r s e f g = ground arith

module _ {S : Type 0} (recv : Receive S) (pending : S → List ℕ)
    (stream : IsStream recv pending) where
  pub handle_result-message :
      (l : Locals) (b : Buffer) (w : Net S) (h : ResultHead) (result rest : List ℕ)
      → IsResultHead h
      → length result ≡ h.results_size
      → IsCleared b.capacity b
      → 16 ≤ b.capacity
      → h.results_size ≤ b.capacity
      → pending w.sockets ≡ encode_all (result_head h) ++ (result ++ rest)
      → w.system.node.is_initialized ≡ true
      → Pool.is_handle_valid w.system.task_pool (handle_for h) ≡ true
      → Pool.is_handle_valid w.system.node.action_pool (task_at w.system h.task_id).action ≡ true
      → (b' : Buffer) × (sockets : S) × (pending sockets ≡ rest)
        × (handle_result recv l b w ≡ (
          b',
          take_result h.task_id
              (task_at w.system h.task_id)
              h.task_status
              result
              (record w { sockets = sockets }),
        ))
  unfolding handle_result Buffer.clear
  handle_result-message l b w h result rest is whole c fit fit' p open_node valid valid' =
      let (e, v1, start1, cap1, bytes1, left1) =
        recvbuffer_sized-received recv pending stream {b = b} (encode_all (result_head h))
          (result ++ rest) 16 w.sockets (length-result_head h) c.valid c.position fit p in
      let (err, b1, sockets1) = recvbuffer_sized recv b 16 w.sockets in
      let (same, v2, cap2) = pop_result-head {b = b1} l h is v1 bytes1 in
      let (h', b2) = pop_result l b1 in
      let size : length result ≡ h'.results_size =
        whole ∙ ap (λ (x : ResultHead). x.results_size) (sym same) in
      let (e3, v3, start3, cap3, bytes3, left3) =
        recvbuffer_sized-received recv pending stream {b = Buffer.clear b2} result rest
          h'.results_size sockets1 size (contents-clear v2).0 refl
          (omega (arith, size, whole, cap1, cap2)) left1 in
      let (err3, b3, sockets2) = recvbuffer_sized recv (Buffer.clear b2) h'.results_size sockets1 in
      let old = w.blocks (task_at w.system h'.task_id).result_buffer in
      let popped = pop_front_rawdata-bytes {b = b3} result old h'.results_size v3 size bytes3 in
      let b4 = (pop_front_rawdata b3 h'.results_size old).2 in
      let w' = record w { sockets = sockets2 } in
      let valid1 : Pool.is_handle_valid w.system.task_pool (handle_for h') ≡ true =
        ap (λ x. Pool.is_handle_valid w.system.task_pool (handle_for x)) same ∙ valid in
      let valid2 : Pool.is_handle_valid w.system.node.action_pool
            (task_at w.system h'.task_id).action
          ≡ true =
        ap
          (λ (x : ResultHead).
            Pool.is_handle_valid w.system.node.action_pool (task_at w.system x.task_id).action)
          same
        ∙ valid' in
      (
        b4,
        sockets2,
        left3,
        guarded _ _ _ _ _ _ _ open_node valid1 valid2 ∙ λ i. (
          b4,
          take_result (same i).task_id (task_at w.system (same i).task_id) (same i).task_status
              (popped i) w',
        ),
      )

abbrev pub network_task_of : {S : Type 0} → Net S → Handle → NetworkTask
network_task_of w task = w.tasks (task_at w.system task.id).attributes.user_data

abbrev pub result_of : {S : Type 0} → Net S → Handle → List ℕ
result_of w task = w.blocks (task_at w.system task.id).result_buffer

-- A valid task of a valid action, started by the plugin, whose result fits into the plugin's buffer,
-- with as many bytes at the address of the result as it has.
pub record CanReturn {S : Type 0} (w : Net S) (task : Handle) : Type 0 where
  pub initialized : w.system.node.is_initialized ≡ true
  pub valid : Pool.is_handle_valid w.system.task_pool task ≡ true
  pub action_valid :
      Pool.is_handle_valid w.system.node.action_pool (task_at w.system task.id).action ≡ true
  pub remote_id : (network_task_of w task).remote_task_id < 2 ^ 32
  pub remote_tag : (network_task_of w task).remote_task_tag < 2 ^ 32
  pub small : (task_at w.system task.id).result_size < 2 ^ 31
  pub result : length (result_of w task) ≡ (task_at w.system task.id).result_size
  pub buffer : IsValid w.plugin.send_buffer
  pub room : 17 + (task_at w.system task.id).result_size ≤ w.plugin.send_buffer.capacity

abbrev pub result_head_of : {S : Type 0} → Net S → Handle → ResultHead
result_head_of w task = sent_result (network_task_of w task) (task_at w.system task.id)

pub head-IsResultHead :
    {S : Type 0} (w : Net S) (task : Handle)
    → CanReturn w task
    → IsResultHead (result_head_of w task)
head-IsResultHead w task can = record {
  task_id = can.remote_id;
  task_tag = can.remote_tag;
  task_status = omega (arith, code-lt (task_at w.system task.id).error_code);
  results_size = omega (arith, can.small);
}

length-result_items :
    (h : ResultHead) (result : List ℕ)
    → length (encode_all (result_items h result)) ≡ 17 + length result
unfolding encode_all encode to_bytes
length-result_items h result = omega (arith, ap length (append-nil result))

clear-IsEmpty : {b : Buffer} → IsValid b → IsEmpty (Buffer.clear b)
unfolding Buffer.clear
clear-IsEmpty v = ((contents-clear v).0, refl, refl)

clear-capacity : (b : Buffer) → (Buffer.clear b).capacity ≡ b.capacity
unfolding Buffer.clear
clear-capacity b = refl

module _ {S : Type 0} (send : ℕ → Send S) (sent : S → List ℕ) where
  pub network_task_complete-sent :
      (w : Net S) (task : Handle)
      → IsSink (send (network_task_of w task).socket) sent
      → CanReturn w task
      → let (status, w') = network_task_complete send w task in
        (status ≡ success)
        × (sent w'.sockets
            ≡ sent w.sockets
              ++ encode_all (result_items (result_head_of w task) (result_of w task)))
  unfolding network_task_complete send_result
  network_task_complete-sent w task sink can =
      let that = task_at w.system task.id in
      let network_task = network_task_of w task in
      let result = result_of w task in
      let b = result_message network_task that result w.plugin.send_buffer in
      let size : length result ≡ to_int32 that.result_size = omega (arith, can.result, can.small) in
      let items = result_items (result_head_of w task) result in
      let all =
        (sendbuffer-sent (send network_task.socket) sent sink b w.sockets).1
        ∙ ap (λ bs. sent w.sockets ++ bs)
            (ap (λ (m : Buffer). read m.bytes 0 m.size)
                (result_message-push_all network_task that result w.plugin.send_buffer size)
              ∙ message-bytes items (clear-IsEmpty can.buffer) (
                  omega (
                    arith,
                    length-result_items (result_head_of w task) result,
                    can.result,
                    can.room,
                    clear-capacity w.plugin.send_buffer,
                  ))) in
      let open_node = can.initialized in
      let good = can.valid in let good' = can.action_valid in ground (arith, all)
