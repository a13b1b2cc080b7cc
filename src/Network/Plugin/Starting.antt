-- ===== src/Network/Plugin/Starting.antt =====
-- The branch of the thread for a task to start (mtapi_network_c/src/embb_mtapi_network.c).
use embb.Common.{ℕ, ap, sym, ◌∙◌, ◌≤◌, ◌≡◌, refl, List, ◌++◌, arith, length}
use embb.Mtapi.Status.{Status}
use embb.Mtapi.Pool.{Handle}
use embb.Mtapi.System.Start.{start}
use embb.Network.Buffer
use embb.Network.Buffer.{Buffer, to_bytes, read, pop_front_rawdata}
use embb.Network.Buffer.Valid.{contents-clear}
use embb.Network.Buffer.Items.{encode_all}
use embb.Network.Buffer.RoundTrip.{pop_front_rawdata-bytes}
use embb.Network.Socket.{Receive, recvbuffer_sized}
use embb.Network.Socket.Stream.{IsStream, recvbuffer_sized-received}
use embb.Network.Plugin.{Net, put}
use embb.Network.Plugin.Heads.{Locals, StartHead, pop_start}
use embb.Network.Plugin.Thread.{remote_request, after_start, handle_start}
use embb.Network.Plugin.Incoming.{IsCleared}
use embb.Network.Plugin.Messages.{start_head, IsStartHead, pop_start-head, length-start_head}

module _ {S : Type 0} (recv : Receive S) (pending : S → List ℕ)
    (stream : IsStream recv pending) where
  -- What the branch makes of a message: the request, with the network task and the arguments in the
  -- blocks that are allocated for them.
  pub handle_start-message :
      (plugin : ℕ → Handle → Status) (complete : ℕ) (l : Locals) (socket : ℕ) (b : Buffer)
      (w : Net S) (h : StartHead) (arguments rest : List ℕ)
      → IsStartHead h
      → length arguments ≡ h.arguments_size
      → IsCleared b.capacity b
      → 28 ≤ b.capacity
      → h.arguments_size ≤ b.capacity
      → pending w.sockets ≡ encode_all (start_head h) ++ (arguments ++ rest)
      → (b' : Buffer) × (sockets : S) × (pending sockets ≡ rest)
        × (handle_start recv plugin complete l socket b w
            ≡ after_start
                (record w {
                  tasks = put w.tasks l.network_task (record {
                    socket = socket;
                    remote_task_id = h.remote_task_id;
                    remote_task_tag = h.remote_task_tag;
                  });
                  blocks = put w.blocks l.arguments arguments;
                  sockets = sockets;
                })
                b'
                (start plugin w.system (remote_request l w.system.node complete h)))
  unfolding handle_start Buffer.clear
  handle_start-message plugin complete l socket b w h arguments rest is whole c fit fit' p =
      let (e, v1, start1, cap1, bytes1, left1) =
        recvbuffer_sized-received recv pending stream {b = b} (encode_all (start_head h))
          (arguments ++ rest) 28 w.sockets (length-start_head h) c.valid c.position fit p in
      let (err, b1, sockets1) = recvbuffer_sized recv b 28 w.sockets in
      let (same, v2, cap2) = pop_start-head {b = b1} l h is v1 bytes1 in
      let (h', b2) = pop_start l b1 in
      let size : length arguments ≡ h'.arguments_size =
        whole ∙ ap (λ (x : StartHead). x.arguments_size) (sym same) in
      let (e3, v3, start3, cap3, bytes3, left3) =
        recvbuffer_sized-received recv pending stream {b = Buffer.clear b2} arguments rest
          h'.arguments_size sockets1 size (contents-clear v2).0 refl
          (omega (arith, size, whole, cap1, cap2)) left1 in
      let (err3, b3, sockets2) =
        recvbuffer_sized recv (Buffer.clear b2) h'.arguments_size sockets1 in
      let popped =
        pop_front_rawdata-bytes {b = b3} arguments (w.blocks l.arguments) h'.arguments_size v3 size
          bytes3 in
      let b4 = (pop_front_rawdata b3 h'.arguments_size (w.blocks l.arguments)).2 in
      (
        Buffer.clear b4,
        sockets2,
        left3,
        λ i.
            after_start
              (record w {
                tasks = put w.tasks l.network_task (record {
                  socket = socket;
                  remote_task_id = (same i).remote_task_id;
                  remote_task_tag = (same i).remote_task_tag;
                });
                blocks = put w.blocks l.arguments (popped i);
                sockets = sockets2;
              })
              (Buffer.clear b4)
              (start plugin w.system (remote_request l w.system.node complete (same i))),
      )
