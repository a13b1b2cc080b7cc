-- ===== src/Network/Plugin/Incoming.antt =====
-- How the thread takes up a message (mtapi_network_c/src/embb_mtapi_network.c).
use embb.Common.{ℕ, ap, sym, ◌∙◌, ◌≤◌, ◌<◌, ◌≡◌, refl, false, List, [], ◌++◌, ◌==◌, arith}
use mathlib.Core.List.{append-nil}
use embb.Mtapi.Status.{Status}
use embb.Mtapi.Pool.{Handle}
use embb.Mtapi.System.Start.{start}
use embb.Network.Buffer
use embb.Network.Buffer.{Buffer, to_bytes, pop_front_int8}
use embb.Network.Buffer.Bytes.{length-to_bytes}
use embb.Network.Buffer.Valid.{IsValid, contents-clear}
use embb.Network.Buffer.RoundTrip.{pop_front_int8-bytes}
use embb.Network.Socket.{Receive, recvbuffer_sized}
use embb.Network.Socket.Stream.{IsStream, recvbuffer_sized-received}
use embb.Network.Plugin.{Net}
use embb.Network.Plugin.Heads.{Locals}
use embb.Network.Plugin.Thread.{handle_message, dispatch}

-- A buffer from whose start on bytes are received.
pub record IsCleared (capacity : ℕ) (b : Buffer) : Type 0 where
  pub valid : IsValid b
  pub position : b.position ≡ 0
  pub size : b.capacity ≡ capacity

pub clear-IsCleared : {b : Buffer} → IsValid b → IsCleared b.capacity (Buffer.clear b)
unfolding Buffer.clear
clear-IsCleared v = record { valid = (contents-clear v).0; position = refl; size = refl }

module _ {S : Type 0} (recv : ℕ → Receive S) (pending : S → List ℕ) (socket : ℕ)
    (stream : IsStream (recv socket) pending) where
  pub handle_message-operation :
      (plugin : ℕ → Handle → Status) (complete : ℕ) (l : Locals) (b : Buffer) (w : Net S)
      (operation : ℕ) (payload : List ℕ)
      → IsValid b
      → 1 ≤ b.capacity
      → operation < 256
      → pending w.sockets ≡ to_bytes 1 operation ++ payload
      → (b' : Buffer) × (sockets : S) × IsCleared b.capacity b'
        × (pending sockets ≡ payload)
        × (handle_message recv plugin complete l socket b w
            ≡ dispatch
                (recv socket)
                plugin
                complete
                l
                socket
                operation
                b'
                (record w { sockets = sockets }))
  unfolding handle_message Buffer.clear
  handle_message-operation plugin complete l b w operation payload v fit small p =
      let cleared = clear-IsCleared v in
      let (e, v1, start, cap, bytes, left) =
        recvbuffer_sized-received (recv socket) pending stream {b = Buffer.clear b}
          (to_bytes 1 operation) payload 1 w.sockets (length-to_bytes 1 operation) cleared.valid
          refl fit p in
      let (err, b1, sockets) = recvbuffer_sized (recv socket) (Buffer.clear b) 1 w.sockets in
      let (same, v2, end, cap') =
        pop_front_int8-bytes {b = b1} operation l.operation [] v1 small
          (bytes ∙ sym (append-nil (to_bytes 1 operation))) in
      let b2 = (pop_front_int8 b1 l.operation).2 in
      (
        Buffer.clear b2,
        sockets,
        record { valid = (contents-clear v2).0; position = refl; size = omega (arith, cap, cap') },
        left,
        let got : (err == 0) ≡ false = ground arith in
            rw got (
              ap
                (λ op.
                  dispatch (recv socket) plugin complete l socket op (Buffer.clear b2)
                    (record w { sockets = sockets }))
                same),
      )
