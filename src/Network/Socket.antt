-- ===== src/Network/Socket.antt =====
-- mtapi_network_c/src/embb_mtapi_network_socket.c: what is built on the system's recv, send and
-- select, which are arguments. `S` is the state of the system's sockets.
pub mod Stream
mod Examples
use embb.Common.{
  ℕ, zero, suc, ◌+◌, ◌-◌, List, Option, none, some, Bool, ltb, ◌==◌, if◌then◌else◌, length, drop,
}
use embb.Network.Buffer.{Buffer, write, read}

-- A call of recv for at most that many bytes: the bytes that it stores, none where it reports an error
-- or the end of the connection.
abbrev pub Receive : Type 0 → Type 0
Receive S = S → ℕ → List ℕ × S

-- A call of send for these bytes: how many it takes, 0 where it reports an error.
abbrev pub Send : Type 0 → Type 0
Send S = S → List ℕ → ℕ × S

module _ {S : Type 0} where
  -- The calls of recv once `cnt` bytes of the block have been filled; `size` rounds are enough. The
  -- result is `err` after the loop, with 0 for what is not positive.
  unfoldable pub receive_from : Receive S → ℕ → ℕ → ℕ → List ℕ → S → ℕ × List ℕ × S
  receive_from recv zero size cnt bytes s = (0, bytes, s)
  receive_from recv (suc rounds) size cnt bytes s =
      let (got, s') = recv s (size - cnt) in
      let bytes' = write bytes cnt got in
      let rest = receive_from recv rounds size (cnt + length got) bytes' s' in
      if length got == 0
      then (0, bytes, s')
      else if cnt + length got == size
      then (size, bytes', s')
      else rest

  -- The end of the call: the size is taken over where all bytes came.
  abbrev pub after_receive : ℕ → Buffer → ℕ × List ℕ × S → ℕ × Buffer × S
  after_receive size b (err, bytes, s) =
      if err == size
      then (size, record b { bytes = bytes; size = size }, s)
      else (0, record b { bytes = bytes }, s)

  unfoldable pub recvbuffer_sized : Receive S → Buffer → ℕ → S → ℕ × Buffer × S
  recvbuffer_sized recv b size s =
      if ltb b.capacity size
      then (0, b, s)
      else if ltb 0 size
      then after_receive size b (receive_from recv size size 0 b.bytes s)
      else after_receive size b (0, b.bytes, s)

  unfoldable pub recvbuffer : Receive S → Buffer → S → ℕ × Buffer × S
  unfolding recvbuffer_sized
  recvbuffer recv b s = recvbuffer_sized recv b b.capacity s

  -- The calls of send for the bytes that are left, once `cnt` have been taken: the last `cnt`.
  unfoldable pub send_from : Send S → ℕ → ℕ → ℕ → List ℕ → S → ℕ × S
  send_from send zero size cnt rest s = (cnt, s)
  send_from send (suc rounds) size cnt rest s =
      let (result, s') = send s rest in
      let next = send_from send rounds size (cnt + result) (drop result rest) s' in
      if result == 0 then (cnt, s') else if cnt + result == size then (size, s') else next

  -- The first call is made for an empty buffer too.
  unfoldable pub sendbuffer : Send S → Buffer → S → ℕ × S
  sendbuffer send b s =
      let (cnt, s') = send_from send (suc b.size) b.size 0 (read b.bytes 0 b.size) s in
      (if cnt == b.size then b.size else 0, s')

-- `FD_ISSET` of the sockets from `ii` on, for the rounds left.
unfoldable pub first_ready : (ℕ → Bool) → ℕ → ℕ → Option ℕ
first_ready is_set zero ii = none
first_ready is_set (suc rounds) ii =
    let rest = first_ready is_set rounds (ii + 1) in if is_set ii then some ii else rest

-- embb_mtapi_network_socket_select: `ready` is what select returned, `none` for 0 or an error, with
-- the sockets that it found; the index is `none` for -1.
unfoldable pub select : Option (ℕ → Bool) → ℕ → Option ℕ
select none count = none
select (some is_set) count = first_ready is_set count 0
