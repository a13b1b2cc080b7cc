-- ===== src/Network/Socket/Stream.antt =====
-- Bytes sent and received on a connection, whatever pieces the system takes and delivers them in
-- (mtapi_network_c/src/embb_mtapi_network_socket.c).
use embb.Common.{
  ℕ, zero, suc, ap, sym, ◌∙◌, ◌+◌, ◌-◌, ◌≤◌, ◌<◌, ◌≡◌, ◌⊎◌, refl, List, [], ◌∷◌, ◌++◌, arith,
  length, length-append, ◌==◌, take, drop, take-append-drop, take-all, length-drop, Bool-cases, inl,
  inr, false,
}
use mathlib.Core.List.{append-nil, append_assoc}
use mathlib.Core.Path.{subst}
use embb.Network.Buffer.{Buffer, read, write}
use embb.Network.Buffer.Bytes.{
  length-write, length-read, read-append, read-write_before, read-write_self,
}
use embb.Network.Buffer.Valid.{IsValid, contents}
use embb.Network.Socket.{Receive, Send, receive_from, recvbuffer_sized, send_from, sendbuffer}

module _ {S : Type 0} where
  -- A connection that stays open: recv waits for a byte, and delivers at most as many as it is asked
  -- for of those that wait, in their order.
  pub record IsStream (recv : Receive S) (pending : S → List ℕ) : Type 0 where
    pub delivers :
        (s : S) (n : ℕ)
        → 0 < n
        → 0 < length (pending s)
        → let (got, s') = recv s n in
          (0 < length got) × (length got ≤ n) × (pending s ≡ got ++ pending s')

  -- A connection that takes bytes: send takes at least one of those handed over, from the front.
  pub record IsSink (send : Send S) (sent : S → List ℕ) : Type 0 where
    pub takes :
        (s : S) (bytes : List ℕ)
        → let (result, s') = send s bytes in
          (result ≤ length bytes)
          × ((length bytes ≡ 0) ⊎ (0 < result))
          × (sent s' ≡ sent s ++ take result bytes)

split-append :
    (xs zs : List ℕ) {ys ws : List ℕ}
    → length xs ≤ length zs
    → xs ++ ys ≡ zs ++ ws
    → (t : List ℕ) × (zs ≡ xs ++ t) × (ys ≡ t ++ ws)
split-append [] zs h e = (zs, refl, e)
split-append (x ∷ xs) [] h e = absurd (omega arith)
split-append (x ∷ xs) (z ∷ zs) {ys} {ws} h e =
    let (t, f, g) = split-append xs zs {ys = ys} {ws = ws} (omega arith) (ground (arith, e)) in
    (t, ground (arith, e, f), g)

nil_of_length : (xs : List ℕ) → length xs ≡ 0 → xs ≡ []
nil_of_length [] e = refl
nil_of_length (x ∷ xs) e = absurd (omega arith)

read-write_next :
    (bytes : List ℕ) (cnt : ℕ) (got : List ℕ)
    → cnt + length got ≤ length bytes
    → read (write bytes cnt got) 0 (cnt + length got) ≡ read bytes 0 cnt ++ got
read-write_next bytes cnt got h =
    let new = write bytes cnt got in
    read-append new 0 cnt (length got)
    ∙ ap (λ front. front ++ read new (0 + cnt) (length got))
        (read-write_before bytes 0 cnt cnt got (omega arith))
    ∙ ap (λ back. read bytes 0 cnt ++ back)
        (ap (λ i. read new i (length got)) {x = 0 + cnt} {y = cnt} (omega arith)
          ∙ read-write_self bytes cnt got h)

module _ {S : Type 0} (recv : Receive S) (pending : S → List ℕ)
    (stream : IsStream recv pending) where
  receive_from-all :
      (rounds size cnt : ℕ) (bytes done todo rest : List ℕ) (s : S)
      → read bytes 0 cnt ≡ done
      → pending s ≡ todo ++ rest
      → cnt + length todo ≡ size
      → 0 < length todo
      → length todo ≤ rounds
      → size ≤ length bytes
      → let (err, bytes', s') = receive_from recv rounds size cnt bytes s in
        (err ≡ size)
        × (length bytes' ≡ length bytes)
        × (read bytes' 0 size ≡ done ++ todo)
        × (pending s' ≡ rest)
  unfolding receive_from
  receive_from-all zero size cnt bytes done todo rest s e p n some_left long fit =
      absurd (omega arith)
  receive_from-all (suc rounds) size cnt bytes done todo rest s e p n some_left long fit =
      let (got, s') = recv s (size - cnt) in
      let (some_got, few, order) =
        stream.delivers s (size - cnt) (omega arith)
          (omega (arith, ap length p, length-append todo rest)) in
      let (t, whole, left) =
        split-append got todo {ys = pending s'} {ws = rest} (omega arith) (sym order ∙ p) in
      let long' = ap length whole ∙ length-append got t in
      let new = write bytes cnt got in
      let filled = read-write_next bytes cnt got (omega arith) ∙ ap (λ front. front ++ got) e in
      let some_left' : (length got == 0) ≡ false = ground arith in
      elim (Bool-cases (cnt + length got == size)) [
        | inl all ↦
            let end : t ≡ [] = nil_of_length t (ground arith) in
            rw (some_left', all)
              (
                refl,
                length-write bytes cnt got,
                ap (read new 0) {x = size} {y = cnt + length got} (ground arith)
                    ∙ filled
                    ∙ ap (λ x. done ++ x)
                        (sym (append-nil got) ∙ ap (λ x. got ++ x) (sym end) ∙ sym whole),
                left ∙ ap (λ x. x ++ rest) end,
              )
        | inr more ↦
            let next =
              receive_from-all rounds size (cnt + length got) new (done ++ got) t rest s' filled
                left (omega arith) (ground arith) (omega arith)
                (omega (arith, length-write bytes cnt got)) in
            rw (some_left', more)
              (
                next.0,
                next.1 ∙ length-write bytes cnt got,
                next.2 ∙ append_assoc done got t ∙ ap (λ x. done ++ x) (sym whole),
                next.3,
              )
      ]

  -- On a connection that stays open, on which at least as many bytes come as a call asks for, no
  -- more than the capacity, the call on a valid buffer whose position is 0 returns the size,
  -- whatever pieces the bytes come in: the buffer is valid and holds the first of the bytes, as
  -- many as asked for, and those behind them are still to be received.
  pub recvbuffer_sized-contents :
      (b : Buffer) (bytes rest : List ℕ) (s : S)
      → IsValid b
      → b.position ≡ 0
      → length bytes ≤ b.capacity
      → pending s ≡ bytes ++ rest
      → let (err, b', s') = recvbuffer_sized recv b (length bytes) s in
        (err ≡ length bytes)
        × IsValid b'
        × (b'.position ≡ 0)
        × (b'.capacity ≡ b.capacity)
        × (contents b' ≡ bytes)
        × (pending s' ≡ rest)
  unfolding recvbuffer_sized read
  recvbuffer_sized-contents b [] rest s v e fit p = ground arith
  recvbuffer_sized-contents b (x ∷ bytes) rest s v e fit p =
      let all =
        receive_from-all (length (x ∷ bytes)) (length (x ∷ bytes)) 0 b.bytes [] (x ∷ bytes) rest s
          refl p (omega arith) (omega arith) (omega arith) (omega (arith, v.block)) in
      ground arith

  -- The same for a size that is the length of the bytes.
  pub recvbuffer_sized-received :
      {b : Buffer} (bytes rest : List ℕ) (n : ℕ) (s : S)
      → length bytes ≡ n
      → IsValid b
      → b.position ≡ 0
      → n ≤ b.capacity
      → pending s ≡ bytes ++ rest
      → let (err, b', s') = recvbuffer_sized recv b n s in
        (err ≡ n)
        × IsValid b'
        × (b'.position ≡ 0)
        × (b'.capacity ≡ b.capacity)
        × (contents b' ≡ bytes)
        × (pending s' ≡ rest)
  recvbuffer_sized-received {b} bytes rest n s e v start fit p =
      subst
        (λ k.
          let (err, b', s') = recvbuffer_sized recv b k s in
          (err ≡ k)
          × IsValid b'
          × (b'.position ≡ 0)
          × (b'.capacity ≡ b.capacity)
          × (contents b' ≡ bytes)
          × (pending s' ≡ rest))
        e (recvbuffer_sized-contents b bytes rest s v start (omega (arith, e)) p)

module _ {S : Type 0} (send : Send S) (sent : S → List ℕ) (sink : IsSink send sent) where
  send_from-all :
      (rounds size cnt : ℕ) (rest : List ℕ) (s : S)
      → cnt + length rest ≡ size
      → length rest < rounds
      → let (result, s') = send_from send rounds size cnt rest s in
        (result ≡ size) × (sent s' ≡ sent s ++ rest)
  unfolding send_from
  send_from-all zero size cnt rest s n h = absurd (omega arith)
  send_from-all (suc rounds) size cnt rest s n h =
      let (result, s') = send s rest in
      let (few, pos, order) = sink.takes s rest in
      elim (Bool-cases (result == 0)) [
        | inl done ↦
            rw done
              (ground arith, order ∙ ap (λ x. sent s ++ x) (take-all result rest (ground arith)))
        | inr more ↦ elim (Bool-cases (cnt + result == size)) [
          | inl all ↦
              rw (more, all)
                (refl, order ∙ ap (λ x. sent s ++ x) (take-all result rest (ground arith)))
          | inr on ↦
              let next =
                send_from-all rounds size (cnt + result) (drop result rest) s'
                  (omega (arith, length-drop result rest))
                  (ground (arith, length-drop result rest)) in
              rw (more, on)
                (
                  next.0,
                  next.1
                      ∙ ap (λ x. x ++ drop result rest) order
                      ∙ append_assoc (sent s) (take result rest) (drop result rest)
                      ∙ ap (λ x. sent s ++ x) (take-append-drop result rest),
                )
        ]
      ]

  -- On a connection that takes bytes, a call for a buffer ends, returns its size and sends its
  -- first bytes, as many as its size, in their order, whatever pieces they are taken in.
  pub sendbuffer-sent :
      (b : Buffer) (s : S)
      → let (result, s') = sendbuffer send b s in
        (result ≡ b.size) × (sent s' ≡ sent s ++ read b.bytes 0 b.size)
  unfolding sendbuffer
  sendbuffer-sent b s =
      let n = length-read b.bytes 0 b.size in
      let all =
        send_from-all (suc b.size) b.size 0 (read b.bytes 0 b.size) s (omega (arith, n))
          (omega (arith, n)) in
      (ground arith, all.1)
