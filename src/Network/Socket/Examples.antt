-- ===== src/Network/Socket/Examples.antt =====
-- Five bytes over connections that carry one byte at a time.
use embb.Common.{ℕ, ◌≡◌, refl, List, [], ◌∷◌, ◌++◌, some, arith, ◌==◌}
use embb.Network.Buffer.{read}
use embb.Network.Buffer.Valid.{IsValid, contents}
use embb.Network.Samples.{send_one, receive_one, stream, sink, buffer, buffer-IsValid}
use embb.Network.Socket.{recvbuffer_sized, sendbuffer, select, first_ready}
use embb.Network.Socket.Stream.{recvbuffer_sized-contents, sendbuffer-sent}

abbrev five : List ℕ
five = 1 ∷ 2 ∷ 3 ∷ 4 ∷ 5 ∷ []

recvbuffer_sized-contents_example :
    let (err, b', s') = recvbuffer_sized receive_one buffer 5 (five ++ five) in
    (err ≡ 5)
    × IsValid b'
    × (b'.position ≡ 0)
    × (b'.capacity ≡ 64)
    × (contents b' ≡ five)
    × (s' ≡ five)
recvbuffer_sized-contents_example =
    recvbuffer_sized-contents receive_one (λ s. s) stream buffer five five (five ++ five)
      buffer-IsValid refl (omega arith) refl

sendbuffer-sent_example :
    let (result, s') = sendbuffer send_one (record buffer { size = 3 }) five in
    (result ≡ 3) × (s' ≡ five ++ read buffer.bytes 0 3)
sendbuffer-sent_example = sendbuffer-sent send_one (λ s. s) sink (record buffer { size = 3 }) five

select_test : select (some (λ socket. socket == 2)) 4 ≡ some 2
unfolding select first_ready
select_test = refl
