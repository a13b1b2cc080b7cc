-- ===== src/Network/Plugin/Messages.antt =====
-- The bytes of the plugin's messages, and what the receiver makes of them
-- (mtapi_network_c/src/embb_mtapi_network.c).
use embb.Common.{
  ℕ, ap, ap₂, sym, ◌∙◌, ◌-◌, ◌^◌, ◌≤◌, ◌<◌, ◌≡◌, refl, List, [], ◌∷◌, ◌++◌, arith, length, drop,
  take, take-all,
}
use mathlib.Core.List.{append_assoc}
use embb.Mtapi.Status.{code}
use embb.Mtapi.Pool.{Handle}
use embb.Mtapi.Task.{Task}
use embb.Network.Buffer
use embb.Network.Buffer.{Buffer, to_bytes, read, push_back_rawdata, pop_front_int32}
use embb.Network.Buffer.Valid.{IsValid, contents}
use embb.Network.Buffer.Items.{Item, int8, int32, rawdata, encode, push, push_all, encode_all}
use embb.Network.Buffer.RoundTrip.{push_all-bytes, pop_front_int32-bytes}
use embb.Network.Plugin.{
  NetworkAction, NetworkTask, start_task, return_result, to_int32, start_message, result_message,
}
use embb.Network.Plugin.Heads.{Locals, StartHead, ResultHead, pop_start, pop_result}

pub encode_all-append : (xs ys : List Item) → encode_all (xs ++ ys) ≡ encode_all xs ++ encode_all ys
unfolding encode_all
encode_all-append [] ys = refl
encode_all-append (x ∷ xs) ys =
    ap (λ bs. encode x ++ bs) (encode_all-append xs ys)
    ∙ sym (append_assoc (encode x) (encode_all xs) (encode_all ys))

-- The numbers at the head of a message.
abbrev pub start_head : StartHead → List Item
start_head h =
    int32 h.domain_id
    ∷ int32 h.job_id
    ∷ int32 h.priority
    ∷ int32 h.remote_task_id
    ∷ int32 h.remote_task_tag
    ∷ int32 h.results_size
    ∷ int32 h.arguments_size
    ∷ []

abbrev pub result_head : ResultHead → List Item
result_head h = int32 h.task_id ∷ int32 h.task_tag ∷ int32 h.task_status ∷ int32 h.results_size ∷ []

-- Heads of numbers of 32 bits.
pub record IsStartHead (h : StartHead) : Type 0 where
  pub domain_id : h.domain_id < 2 ^ 32
  pub job_id : h.job_id < 2 ^ 32
  pub priority : h.priority < 2 ^ 32
  pub remote_task_id : h.remote_task_id < 2 ^ 32
  pub remote_task_tag : h.remote_task_tag < 2 ^ 32
  pub results_size : h.results_size < 2 ^ 32
  pub arguments_size : h.arguments_size < 2 ^ 32

pub record IsResultHead (h : ResultHead) : Type 0 where
  pub task_id : h.task_id < 2 ^ 32
  pub task_tag : h.task_tag < 2 ^ 32
  pub task_status : h.task_status < 2 ^ 32
  pub results_size : h.results_size < 2 ^ 32

-- The whole message: the operation, the head and the data.
abbrev pub start_items : StartHead → List ℕ → List Item
start_items h arguments = int8 start_task ∷ start_head h ++ (rawdata arguments ∷ [])

abbrev pub result_items : ResultHead → List ℕ → List Item
result_items h result = int8 return_result ∷ result_head h ++ (rawdata result ∷ [])

-- The head that the sender writes.
abbrev pub sent_start : NetworkAction → Task → Handle → StartHead
sent_start action that handle = record {
  domain_id = action.domain_id;
  job_id = action.job_id;
  priority = that.attributes.priority;
  remote_task_id = handle.id;
  remote_task_tag = handle.tag;
  results_size = to_int32 that.result_size;
  arguments_size = to_int32 that.arguments_size;
}

abbrev pub sent_result : NetworkTask → Task → ResultHead
sent_result task that = record {
  task_id = task.remote_task_id;
  task_tag = task.remote_task_tag;
  task_status = code that.error_code;
  results_size = to_int32 that.result_size;
}

pub push-all_of :
    (b : Buffer) (n : ℕ) (bytes : List ℕ)
    → length bytes ≡ n
    → (push_back_rawdata b n (take n bytes)).1 ≡ (push_back_rawdata b (length bytes) bytes).1
push-all_of b n bytes e =
    ap₂ (λ k xs. (push_back_rawdata b k xs).1) (sym e) (take-all n bytes (omega (arith, e)))

pub start_message-push_all :
    (action : NetworkAction) (that : Task) (handle : Handle) (arguments : List ℕ) (b : Buffer)
    → length arguments ≡ to_int32 that.arguments_size
    → start_message action that handle arguments b
      ≡ push_all b (start_items (sent_start action that handle) arguments)
unfolding start_message push_all push
start_message-push_all action that handle arguments b e = push-all_of _ _ arguments e

pub result_message-push_all :
    (task : NetworkTask) (that : Task) (result : List ℕ) (b : Buffer)
    → length result ≡ to_int32 that.result_size
    → result_message task that result b
      ≡ push_all (Buffer.clear b) (result_items (sent_result task that) result)
unfolding result_message push_all push
result_message-push_all task that result b e = push-all_of _ _ result e

-- A buffer with nothing in it, at its start.
abbrev pub IsEmpty : Buffer → Type 0
IsEmpty b = IsValid b × (b.position ≡ 0) × (b.size ≡ 0)

-- What is then in the buffer from its first byte on.
pub message-bytes :
    {b : Buffer} (items : List Item)
    → IsEmpty b
    → length (encode_all items) ≤ b.capacity
    → read (push_all b items).bytes 0 (push_all b items).size ≡ encode_all items
unfolding read
message-bytes {b} items (v, start, none) fit =
    let (valid, bytes, position, capacity) = push_all-bytes {b = b} items v (omega arith) in
    let whole = push_all b items in
    ap (λ i. read whole.bytes i whole.size) {x = 0} {y = whole.position} (omega arith)
    ∙ ap (read whole.bytes whole.position) {x = whole.size} {y = whole.size - whole.position}
        (omega arith)
    ∙ bytes
    ∙ ap (λ n. read b.bytes b.position n ++ encode_all items) {x = b.size - b.position} {y = 0}
        (omega arith)

pub pop_start-head :
    {b : Buffer} (l : Locals) (h : StartHead)
    → IsStartHead h
    → IsValid b
    → contents b ≡ encode_all (start_head h)
    → let (h', b') = pop_start l b in (h' ≡ h) × IsValid b' × (b'.capacity ≡ b.capacity)
unfolding pop_start encode_all encode
pop_start-head {b} l h is v e =
    let tail = λ (n : ℕ). encode_all (drop n (start_head h)) in
    let b1 = (pop_front_int32 b l.domain_id).2 in
    let b2 = (pop_front_int32 b1 l.job_id).2 in
    let b3 = (pop_front_int32 b2 0).2 in
    let b4 = (pop_front_int32 b3 l.remote_task_id).2 in
    let b5 = (pop_front_int32 b4 l.remote_task_tag).2 in
    let b6 = (pop_front_int32 b5 l.results_size).2 in
    let q1 = pop_front_int32-bytes h.domain_id l.domain_id (tail 1) v is.domain_id e in
    let q2 = pop_front_int32-bytes {b = b1} h.job_id l.job_id (tail 2) q1.1 is.job_id q1.2 in
    let q3 = pop_front_int32-bytes {b = b2} h.priority 0 (tail 3) q2.1 is.priority q2.2 in
    let q4 =
      pop_front_int32-bytes {b = b3} h.remote_task_id l.remote_task_id (tail 4) q3.1
        is.remote_task_id q3.2 in
    let q5 =
      pop_front_int32-bytes {b = b4} h.remote_task_tag l.remote_task_tag (tail 5) q4.1
        is.remote_task_tag q4.2 in
    let q6 =
      pop_front_int32-bytes {b = b5} h.results_size l.results_size (tail 6) q5.1 is.results_size
        q5.2 in
    let q7 =
      pop_front_int32-bytes {b = b6} h.arguments_size l.arguments_size (tail 7) q6.1
        is.arguments_size q6.2 in
    (
      λ i. record {
        domain_id = q1.0 i;
        job_id = q2.0 i;
        priority = q3.0 i;
        remote_task_id = q4.0 i;
        remote_task_tag = q5.0 i;
        results_size = q6.0 i;
        arguments_size = q7.0 i;
      },
      q7.1,
      omega (arith, q1.3, q2.3, q3.3, q4.3, q5.3, q6.3, q7.3),
    )

pub pop_result-head :
    {b : Buffer} (l : Locals) (h : ResultHead)
    → IsResultHead h
    → IsValid b
    → contents b ≡ encode_all (result_head h)
    → let (h', b') = pop_result l b in (h' ≡ h) × IsValid b' × (b'.capacity ≡ b.capacity)
unfolding pop_result encode_all encode
pop_result-head {b} l h is v e =
    let tail = λ (n : ℕ). encode_all (drop n (result_head h)) in
    let b1 = (pop_front_int32 b l.task_id).2 in
    let b2 = (pop_front_int32 b1 l.task_tag).2 in
    let b3 = (pop_front_int32 b2 l.task_status).2 in
    let q1 = pop_front_int32-bytes h.task_id l.task_id (tail 1) v is.task_id e in
    let q2 = pop_front_int32-bytes {b = b1} h.task_tag l.task_tag (tail 2) q1.1 is.task_tag q1.2 in
    let q3 =
      pop_front_int32-bytes {b = b2} h.task_status l.task_status (tail 3) q2.1 is.task_status
        q2.2 in
    let q4 =
      pop_front_int32-bytes {b = b3} h.results_size l.results_size (tail 4) q3.1 is.results_size
        q3.2 in
    (
      λ i. record {
        task_id = q1.0 i;
        task_tag = q2.0 i;
        task_status = q3.0 i;
        results_size = q4.0 i;
      },
      q4.1,
      omega (arith, q1.3, q2.3, q3.3, q4.3),
    )

pub length-start_head : (h : StartHead) → length (encode_all (start_head h)) ≡ 28
unfolding encode_all encode to_bytes
length-start_head h = refl

pub length-result_head : (h : ResultHead) → length (encode_all (result_head h)) ≡ 16
unfolding encode_all encode to_bytes
length-result_head h = refl
