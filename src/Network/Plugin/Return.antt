-- ===== src/Network/Plugin/Return.antt =====
-- The task of this node once its result has come back (mtapi_network_c/src/embb_mtapi_network.c).
use embb.Common.{
  ℕ, ap, sym, ◌∙◌, ◌+◌, ◌≤◌, ◌≡◌, refl, List, [], ◌∷◌, ◌++◌, some, true, arith, length,
  if◌then◌else◌,
}
use mathlib.Core.List.{append-nil, append_assoc}
use embb.Mtapi.Status.{Status, success, code, from_code-code}
use embb.Mtapi.Pool
use embb.Mtapi.Pool.{Pool, Handle}
use embb.Mtapi.Pool.Modify.{get_object-modify, is_handle_valid-in_range}
use embb.Mtapi.Group.{no_group, group_at}
use embb.Mtapi.Action.{action_at, no_action}
use embb.Mtapi.Task.{Task, completed, arrive, task_done}
use embb.Mtapi.System.{task_at, no_task, down}
use embb.Network.Buffer
use embb.Network.Buffer.{Buffer, to_bytes}
use embb.Network.Buffer.Valid.{IsValid}
use embb.Network.Buffer.Items.{rawdata, encode, encode_all}
use embb.Network.Buffer.RoundTrip.{append-cancel}
use embb.Network.Socket.{Receive, Send}
use embb.Network.Socket.Stream.{IsStream, IsSink}
use embb.Network.Plugin.{Net, return_result, network_task_complete}
use embb.Network.Plugin.Heads.{Locals, ResultHead}
use embb.Network.Plugin.Thread.{handle_message, dispatch, take_result, returned}
use embb.Network.Plugin.Incoming.{clear-IsCleared, handle_message-operation}
use embb.Network.Plugin.Messages.{encode_all-append, result_head, result_items}
use embb.Network.Plugin.Result.{
  handle_for, network_task_of, result_of, CanReturn, result_head_of, head-IsResultHead,
  handle_result-message, network_task_complete-sent,
}

-- An entry for each id, and entry 0.
abbrev pub HasEntries : {A : Type 0} → Pool A → Type 0
HasEntries p = length p.storage ≡ p.id_pool.capacity + 1

-- A valid task of a valid action on an initialised node.
pub record IsWaiting {S : Type 0} (w : Net S) (task : Handle) : Type 0 where
  pub initialized : w.system.node.is_initialized ≡ true
  pub valid : Pool.is_handle_valid w.system.task_pool task ≡ true
  pub action_valid :
      Pool.is_handle_valid w.system.node.action_pool (task_at w.system task.id).action ≡ true
  pub tasks : HasEntries w.system.task_pool
  pub actions : HasEntries w.system.node.action_pool
  pub groups : HasEntries w.system.node.group_pool

-- The node with the task completed: its status, its result, the count of its action, and its group,
-- which takes the task if it is valid.
pub record IsReturned {S : Type 0} (before : Net S) (task : ℕ) (status : Status) (result : List ℕ)
    (after : Net S) : Type 0 where
  pub state : (task_at after.system task).state ≡ completed
  pub error_code : (task_at after.system task).error_code ≡ status
  pub bytes : after.blocks (task_at before.system task).result_buffer ≡ result
  pub count :
      let action = (task_at before.system task).action.id in
      (action_at after.system.node action).num_tasks
      ≡ down (action_at before.system.node action).num_tasks
  pub group :
      let group = (task_at before.system task).group in
      group_at after.system.node group.id ≡ (
        if Pool.is_handle_valid before.system.node.group_pool group
        then arrive task (group_at before.system.node group.id)
        else group_at before.system.node group.id)

take_result-IsReturned :
    {S : Type 0} (w : Net S) (sockets : S) (task : Handle) (status : Status) (result : List ℕ)
    → IsWaiting w task
    → IsReturned w task.id status result (
        take_result task.id
          (task_at w.system task.id)
          (code status)
          result
          (record w { sockets = sockets }))
unfolding take_result
take_result-IsReturned w sockets task status result is =
    let that = task_at w.system task.id in
    let (low, high) = is_handle_valid-in_range w.system.task_pool task is.valid in
    let (low', high') =
      is_handle_valid-in_range w.system.node.action_pool that.action is.action_valid in
    let new =
      get_object-modify w.system.task_pool task.id (returned (code status)) no_task
        (omega (arith, is.tasks)) in
    let done =
      get_object-modify w.system.node.action_pool that.action.id task_done no_action
        (omega (arith, is.actions)) in
    let actions = Pool.modify w.system.node.action_pool that.action.id task_done in
    record {
      state = ap (λ (t : Task). t.state) new;
      error_code = ap (λ (t : Task). t.error_code) new ∙ from_code-code status;
      bytes = ground arith;
      count = ground (arith, done);
      group = ground (
        arith,
        is_handle_valid-in_range w.system.node.group_pool that.group,
        get_object-modify w.system.node.group_pool that.group.id (arrive task.id) no_group,
        is.groups,
      );
    }

encode_result :
    (h : ResultHead) (result rest : List ℕ)
    → encode_all (result_items h result) ++ rest
      ≡ to_bytes 1 return_result ++ (encode_all (result_head h) ++ (result ++ rest))
unfolding encode_all encode
encode_result h result rest =
    ap (λ bs. (to_bytes 1 return_result ++ bs) ++ rest)
      (encode_all-append (result_head h) (rawdata result ∷ [])
        ∙ ap (λ bs. encode_all (result_head h) ++ bs) (append-nil result))
    ∙ append_assoc (to_bytes 1 return_result) (encode_all (result_head h) ++ result) rest
    ∙ ap (λ bs. to_bytes 1 return_result ++ bs)
        (append_assoc (encode_all (result_head h)) result rest)

take_result-sockets :
    {S : Type 0} (w : Net S) (task : ℕ) (that : Task) (status : ℕ) (result : List ℕ)
    → (take_result task that status result w).sockets ≡ w.sockets
unfolding take_result
take_result-sockets w task that status result = refl

-- A task has run on another node, started by the plugin there, and its result fits into the
-- plugin's valid buffer there and into the valid buffer of the thread here, which has room for a
-- head; the connection takes the bytes there and stays open here; here the task that the network
-- task names is valid and of a valid action, on an initialised node with pools that have an entry
-- for each id and entry 0. Then embb_mtapi_network_task_complete succeeds, and with the bytes that
-- it sent the thread here completes the task: with the status of the task there and with the bytes
-- of its result at the address for them; the task's action counts one task less, modulo 2^32, its
-- group takes the task if it is valid, and what comes behind the message is still to be received.
pub network_task_complete-handle_message :
    {S R : Type 0} (send : ℕ → Send S) (sent : S → List ℕ) (recv : ℕ → Receive R)
    (pending : R → List ℕ) (there : Net S) (remote : Handle) (here : Net R)
    (plugin : ℕ → Handle → Status) (complete : ℕ) (l : Locals) (socket : ℕ) (b : Buffer)
    (bytes rest : List ℕ)
    → IsSink (send (network_task_of there remote).socket) sent
    → CanReturn there remote
    → IsStream (recv socket) pending
    → IsValid b
    → 16 ≤ b.capacity
    → (task_at there.system remote.id).result_size ≤ b.capacity
    → IsWaiting here (handle_for (result_head_of there remote))
    → sent (network_task_complete send there remote).1.sockets ≡ sent there.sockets ++ bytes
    → pending here.sockets ≡ bytes ++ rest
    → let task = handle_for (result_head_of there remote) in
      ((network_task_complete send there remote).0 ≡ success)
      × (b' : Buffer) × (after : Net R) × (handle_message recv plugin complete l socket b here
          ≡ some (b', after))
      × (pending after.sockets ≡ rest)
      × IsReturned here task.id
          (task_at there.system remote.id).error_code
          (result_of there remote)
          after
unfolding dispatch
network_task_complete-handle_message send sent recv pending there remote here plugin complete l
      socket b bytes rest sink can stream v fit fit' is out incoming =
    let h = result_head_of there remote in
    let result = result_of there remote in
    let task = handle_for h in
    let (done, message) = network_task_complete-sent send sent there remote sink can in
    let same : bytes ≡ encode_all (result_items h result) =
      (append-cancel (sent there.sockets) (sent there.sockets) refl (sym out ∙ message)).1 in
    let payload = encode_all (result_head h) ++ (result ++ rest) in
    let p : pending here.sockets ≡ to_bytes 1 return_result ++ payload =
      incoming ∙ ap (λ x. x ++ rest) same ∙ encode_result h result rest in
    let (b1, sockets1, c, left, first) =
      handle_message-operation recv pending socket stream plugin complete l b here return_result
        payload v (omega arith) (omega arith) p in
    let c' = clear-IsCleared c.valid in
    let size : length result ≡ h.results_size = omega (arith, can.result, can.small) in
    let (b2, sockets2, left2, second) =
      handle_result-message (recv socket) pending stream l (Buffer.clear b1)
        (record here { sockets = sockets1 }) h result rest (head-IsResultHead there remote can) size
        (record { valid = c'.valid; position = c'.position; size = refl })
        (omega (arith, c.size, c'.size)) (omega (arith, c.size, c'.size, size, can.result)) left
        is.initialized is.valid is.action_valid in
    let w = record here { sockets = sockets2 } in
    let code' = (task_at there.system remote.id).error_code in
    (
      done,
      b2,
      take_result task.id (task_at here.system task.id) h.task_status result w,
      first ∙ ap some second,
      ap pending (take_result-sockets w task.id (task_at here.system task.id) h.task_status result)
          ∙ left2,
      take_result-IsReturned here sockets2 task code' result is,
    )
