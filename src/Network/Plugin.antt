-- ===== src/Network/Plugin.antt =====
-- mtapi_network_c/src/embb_mtapi_network.c: actions whose tasks run on another node. Memory is a
-- function from addresses, the state of the system's sockets an `S`, a socket its handle; what recv
-- and send do is an argument. A call holds the mutex of its send buffer while it uses it.
pub mod Life
pub mod Heads
pub mod Thread
pub mod Messages
pub mod Incoming
pub mod Starting
pub mod Sending
pub mod Remote
pub mod Result
pub mod Return
pub mod Truncated
mod Examples
use embb.Common.{ℕ, ◌%◌, ◌^◌, List, [], ◌==◌, if◌then◌else◌, take}
use embb.Mtapi.Status.{Status, success, err_unknown, code}
use embb.Mtapi.Pool
use embb.Mtapi.Pool.{Handle}
use embb.Mtapi.Objects.{Action}
use embb.Mtapi.Action.{action_at}
use embb.Mtapi.Task.{Task, running, set_state}
use embb.Mtapi.System.{System, task_at, up}
use embb.Network.Buffer
use embb.Network.Buffer.{Buffer, push_back_int8, push_back_int32, push_back_rawdata}
use embb.Network.Socket.{Send, sendbuffer}

pub record NetworkAction : Type 0 where
  pub domain_id : ℕ
  pub job_id : ℕ
  pub host : ℕ
  pub port : ℕ
  pub socket : ℕ
  pub send_buffer : Buffer

pub record NetworkTask : Type 0 where
  pub socket : ℕ
  pub remote_task_id : ℕ
  pub remote_task_tag : ℕ

-- `run` is an `int`. The thread and the mutex are not kept.
pub record Plugin : Type 0 where
  pub sockets : List ℕ
  pub socket_count : ℕ
  pub run : ℕ
  pub buffer_size : ℕ
  pub send_buffer : Buffer

-- The node with the plugin, and what stands at the addresses of network actions, of network tasks
-- and of the blocks for arguments and results.
pub record Net (S : Type 0) : Type 0 where
  pub system : System
  pub plugin : Plugin
  pub actions : ℕ → NetworkAction
  pub tasks : ℕ → NetworkTask
  pub blocks : ℕ → List ℕ
  pub sockets : S

-- Memory with a value written to an address.
abbrev pub put : {A : Type 0} → (ℕ → A) → ℕ → A → ℕ → A
put memory address value = λ a. if a == address then value else memory a

-- EMBB_MTAPI_NETWORK_START_TASK and EMBB_MTAPI_NETWORK_RETURN_RESULT.
abbrev pub start_task : ℕ
start_task = 0

abbrev pub return_result : ℕ
return_result = 1

-- (int32_t) of a size, which is below 2^31.
abbrev pub to_int32 : ℕ → ℕ
to_int32 size = size % 2 ^ 32

abbrev pub push32 : ℕ → Buffer → Buffer
push32 value b = (push_back_int32 b value).1

-- The message of network_task_start behind what is in the buffer: `handle` is the task's and
-- `arguments` stand at its address.
unfoldable pub start_message : NetworkAction → Task → Handle → List ℕ → Buffer → Buffer
start_message action that handle arguments b =
    let b1 = (push_back_int8 b start_task).1 in
    let b2 = push32 action.domain_id b1 in
    let b3 = push32 action.job_id b2 in
    let b4 = push32 that.attributes.priority b3 in
    let b5 = push32 handle.id b4 in
    let b6 = push32 handle.tag b5 in
    let b7 = push32 (to_int32 that.result_size) b6 in
    let b8 = push32 (to_int32 that.arguments_size) b7 in
    (push_back_rawdata b8 (to_int32 that.arguments_size)
      (take (to_int32 that.arguments_size) arguments)).1

-- The message of embb_mtapi_network_task_complete, in a cleared buffer.
unfoldable pub result_message : NetworkTask → Task → List ℕ → Buffer → Buffer
result_message task that result b =
    let b1 = (push_back_int8 (Buffer.clear b) return_result).1 in
    let b2 = push32 task.remote_task_id b1 in
    let b3 = push32 task.remote_task_tag b2 in
    let b4 = push32 (code that.error_code) b3 in
    let b5 = push32 (to_int32 that.result_size) b4 in
    (push_back_rawdata b5 (to_int32 that.result_size) (take (to_int32 that.result_size) result)).1

abbrev pub one_more_task : Action → Action
one_more_task a = record a { num_tasks = up a.num_tasks }

module _ {S : Type 0} where
  -- The body of network_task_start for a task of a valid action.
  unfoldable pub send_start : (ℕ → Send S) → Net S → Handle → Net S
  send_start send w task =
      let s = w.system in
      let that = task_at s task.id in
      let address = (action_at s.node that.action.id).plugin_data in
      let network_action = w.actions address in
      let message =
        start_message network_action that (Pool.handle_of s.task_pool task.id)
          (w.blocks that.arguments) network_action.send_buffer in
      let (err, sockets) = sendbuffer (send network_action.socket) message w.sockets in
      record w {
        system = record s {
          node = record s.node {
            action_pool = Pool.modify s.node.action_pool that.action.id one_more_task;
          };
          task_pool = Pool.modify s.task_pool task.id (λ t. set_state t running);
        };
        actions =
            put w.actions address (record network_action { send_buffer = Buffer.clear message });
        sockets = sockets;
      }

  unfoldable pub network_task_start : (ℕ → Send S) → Net S → Handle → Status × Net S
  network_task_start send w task =
      let s = w.system in
      if s.node.is_initialized
      then (if Pool.is_handle_valid s.task_pool task
          then (if Pool.is_handle_valid s.node.action_pool (task_at s task.id).action
              then (success, send_start send w task)
              else (err_unknown, w))
          else (err_unknown, w))
      else (err_unknown, w)

  -- The body of embb_mtapi_network_task_complete for a task of a valid action. A block that is given
  -- back is empty.
  unfoldable pub send_result : (ℕ → Send S) → Net S → Handle → Net S
  send_result send w task =
      let that = task_at w.system task.id in
      let network_task = w.tasks that.attributes.user_data in
      let message =
        result_message network_task that (w.blocks that.result_buffer) w.plugin.send_buffer in
      let (err, sockets) = sendbuffer (send network_task.socket) message w.sockets in
      record w {
        plugin = record w.plugin { send_buffer = message };
        blocks = put (put w.blocks that.arguments []) that.result_buffer [];
        sockets = sockets;
      }

  unfoldable pub network_task_complete : (ℕ → Send S) → Net S → Handle → Status × Net S
  network_task_complete send w task =
      let s = w.system in
      if s.node.is_initialized
      then (if Pool.is_handle_valid s.task_pool task
          then (if Pool.is_handle_valid s.node.action_pool (task_at s task.id).action
              then (success, send_result send w task)
              else (err_unknown, w))
          else (err_unknown, w))
      else (err_unknown, w)

  pub network_task_cancel : Net S → Handle → Status × Net S
  network_task_cancel w task = (err_unknown, w)
