-- ===== src/Network/Plugin/Thread.antt =====
-- embb_mtapi_network_thread in mtapi_network_c/src/embb_mtapi_network.c: what comes in over the
-- sockets. The source asserts that the calls succeed and goes on where they do not.
use embb.Common.{ℕ, ◌+◌, List, Option, none, some, ◌==◌, if◌then◌else◌, set, get_or}
use embb.Mtapi.Status.{Status, from_code}
use embb.Mtapi.Pool
use embb.Mtapi.Pool.{Handle}
use embb.Mtapi.Job
use embb.Mtapi.Job.{no_handle}
use embb.Mtapi.Attributes.{Attribute}
use embb.Mtapi.Attributes.Task as TaskAttr
use embb.Mtapi.Attributes.Task.{TaskAttributes}
use embb.Mtapi.Objects.{attributes_or}
use embb.Mtapi.Node.{Node}
use embb.Mtapi.Task.{Task, completed, task_done, arrive}
use embb.Mtapi.System.{System, task_at}
use embb.Mtapi.System.Start.{Request, start}
use embb.Network.Buffer
use embb.Network.Buffer.{Buffer, pop_front_int8, pop_front_rawdata}
use embb.Network.Socket.{Receive, recvbuffer_sized}
use embb.Network.Plugin.{Net, NetworkTask, put, start_task, return_result}
use embb.Network.Plugin.Heads.{Locals, StartHead, pop_start, pop_result}

-- A local variable of a size and with a value; its address is not 0.
abbrev pub variable : ℕ → Attribute
variable value = record { pointer = 1; content = λ size. value }

-- The attributes of a remote task; `complete` is the address of embb_mtapi_network_task_complete.
unfoldable pub remote_attributes : Option ℕ → TaskAttributes → ℕ → ℕ → ℕ → TaskAttributes
remote_attributes num_cores leftover network_task priority complete =
    let a0 = attributes_or (TaskAttr.init num_cores (some leftover)) leftover in
    let a1 =
      (TaskAttr.set_at a0 TaskAttr.user_data (record { pointer = network_task; content = λ k. 0 })
        0).1 in
    let a2 = (TaskAttr.set_at a1 TaskAttr.detached (variable 1) 1).1 in
    let a3 = (TaskAttr.set_at a2 TaskAttr.priority (variable priority) 4).1 in
    (TaskAttr.set_at a3 TaskAttr.complete_function (record { pointer = complete; content = λ k. 0 })
      0).1

-- The request that the thread makes of a message.
abbrev pub remote_request : Locals → Node → ℕ → StartHead → Request
remote_request l node complete h = record {
  task_id = 0;
  job = (Job.get node.is_initialized node.attributes.max_jobs node.job_list h.job_id).1;
  arguments = l.arguments;
  arguments_size = h.arguments_size;
  result_buffer = l.results;
  result_size = h.results_size;
  attributes = some (
      remote_attributes (if node.is_initialized then some node.attributes.num_cores else none)
        l.attributes l.network_task h.priority complete);
  group = no_handle;
  queue = no_handle;
}

-- The task with what has come back.
abbrev pub returned : ℕ → Task → Task
returned status t = record t { error_code = from_code status; state = completed }

module _ {S : Type 0} where
  -- What follows the start, whose status is not read.
  abbrev pub after_start :
      Net S → Buffer → Option (Status × Handle × System) → Option (Buffer × Net S)
  after_start w b none = none
  after_start w b (some (status, handle, s)) = some (Buffer.clear b, record w { system = s })

  -- The branch for EMBB_MTAPI_NETWORK_START_TASK, on a cleared buffer; `none` where the start does
  -- not return.
  unfoldable pub handle_start :
      Receive S → (ℕ → Handle → Status) → ℕ → Locals → ℕ → Buffer → Net S → Option (Buffer × Net S)
  handle_start recv plugin complete l socket b w =
      let (err, b1, sockets1) = recvbuffer_sized recv b 28 w.sockets in
      let (h, b2) = pop_start l b1 in
      let (err', b3, sockets2) =
        recvbuffer_sized recv (Buffer.clear b2) h.arguments_size sockets1 in
      let (err'', arguments, b4) = pop_front_rawdata b3 h.arguments_size (w.blocks l.arguments) in
      let network_task : NetworkTask = record {
        socket = socket;
        remote_task_id = h.remote_task_id;
        remote_task_tag = h.remote_task_tag;
      } in
      let w' = record w {
        tasks = put w.tasks l.network_task network_task;
        blocks = put w.blocks l.arguments arguments;
        sockets = sockets2;
      } in
      after_start w' (Buffer.clear b4)
        (start plugin w.system (remote_request l w.system.node complete h))

  -- The result for a task of a valid action: the task's group takes it.
  unfoldable pub take_result : ℕ → Task → ℕ → List ℕ → Net S → Net S
  take_result task that status result w =
      let s = w.system in
      let node = record s.node {
        action_pool = Pool.modify s.node.action_pool that.action.id task_done;
      } in
      record w {
        system = record s {
          node =
              if Pool.is_handle_valid node.group_pool that.group
              then record node {
                group_pool = Pool.modify node.group_pool that.group.id (arrive task);
              }
              else node;
          task_pool = Pool.modify s.task_pool task (returned status);
        };
        blocks = put w.blocks that.result_buffer result;
      }

  -- The branch for EMBB_MTAPI_NETWORK_RETURN_RESULT, on a cleared buffer.
  unfoldable pub handle_result : Receive S → Locals → Buffer → Net S → Buffer × Net S
  handle_result recv l b w =
      let s = w.system in
      let (err, b1, sockets1) = recvbuffer_sized recv b 16 w.sockets in
      let (h, b2) = pop_result l b1 in
      let (err', b3, sockets2) = recvbuffer_sized recv (Buffer.clear b2) h.results_size sockets1 in
      let task : Handle = record { tag = h.task_tag; id = h.task_id } in
      let that = task_at s task.id in
      let (err'', result, b4) = pop_front_rawdata b3 h.results_size (w.blocks that.result_buffer) in
      let w' = record w { sockets = sockets2 } in
      if s.node.is_initialized
      then (if Pool.is_handle_valid s.task_pool task
          then (if Pool.is_handle_valid s.node.action_pool that.action
              then (b4, take_result task.id that h.task_status result w')
              else (b3, w'))
          else (b3, w'))
      else (b, w)

  -- The branches for the operation; another one is passed over.
  unfoldable pub dispatch :
      Receive S
      → (ℕ → Handle → Status)
      → ℕ
      → Locals
      → ℕ
      → ℕ
      → Buffer
      → Net S
      → Option (Buffer × Net S)
  dispatch recv plugin complete l socket operation b w =
      if operation == start_task
      then handle_start recv plugin complete l socket b w
      else if operation == return_result
      then some (handle_result recv l (Buffer.clear b) w)
      else some (b, w)

  -- What comes in on a connection: nothing happens where the first byte does not come.
  unfoldable pub handle_message :
      (ℕ → Receive S)
      → (ℕ → Handle → Status)
      → ℕ
      → Locals
      → ℕ
      → Buffer
      → Net S
      → Option (Buffer × Net S)
  handle_message recv plugin complete l socket b w =
      let (err, b1, sockets) = recvbuffer_sized (recv socket) (Buffer.clear b) 1 w.sockets in
      let (err', operation, b2) = pop_front_int8 b1 l.operation in
      let w' = record w { sockets = sockets } in
      if err == 0
      then some (b1, w')
      else dispatch (recv socket) plugin complete l socket operation (Buffer.clear b2) w'

  -- A new connection behind the others; `none` where accept fails.
  unfoldable pub accept_socket : Option ℕ → Net S → Net S
  accept_socket none w = w
  accept_socket (some socket) w = record w {
    plugin = record w.plugin {
      sockets = set w.plugin.sockets w.plugin.socket_count socket;
      socket_count = w.plugin.socket_count + 1;
    };
  }

  -- A round of the thread: `ready` is what embb_mtapi_network_socket_select returned, none for -1.
  unfoldable pub round :
      (ℕ → Receive S)
      → (ℕ → Handle → Status)
      → ℕ
      → Locals
      → Option ℕ
      → Option ℕ
      → Buffer
      → Net S
      → Option (Buffer × Net S)
  round recv plugin complete l none accepted b w = some (b, w)
  round recv plugin complete l (some ready) accepted b w =
      if ready == 0
      then some (b, accept_socket accepted w)
      else handle_message recv plugin complete l (get_or w.plugin.sockets ready 0) b w
