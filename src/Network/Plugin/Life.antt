-- ===== src/Network/Plugin/Life.antt =====
-- The plugin and its actions are set up and torn down (mtapi_network_c/src/embb_mtapi_network.c).
use embb.Common.{ℕ, ◌+◌, List, [], Option, none, some, Bool, true, false, ◌&&◌, if◌then◌else◌, set}
use embb.Mtapi.Status.{Status, success, err_unknown}
use embb.Mtapi.Pool
use embb.Mtapi.Pool.{Handle}
use embb.Mtapi.Job.{no_handle}
use embb.Mtapi.Action.{action_at}
use embb.Mtapi.Action.Plugin.{plugin_create}
use embb.Network.Buffer
use embb.Network.Buffer.{Buffer}
use embb.Network.Plugin.{NetworkAction, Net, put}

-- The listening socket in the block for the sockets.
abbrev pub listening : Option (List ℕ) → Option ℕ → List ℕ
listening (some block) (some socket) = set block 0 socket
listening (some block) none = block
listening none _ = []

abbrev pub has_socket : Option (List ℕ) → Option ℕ → Bool
has_socket (some block) (some socket) = true
has_socket _ _ = false

module _ {S : Type 0} where
  -- The network action at the address is given back, with its buffer; its socket is closed.
  pub network_action_finalize : Net S → Handle → Status × Net S
  network_action_finalize w action =
      let node = w.system.node in
      let address = (action_at node action.id).plugin_data in
      if node.is_initialized
      then (if Pool.is_handle_valid node.action_pool action
          then (
            success,
            record w {
              actions = put w.actions address (record (w.actions address) {
                send_buffer = Buffer.finalize (w.actions address).send_buffer;
              });
            },
          )
          else (err_unknown, w))
      else (err_unknown, w)

  -- mtapi_network_action_create where embb_alloc gave the address, with the block for the buffer; the
  -- addresses of the three functions, the handle of the new socket, and whether connect succeeds.
  pub create_at :
      (ℕ × ℕ × ℕ)
      → ℕ
      → Option (List ℕ)
      → ℕ
      → Bool
      → Net S
      → ℕ
      → ℕ
      → ℕ
      → ℕ
      → ℕ
      → Status × Handle × Net S
  create_at (start, cancel, finalize) address memory socket connects w domain_id local_job_id
        remote_job_id host port =
      let action : NetworkAction = record {
        domain_id = domain_id;
        job_id = remote_job_id;
        host = host;
        port = port;
        socket = socket;
        send_buffer = Buffer.initialize memory w.plugin.buffer_size;
      } in
      let plugin = record w.plugin {
        sockets = set w.plugin.sockets w.plugin.socket_count socket;
        socket_count = w.plugin.socket_count + 1;
      } in
      let (status, handle, node) = plugin_create w.system.node (record {
        job_id = local_job_id;
        task_start_function = start;
        task_cancel_function = cancel;
        action_finalize_function = finalize;
        plugin_data = address;
        node_local_data = 0;
        node_local_data_size = 0;
        attributes = none;
      }) in
      if connects
      then (
        status,
        handle,
        record w {
          system = record w.system { node = node };
          plugin = plugin;
          actions = put w.actions address action;
        },
      )
      else (err_unknown, no_handle, w)

  pub network_action_create :
      (ℕ × ℕ × ℕ)
      → Option ℕ
      → Option (List ℕ)
      → ℕ
      → Bool
      → Net S
      → ℕ
      → ℕ
      → ℕ
      → ℕ
      → ℕ
      → Status × Handle × Net S
  network_action_create functions none memory socket connects w domain_id local_job_id remote_job_id
        host port =
      (err_unknown, no_handle, w)
  network_action_create functions (some address) memory socket connects w domain_id local_job_id
        remote_job_id host port =
      create_at functions address memory socket connects w domain_id local_job_id remote_job_id host
        port

  -- mtapi_network_plugin_initialize on POSIX: the blocks for the sockets and for the buffer, the
  -- handle of the listening socket, none where there is none, and whether listening and the creation
  -- of the thread succeed.
  pub plugin_initialize :
      Option (List ℕ) → Option (List ℕ) → Option ℕ → Bool → Bool → Net S → ℕ → Status × Net S
  plugin_initialize block memory socket listens creates w buffer_size = (
    if has_socket block socket && (listens && creates) then success else err_unknown,
    record w {
      plugin = record {
        sockets = listening block socket;
        socket_count = 1;
        run = 1;
        buffer_size = buffer_size;
        send_buffer = Buffer.initialize memory buffer_size;
      };
    },
  )

  -- The thread has ended.
  pub plugin_finalize : Net S → Status × Net S
  plugin_finalize w = (
    success,
    record w {
      plugin = record w.plugin {
        sockets = [];
        run = 0;
        send_buffer = Buffer.finalize w.plugin.send_buffer;
      };
    },
  )
