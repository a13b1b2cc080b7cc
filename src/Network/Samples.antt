-- ===== src/Network/Samples.antt =====
-- Connections that take and deliver one byte at a time, and a node with the plugin for the examples.
use embb.Common.{
  ℕ, ◌≤◌, ◌<◌, ◌≡◌, ◌⊎◌, refl, List, [], ◌∷◌, ◌++◌, inl, inr, arith, sym, length, take, replicate,
  ◌==◌, if◌then◌else◌,
}
use mathlib.Core.List.{append-nil}
use embb.Mtapi.Pool
use embb.Mtapi.Task.{Task, running}
use embb.Mtapi.System.{System}
use embb.Mtapi.System.Samples.{sample_system, sample_task}
use embb.Network.Buffer.{Buffer}
use embb.Network.Buffer.Valid.{IsValid}
use embb.Network.Socket.{Receive, Send}
use embb.Network.Socket.Stream.{IsStream, IsSink}
use embb.Network.Plugin.{Net}

abbrev pub send_one : Send (List ℕ)
send_one s [] = (0, s)
send_one s (b ∷ bytes) = (1, s ++ (b ∷ []))

abbrev pub receive_one : Receive (List ℕ)
receive_one [] n = ([], [])
receive_one (b ∷ s) n = (b ∷ [], s)

delivers :
    (s : List ℕ) (n : ℕ)
    → 0 < n
    → 0 < length s
    → let (got, s') = receive_one s n in (0 < length got) × (length got ≤ n) × (s ≡ got ++ s')
delivers [] n h g = absurd (omega arith)
delivers (b ∷ s) n h g = (omega arith, omega arith, refl)

takes :
    (s bytes : List ℕ)
    → let (result, s') = send_one s bytes in
      (result ≤ length bytes) × ((length bytes ≡ 0) ⊎ (0 < result)) × (s' ≡ s ++ take result bytes)
takes s [] = (omega arith, inl refl, sym (append-nil s))
takes s (b ∷ bytes) = (omega arith, inr (omega arith), refl)

pub stream : IsStream receive_one (λ s. s)
stream = record { delivers = delivers }

pub sink : IsSink send_one (λ s. s)
sink = record { takes = takes }

abbrev pub buffer : Buffer
buffer = record { position = 0; size = 0; capacity = 64; bytes = replicate 64 0 }

pub buffer-IsValid : IsValid buffer
buffer-IsValid = omega arith

-- Arguments of three bytes at 100, and room for a result of two at 200.
abbrev pub net_task : Task
net_task = record (sample_task running) {
  arguments = 100;
  arguments_size = 3;
  result_buffer = 200;
  result_size = 2;
}

abbrev pub net_system : System
net_system = record sample_system {
  task_pool = Pool.modify sample_system.task_pool 1 (λ _. net_task);
}

abbrev pub memory : ℕ → List ℕ
memory address =
    if address == 100 then 7 ∷ 8 ∷ 9 ∷ [] else if address == 200 then 5 ∷ 6 ∷ [] else []

-- `waiting` are the bytes that are to be received.
abbrev pub net_with : List ℕ → Net (List ℕ)
net_with waiting = record {
  system = net_system;
  plugin = record {
    sockets = 3 ∷ 4 ∷ [];
    socket_count = 2;
    run = 1;
    buffer_size = 64;
    send_buffer = buffer;
  };
  actions = λ a. record {
    domain_id = 1;
    job_id = 1;
    host = 0;
    port = 80;
    socket = 4;
    send_buffer = buffer;
  };
  tasks = λ a. record { socket = 4; remote_task_id = 1; remote_task_tag = 0 };
  blocks = memory;
  sockets = waiting;
}
