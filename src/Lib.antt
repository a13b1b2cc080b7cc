-- ===== src/Lib.antt =====
-- Verification library for the Embedded Multicore Building Blocks (EMBB): models of its C code, and
-- what is proved of them. A path below is one from the repository's root.
--
-- Parts, and how they interact. base_c is the portability layer: durations, points in time, core
-- sets and counters. mtapi_c is the task runtime built on it. A node owns pools of tasks, actions,
-- groups and queues; each pool hands out slots by an id pool. The scheduler keeps task queues for
-- each worker and priority. mtapi_network_c runs tasks on another node: it sends their arguments and
-- results as messages in byte buffers. mtapi_opencl_c runs tasks as kernels of OpenCL.
--
-- Which file models which part:
--   Base/Errors, Base/Duration, Base/Time, Base/Counter, Base/CoreSet: base_c/src/duration.c, time.c,
--     counter.c and core_set.c, with base_c/include/embb/base/c/errors.h. Base/Bitset: the inline
--     functions of base_c/include/embb/base/c/internal/bitset.h.
--   Base/Memory: base_c/src/memory_allocation.c, the version that counts bytes.
--   Mtapi/Status: the status codes of mtapi_c/include/embb/mtapi/c/mtapi.h.
--   Mtapi/IdPool: mtapi_c/src/embb_mtapi_id_pool_t.c. Mtapi/TaskQueue:
--     mtapi_c/src/embb_mtapi_task_queue_t.c. Mtapi/Affinity: mtapi_c/src/mtapi_affinity_t.c.
--   Mtapi/Attributes: mtapi_c/src/embb_mtapi_attr.c, and in its children the files
--     mtapi_*_attributes_t.c with the switches of the mtapi_*_get_attribute functions.
--   Mtapi/Pool: the template of object pools in mtapi_c/src/embb_mtapi_pool_template-inl.h.
--   Mtapi/Job, Mtapi/Action, Mtapi/Group, Mtapi/Queue: embb_mtapi_job_t.c, embb_mtapi_action_t.c,
--     embb_mtapi_group_t.c and embb_mtapi_queue_t.c in mtapi_c/src. Mtapi/Objects holds the structs in
--     the pools, Mtapi/Action/Plugin the actions of plugins (embb_mtapi_action_plugin_t.c), and
--     Mtapi/Node the state that the interface functions of all of them change.
--   Mtapi/Spinlock: mtapi_c/src/embb_mtapi_spinlock_t.c, and threads that compete for a lock.
--   Mtapi/Task: tasks and their execution, in mtapi_c/src/embb_mtapi_task_t.c. Mtapi/TaskContext:
--     mtapi_c/src/embb_mtapi_task_context_t.c.
--   Mtapi/Polling: the waiting loops that several files of mtapi_c/src share, with their deadlines.
--   Mtapi/System: the node with its pool of tasks and its scheduler, and what changes them together:
--     Initialize (mtapi_initialize and mtapi_finalize in mtapi_c/src/embb_mtapi_node_t.c), Start
--     (mtapi_task_start and mtapi_task_enqueue), Wait (mtapi_task_wait and mtapi_task_cancel),
--     Worker (a round of embb_mtapi_scheduler_worker), Visit (the visitors of the waiting tasks),
--     Remove (deleting and disabling actions and queues) and GroupWait (mtapi_group_wait_all and
--     mtapi_group_wait_any).
--   Mtapi/Scheduler: how a worker finds its next task, and in Schedule where a task is put, in
--     mtapi_c/src/embb_mtapi_scheduler_t.c; in Layout how the workers are set up, there and in
--     embb_mtapi_thread_context_t.c.
--   Mtapi/Samples: a small node for the examples.
--   Network/Buffer, Network/Socket: embb_mtapi_network_buffer.c and embb_mtapi_network_socket.c in
--     mtapi_network_c/src. Network/Plugin: embb_mtapi_network.c there, which sends a task to another
--     node and takes its result; its children Life (setting up), Heads and Thread (what comes in), the
--     others what is proved of messages. Network/Samples: connections for the examples.
--   Opencl: mtapi_opencl_c/src/embb_mtapi_opencl.c; Setup has the plugin and the creation of actions,
--     with embb_mtapi_opencl_link_at_runtime of embb_mtapi_opencl_runtimelinker.c. The calls of OpenCL
--     are kept as a list, the newest first; the other children are proofs.
--   Common: shared names, arrays as lists (Lists), arrays used round and round (Window), binary
--     digits (Bits), tests and case splits (Tests).
--
-- State and operations. A C struct is a record with the source's fields, and a function that changes
-- `*that` takes the record and returns the new one beside its result. A pointer that may be null is
-- an Option. Names are the source's, without the prefix that names the component:
-- `embb_duration_set_seconds` is `Base.Duration.set_seconds`.
--
-- Numbers. `unsigned int` and mtapi_uint_t are 32 bits wide, `unsigned long` and
-- `unsigned long long` 64; where a sum, a product or an increment can wrap, the wrap is written out
-- by a `%`. An `int` counter is its 32-bit pattern.
--
-- Bounds and fuel. Loops recur on the rounds that the code counts. Three kinds of loops have no bound
-- in the code and take fuel: acquiring a spinlock, which ends with the first try that finds it free,
-- the scheduler's search for a worker, which takes as many steps as there are workers, and the loops
-- that wait for tasks, which end at the first test at which the condition fails or the timeout has
-- passed. The search for the core of a worker takes 64 steps, as a set has no more cores, and leaving
-- space before an aligned block 24, as many as an alignment of 1 needs. A loop over a socket takes as
-- many rounds as bytes to receive, and one more to send, as each round that goes on moves a byte. The
-- endless loop of the network thread is modelled by its round.
--
-- Locks. A function that works under a spinlock takes what acquiring the lock returned, and its body
-- under the lock is an atomic step. The callers of the pools and of a push pass `true`, as
-- embb_mtapi_spinlock_acquire returns nothing else; a pop gives up after 128 tries, so that the
-- scheduler's search asks for each queue whether it gets the lock.
--
-- Threads. An operation takes its steps without others in between, but for the waiting loops: what
-- the other threads do in each round is a function of the system.
--
-- Parameters. What the functions of actions and of plugins report, the clock, the number of cores,
-- the blocks that the allocator returns, and what OpenCL, recv, send and the other calls of sockets
-- do are arguments of the definitions that use them.
--
-- Not modelled: how the threads of the workers end, what the function of an action does by calls of
-- MTAPI, for which a call of it is the error code that it leaves, what a plugin's function does at
-- the end of an action, which is state of the plugin, and the statistics of the allocator in
-- mtapi_c/src; threads, mutexes, condition variables and the atomic operations themselves, which
-- call the operating system or the compiler; logging; the functions of sockets that are one call of
-- the system; the wrappers of OpenCL's functions; the C++ libraries, which are another language.
pub mod Common
pub mod Base
pub mod Mtapi
pub mod Network
pub mod Opencl
