-- ===== src/Mtapi.antt =====
-- mtapi_c: the task management that implements the MTAPI standard.
pub mod Status
pub mod Affinity
pub mod Attributes
pub mod IdPool
pub mod TaskQueue
pub mod Pool
pub mod Job
pub mod Objects
pub mod Node
pub mod Group
pub mod Samples
pub mod Action
pub mod Queue
pub mod Scheduler
pub mod Polling
pub mod Spinlock
pub mod Task
pub mod TaskContext
pub mod System
