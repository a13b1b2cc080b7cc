-- ===== src/Base.antt =====
-- base_c: durations, points in time, sets of cores and counters.
pub mod Errors
pub mod Duration
pub mod Time
pub mod Bitset
pub mod CoreSet
pub mod Counter
pub mod Memory
