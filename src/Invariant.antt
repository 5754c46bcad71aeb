-- ===== src/Invariant.antt =====
-- src/model/checker.cpp: the states that executions reach, and what holds in all of them.
pub mod System
pub mod Wakes
pub mod Frame
pub mod Progress
pub mod Fuel
pub mod Executed
pub mod RwLocks
pub mod Mutexes
pub mod StoreBuffers
