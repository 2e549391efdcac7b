-- ===== src/Rpc.antt =====
-- src/network/rpc: a remote call from its start to its result, with the parts of
-- src/network/manager/network_manager.cpp that start calls and hand responses to them.
pub mod TimerPool
pub mod Sequence
pub mod Call
pub mod Network
pub mod Measure
pub mod Once
pub mod Runs
pub mod Answers
pub mod Lost
pub mod Pools
pub mod Await
mod Tests
