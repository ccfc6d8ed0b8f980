-- ===== src/Datapath.antt =====
-- src/datapath_v2.rs: `Pool` is the pool of packet buffers that its threads share, `Stats` the counters,
-- `Relay` the state of the threads, `Receive` the receive loop, `Transmit` the transmit
-- thread, `Cleanup` the removal of sessions, `Respond` the answers of a flow.
pub mod Pool
pub mod Stats
pub mod Relay
pub mod Receive
pub mod Transmit
pub mod Cleanup
pub mod Respond
