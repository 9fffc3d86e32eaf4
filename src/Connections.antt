-- ===== src/Connections.antt =====
-- The parts of crates/transport that do not call a WebRTC library: the pool of channels that are
-- taken in turn, the pool of connections, and the notifier on which a task waits for an open channel.
pub mod RoundRobin
pub mod Pool
pub mod Entries
