-- ===== src/Transport.antt =====
-- crates/synchrosonic-transport: the receiver's side of a session, and the server that runs it.
pub mod Texts
pub mod Session
pub mod Progress
pub mod Trace
pub mod Tests
