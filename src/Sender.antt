-- ===== src/Sender.antt =====
-- crates/synchrosonic-transport/src/sender.rs: the sender's side of the sessions.
pub mod Policy
pub mod PolicyLaws
pub mod Summary
pub mod Target
pub mod TargetLaws
pub mod Identity
pub mod Connect
pub mod ConnectLaws
pub mod Targets
pub mod Manager
pub mod Loops
pub mod Delivery
pub mod ReaderLaws
mod Tests
