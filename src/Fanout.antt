-- ===== src/Fanout.antt =====
-- crates/synchrosonic-transport/src/fanout.rs: the branches that the captured audio goes to.
pub mod Channel
pub mod Queue
pub mod QueueLaws
pub mod Window
pub mod Mirror
pub mod MirrorLaws
pub mod Tests
