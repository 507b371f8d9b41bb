-- ===== src/Receiver.antt =====
-- crates/synchrosonic-receiver: the jitter buffer and the playback worker.
pub mod Buffer
pub mod State
pub mod Worker
