-- ===== src/Lib.antt =====
-- SynchroSonic: a model of AudioShare (SynchroSonic), which casts the system's audio to other devices
-- of the local network.
--
-- A sender captures audio and sends it in frames; a receiver announces itself, takes the frames,
-- buffers the packets and plays each when its time has come. The parts and their files:
--
-- * Protocol (crates/synchrosonic-transport/src/protocol.rs): `FrameKind`, `Frame`, `write_frame` and
--   `read_frame`. Wire gives `read_exact` and `write_all` on a connection that may time out, be reset
--   or break; Messages has the messages in the metadata, with the JSON codec as a parameter; Header,
--   Laws, Inversion and Shrinks hold the lemmas.
-- * Stream (crates/synchrosonic-core/src/receiver.rs, audio.rs): stream parameters, latency profiles,
--   the number of packets for a duration, and the validation of a packet. Durations are in
--   nanoseconds. The floating-point `Duration::from_secs_f64` is a parameter.
-- * Receiver.Buffer (crates/synchrosonic-receiver/src/buffer.rs): the jitter buffer, a list whose
--   head is the front.
-- * Receiver.State, Receiver.Worker (crates/synchrosonic-receiver/src/service.rs): `ReceiverWorker`.
--   A method is a function from worker to worker. `Environment` has the clock and the playback
--   engine as parameters, each call of which may change the world. Packets has the transport events,
--   Playout the tick and its loop, Run the waiting time, `receiver_worker_loop` and `shutdown`.
--   The commands that other threads send, and the waits that run out, are a list. The counters wrap
--   at 2^64. The mutex of the snapshot is never poisoned, and log output is left out.
-- * Discovery (crates/synchrosonic-discovery/src/lib.rs, crates/synchrosonic-core/src/models.rs):
--   Address ranks and chooses addresses, Registry is `DeviceRegistry` on an association list;
--   Sweeps is about `prune_stale` over several sweeps.
-- * Config (crates/synchrosonic-core/src/config.rs): `AppConfig`, `repaired`, and in Files loading and
--   saving, with the file system and the TOML codec as parameters.
-- * AppState and Session (crates/synchrosonic-core/src/state.rs, streaming.rs): the reducers that the
--   application applies to what the parts report, and the sender's session as it is reported, with
--   `aggregate_metrics` of crates/synchrosonic-transport/src/sender.rs.
--
-- * Transport (crates/synchrosonic-transport/src/receiver.rs): `handle_receiver_session`. Session is the
--   handshake and the loop over frames, as functions on a `Conversation`: the stream, what was
--   written, the events given to the callback, the snapshot, and what each `try_recv` on the stop
--   channel finds. Trace and Progress hold the lemmas, Texts the texts that are built. Log output is
--   left out, with the check for a gap in the sequence numbers that only the log tells. The errors
--   `AlreadyRunning` and `NotActive`, which these parts never give, are no constructors.
-- * Fanout (crates/synchrosonic-transport/src/fanout.rs): Queue is `BufferedBranchQueue` over a channel
--   that behaves as flume documents it (Channel), with a worker that takes items between the calls of
--   a push; Mirror is `local_mirror_worker_loop` over any playback engine.
-- * Sender (crates/synchrosonic-transport/src/sender.rs): Policy has the decisions that need no
--   socket, Target is `ManagedTargetSession` and its branch, Connect its `connect`, Targets the
--   collection, an association list, and Loops the writer and the reader thread; Summary, ReaderLaws
--   and Delivery are about `derive_manager_state`, the reader, and the writer with the receiver's
--   session. Manager is `SenderManager`: what reaches it from other threads in a round of `run`, and
--   the clock, is a `Round`; Commands, Results, Streaming and Run have its methods in the order of a
--   round. An attempt to connect is spawned as a request, and its result comes in a later round. The
--   clock is read once for a round.
--
-- How they meet: the buffer's limits come from Stream; the worker owns a buffer and publishes a
-- snapshot of Receiver.State; the registry's events are what AppState applies; the sender's writer and the
-- receiver's session meet on the frames of Protocol (Sender.Delivery), and the attempts that the
-- manager spawns are those that Connect answers (Sender.Manager.Lifetime).
--
-- Fuel: the playout loop `playout` runs on fuel, the number of queued packets and one, since each
-- further round takes a packet off the buffer. The session's loop and the sender's reader run on the
-- length of the stream and one, since a read takes something off it; a queue is cleared on the number
-- of its items and one.
--
-- Not modelled: threads and channels as such, sockets, the receiver's listener, the handle
-- `LanSenderSession` of the sender, mDNS, PipeWire processes, and the GTK application with its exports
-- and logs.
pub mod Base
pub mod Stream
pub mod Receiver
pub mod Discovery
pub mod Protocol
pub mod Config
pub mod Session
pub mod AppState
pub mod Transport
pub mod Fanout
pub mod Sender
