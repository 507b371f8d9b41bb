-- ===== src/Receiver/Worker/Preservation.antt =====
-- Lemmas about connecting, disconnecting and errors in crates/synchrosonic-
-- receiver/src/service.rs.
use audio_share.Base.{
  ◌≡◌, refl, Bool, true, false, none, String, arith, Result, ok, err, Option-cases, inl, inr,
}
use audio_share.Stream.{ReceiverConnectionInfo}
use audio_share.Receiver.Buffer
use audio_share.Receiver.Buffer.{ReceiverPacketBuffer, BufferedPacket, BufferPushOutcome}
use audio_share.Receiver.Buffer.Invariant.{IsWellFormed, new-IsWellFormed, clear-IsWellFormed}
use audio_share.Receiver.State.{Environment, Message}
use audio_share.Receiver.Worker.{
  Worker, sync_snapshot, stop_playback_sink, close_stream, set_error, handle_disconnect,
  prepare_connect, finish_connect, handle_connect,
}
use audio_share.Receiver.Worker.Invariant.{IsConsistent, FitsProfile, is_empty, is_streaming}

module _ (env : Environment) where
  open env use {World, Sink, now, start_stream}

  pub sync_snapshot-IsConsistent :
      (w : Worker env) → IsConsistent env w → IsConsistent env (sync_snapshot env w)
  unfolding sync_snapshot
  sync_snapshot-IsConsistent w h = ground arith

  -- After the stream is closed nothing of it is left.
  pub record IsClosed (w v : Worker env) : Type 0 where
    pub sink : v.playback_sink ≡ none
    pub connection : v.connection ≡ none
    pub buffer : v.buffer ≡ Buffer.clear w.buffer
    pub profile : v.buffer_profile ≡ w.buffer_profile
    pub clock : v.sync_clock ≡ none

  close_stream-IsClosed : (w : Worker env) → IsClosed w (close_stream env w)
  unfolding close_stream
  close_stream-IsClosed w = elim (Option-cases w.playback_sink) [
    | inl e ↦ ground arith
    | inr (s, e) ↦ ground arith
  ]

  clear-empty : (b : ReceiverPacketBuffer) → is_empty (Buffer.clear b).packets ≡ true
  unfolding Buffer.clear
  clear-empty b = refl

  pub stop_playback_sink_kept :
      (w : Worker env)
      → ((stop_playback_sink env w).playback_sink ≡ none)
        × ((stop_playback_sink env w).buffer ≡ w.buffer)
        × ((stop_playback_sink env w).buffer_profile ≡ w.buffer_profile)
  unfolding stop_playback_sink
  stop_playback_sink_kept w = elim (Option-cases w.playback_sink) [
    | inl e ↦ ground arith
    | inr (s, e) ↦ ground arith
  ]

  -- A worker whose stream is closed is consistent in any state but the streaming ones.
  pub IsClosed-IsConsistent :
      (w v : Worker env)
      → IsClosed w v
      → IsWellFormed w.buffer
      → FitsProfile w.buffer_profile
      → is_streaming v.state ≡ false
      → IsConsistent env v
  IsClosed-IsConsistent w v c h p s = record {
    well_formed = rw c.buffer (clear-IsWellFormed w.buffer h);
    profile = rw c.profile p;
    sink_open = rw (c.sink, c.connection);
    streaming = rw c.connection s;
    clocked = rw c.buffer (λ e. absurd (ground (arith, clear-empty w.buffer)));
    drained = rw c.buffer (λ _. clear-empty w.buffer);
  }

  pub set_error-IsConsistent :
      (m : Message) (w : Worker env)
      → IsWellFormed w.buffer
      → FitsProfile w.buffer_profile
      → IsConsistent env (set_error env m w)
  unfolding set_error
  set_error-IsConsistent m w h p =
      let c = close_stream-IsClosed w in
      IsClosed-IsConsistent w _
        (record {
          sink = c.sink;
          connection = c.connection;
          buffer = c.buffer;
          profile = c.profile;
          clock = c.clock;
        })
        h p refl

  pub handle_disconnect-IsConsistent :
      (reason : String) (again : Bool) (w : Worker env)
      → IsConsistent env w
      → IsConsistent env (handle_disconnect env reason again w)
  unfolding handle_disconnect
  handle_disconnect-IsConsistent reason again w h =
      let c = close_stream-IsClosed w in
      IsClosed-IsConsistent w _
        (record {
          sink = c.sink;
          connection = c.connection;
          buffer = c.buffer;
          profile = c.profile;
          clock = c.clock;
        })
        h.well_formed h.profile refl

  prepare_connect-fresh :
      (c : ReceiverConnectionInfo) (w : Worker env)
      → ((prepare_connect env c w).buffer ≡ Buffer.new env.ratio w.buffer_profile c.stream)
        × ((prepare_connect env c w).buffer_profile ≡ w.buffer_profile)
  unfolding prepare_connect
  prepare_connect-fresh c w = elim (Option-cases w.playback_sink) [
    | inl e ↦ ground arith
    | inr (s, e) ↦ ground arith
  ]

  new-empty :
      (c : ReceiverConnectionInfo) (w : Worker env)
      → is_empty (Buffer.new env.ratio w.buffer_profile c.stream).packets ≡ true
  unfolding Buffer.new
  new-empty c w = refl

  finish_connect-IsConsistent :
      (c : ReceiverConnectionInfo) (w : Worker env) (r : Result String Sink × World)
      → IsWellFormed w.buffer
      → FitsProfile w.buffer_profile
      → is_empty w.buffer.packets ≡ true
      → IsConsistent env (finish_connect env c w r)
  unfolding finish_connect
  finish_connect-IsConsistent c w (ok sink, world) h p e = ground arith
  finish_connect-IsConsistent c w (err m, world) h p e = set_error-IsConsistent _ _ h p

  pub handle_connect-IsConsistent :
      (c : ReceiverConnectionInfo) (w : Worker env)
      → IsConsistent env w
      → IsConsistent env (handle_connect env c w)
  unfolding handle_connect
  handle_connect-IsConsistent c w h =
      let (b, p) = prepare_connect-fresh c w in
      finish_connect-IsConsistent c (prepare_connect env c w) _
        (rw b
          (new-IsWellFormed env.ratio w.buffer_profile c.stream h.profile.target h.profile.limit))
        (rw p h.profile) (rw b (new-empty c w))
