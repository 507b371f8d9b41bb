-- ===== src/Receiver/Worker/PacketLaws.antt =====
-- Lemmas about packets, a new playback target and transport events in crates/synchrosonic-
-- receiver/src/service.rs.
use audio_share.Base.{
  ℕ, ◌≡◌, refl, true, Option, String, arith, is_some, Result, ok, err, Result-cases, Option-cases,
  inl, inr, Bool-cases,
}
use audio_share.Stream.{ReceiverAudioPacket, ReceiverStreamConfig, frame_count}
use audio_share.Receiver.Buffer
use audio_share.Receiver.Buffer.{ReceiverPacketBuffer, BufferedPacket, BufferPushOutcome}
use audio_share.Receiver.Buffer.Invariant.{IsWellFormed, push-IsWellFormed}
use audio_share.Receiver.State.{
  Environment, ReceiverTransportEvent, connected, audio_packet, keep_alive, disconnected, error,
}
use audio_share.Receiver.Worker.{Worker, refresh_sync_buffer_metrics, stop_sink}
use audio_share.Receiver.Worker.Packets.{
  settle, stamp, record_packet, count_packet, buffer_packet, receive_packet, handle_packet,
  swap_sink, retarget, handle_playback_target_change, keep_transport_alive, apply_event,
  handle_transport_event,
}
use audio_share.Receiver.Worker.Invariant.{IsConsistent}
use audio_share.Receiver.Worker.Preservation.{
  sync_snapshot-IsConsistent, set_error-IsConsistent, handle_disconnect-IsConsistent,
  handle_connect-IsConsistent,
}

module _ (env : Environment) where
  open env use {World, Sink, now, start_stream}

  pub refresh-IsConsistent :
      (w : Worker env) → IsConsistent env w → IsConsistent env (refresh_sync_buffer_metrics env w)
  unfolding refresh_sync_buffer_metrics
  refresh-IsConsistent w h = ground arith

  settle-IsConsistent :
      (w : Worker env)
      → is_some w.connection ≡ true
      → IsConsistent env w
      → IsConsistent env (settle env w)
  unfolding settle
  settle-IsConsistent w c h = elim (Bool-cases (Buffer.is_ready w.buffer)) [
    | inl e ↦ rw e (ground arith)
    | inr e ↦ rw e (ground arith)
  ]

  count_packet-IsConsistent :
      (p : ReceiverAudioPacket) (n t : ℕ) (o : BufferPushOutcome) (b : ReceiverPacketBuffer)
      (w : Worker env)
      → IsWellFormed b
      → is_some w.connection ≡ true
      → is_some w.sync_clock ≡ true
      → IsConsistent env w
      → IsConsistent env (count_packet env p n t o b w)
  unfolding count_packet refresh_sync_buffer_metrics record_packet
  count_packet-IsConsistent p n t o b w hb c k h = settle-IsConsistent _ c (
      refresh-IsConsistent (record_packet env p n t o b w) (record {
        well_formed = hb;
        profile = h.profile;
        sink_open = h.sink_open;
        streaming = h.streaming;
        clocked = λ _. k;
        drained = λ e. absurd (ground (arith, c, e));
      }))

  buffer_packet-IsConsistent :
      (p : ReceiverAudioPacket) (s : ReceiverStreamConfig) (n t : ℕ) (w : Worker env)
      → is_some w.connection ≡ true
      → is_some w.sync_clock ≡ true
      → IsConsistent env w
      → IsConsistent env (buffer_packet env p s n t w)
  unfolding buffer_packet
  buffer_packet-IsConsistent p s n t w c k h =
      let hb = push-IsWellFormed p s w.buffer h.well_formed in
      elim (Result-cases (Buffer.push p s w.buffer).0) [
        | inl (o, e) ↦ rw (e, buffer_packet) (count_packet-IsConsistent p n t o _ w hb c k h)
        | inr (x, e) ↦ rw (e, buffer_packet) (set_error-IsConsistent env _ _ hb h.profile)
      ]

  receive_packet-IsConsistent :
      (p : ReceiverAudioPacket) (s : ReceiverStreamConfig) (w : Worker env)
      → is_some w.connection ≡ true
      → IsConsistent env w
      → IsConsistent env (receive_packet env p s w)
  unfolding receive_packet stamp
  receive_packet-IsConsistent p s w c h = elim (Result-cases (frame_count p s)) [
    | inl (n, e) ↦
        rw (e, receive_packet)
          (buffer_packet-IsConsistent p s n _ _ c (ground arith) (ground arith))
    | inr (x, e) ↦ rw (e, receive_packet) (set_error-IsConsistent env _ _ h.well_formed h.profile)
  ]

  handle_packet-IsConsistent :
      (p : ReceiverAudioPacket) (w : Worker env)
      → IsConsistent env w
      → IsConsistent env (handle_packet env p w)
  unfolding handle_packet
  handle_packet-IsConsistent p w h = elim (Option-cases w.connection) [
    | inl e ↦ rw (e, handle_packet) h
    | inr (c, e) ↦ rw (e, handle_packet) (receive_packet-IsConsistent p c.stream w (rw e refl) h)
  ]

  swap_sink-IsConsistent :
      (w : Worker env) (r : Result String Sink × World)
      → is_some w.connection ≡ true
      → IsConsistent env w
      → IsConsistent env (swap_sink env w r)
  unfolding swap_sink stop_sink
  swap_sink-IsConsistent w (ok sink, world) c h = elim (Option-cases w.playback_sink) [
    | inl e ↦ rw e (ground arith)
    | inr (s, e) ↦ rw e (ground arith)
  ]
  swap_sink-IsConsistent w (err e, world) c h = ground arith

  retarget-IsConsistent : (w : Worker env) → IsConsistent env w → IsConsistent env (retarget env w)
  unfolding retarget
  retarget-IsConsistent w h = elim (Option-cases w.connection) [
    | inl e ↦ rw (e, retarget) h
    | inr (c, e) ↦ rw (e, retarget) (swap_sink-IsConsistent w _ (rw e refl) h)
  ]

  pub handle_playback_target_change-IsConsistent :
      (t : Option String) (w : Worker env)
      → IsConsistent env w
      → IsConsistent env (handle_playback_target_change env t w)
  unfolding handle_playback_target_change
  handle_playback_target_change-IsConsistent t w h =
      sync_snapshot-IsConsistent env _ (retarget-IsConsistent _ (ground arith))

  apply_event-IsConsistent :
      (e : ReceiverTransportEvent) (w : Worker env)
      → IsConsistent env w
      → IsConsistent env (apply_event env e w)
  unfolding apply_event keep_transport_alive
  apply_event-IsConsistent (connected c) w h = handle_connect-IsConsistent env c w h
  apply_event-IsConsistent (audio_packet p) w h = handle_packet-IsConsistent p w h
  apply_event-IsConsistent keep_alive w h = ground arith
  apply_event-IsConsistent (disconnected r s) w h = handle_disconnect-IsConsistent env r s w h
  apply_event-IsConsistent (error m) w h = set_error-IsConsistent env _ w h.well_formed h.profile

  pub handle_transport_event-IsConsistent :
      (e : ReceiverTransportEvent) (w : Worker env)
      → IsConsistent env w
      → IsConsistent env (handle_transport_event env e w)
  unfolding handle_transport_event
  handle_transport_event-IsConsistent e w h =
      sync_snapshot-IsConsistent env _ (apply_event-IsConsistent e w h)
