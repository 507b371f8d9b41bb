-- ===== src/Receiver/Worker/Packets.antt =====
-- crates/synchrosonic-receiver/src/service.rs: `handle_packet`, `handle_playback_target_change` and
-- `handle_transport_event`.
use audio_share.Base.{
  ℕ, ◌+◌, Option, none, some, String, Result, ok, err, if◌then◌else◌, is_none, length, ◌&&◌,
}
use audio_share.Stream.{ReceiverAudioPacket, ReceiverStreamConfig, frame_count, fill_percent, u64}
use audio_share.Receiver.Buffer
use audio_share.Receiver.Buffer.{
  ReceiverPacketBuffer, BufferedPacket, BufferPushOutcome, accepted, dropped_oldest,
}
use audio_share.Receiver.State.{
  Environment, listening, buffering, priming, SyncClock, ReceiverTransportEvent, connected,
  audio_packet, keep_alive, disconnected, error, text, packet_error, write_deadline,
}
use audio_share.Receiver.Worker.{
  Worker, is_playing, is_connected, is_error, is_filling, is_recovering, is_unlocked, sync_snapshot,
  stop_sink, set_error, handle_disconnect, handle_connect, refresh_sync_buffer_metrics, request,
}

module _ (env : Environment) where
  open env use {World, Sink, now, start_stream, stop}

  abbrev deadline_by : Worker env → Option SyncClock → ℕ → Option ℕ
  deadline_by w none ts = none
  deadline_by w (some clock) ts = some (write_deadline clock ts w.buffer_profile.target_buffer_ms)

  abbrev pub write_deadline_for : Worker env → ℕ → Option ℕ
  write_deadline_for w ts = deadline_by w w.sync_clock ts

  abbrev deadline_of : Worker env → Option BufferedPacket → Option ℕ
  deadline_of w none = none
  deadline_of w (some p) = write_deadline_for w p.packet.captured_at_ms

  -- `if self.buffer.is_ready() { … } else if matches!(…) { … }`
  unfoldable pub settle : Worker env → Worker env
  settle w =
      if Buffer.is_ready w.buffer
      then record w {
        state = if is_playing w.state then w.state else buffering;
        next_playback_deadline =
            if is_none w.next_playback_deadline
            then deadline_of w (Buffer.front w.buffer)
            else w.next_playback_deadline;
        sync = record w.sync { state = if is_unlocked w.sync.state then priming else w.sync.state };
      }
      else if is_filling w.state
      then record w {
        state = buffering;
        sync = record w.sync {
          state = if is_recovering w.sync.state then w.sync.state else priming;
        };
      }
      else w

  abbrev overrun : BufferPushOutcome → ℕ → ℕ
  overrun accepted n = n
  overrun (dropped_oldest _) n = u64 (n + 1)

  -- The clock of the sync window starts with its first packet.
  unfoldable pub stamp : ReceiverAudioPacket → ℕ → Worker env → Worker env
  stamp packet received_at w = record w {
    sync_clock =
        if is_none w.sync_clock
        then some (record {
          anchor_local_instant = received_at;
          anchor_sender_timestamp_ms = packet.captured_at_ms;
        })
        else w.sync_clock;
    sync = record w.sync {
      last_sender_timestamp_ms = some packet.captured_at_ms;
      last_sender_capture_unix_ms = some packet.captured_at_unix_ms;
    };
  }

  -- The counters of the `Ok` arm of `buffer.push`.
  unfoldable pub record_packet :
      ReceiverAudioPacket
      → ℕ
      → ℕ
      → BufferPushOutcome
      → ReceiverPacketBuffer
      → Worker env
      → Worker env
  record_packet packet frames received_at outcome buffer w = record w {
    buffer = buffer;
    metrics = record w.metrics {
      overruns = overrun outcome w.metrics.overruns;
      packets_received = u64 (w.metrics.packets_received + 1);
      frames_received = u64 (w.metrics.frames_received + frames);
      bytes_received = u64 (w.metrics.bytes_received + length packet.payload);
      buffer_fill_percent = fill_percent (Buffer.snapshot buffer);
    };
    last_transport_activity = some received_at;
  }

  unfoldable pub count_packet :
      ReceiverAudioPacket
      → ℕ
      → ℕ
      → BufferPushOutcome
      → ReceiverPacketBuffer
      → Worker env
      → Worker env
  count_packet packet frames received_at outcome buffer w =
      settle
        (refresh_sync_buffer_metrics env (record_packet packet frames received_at outcome buffer w))

  unfoldable pub buffer_packet :
      ReceiverAudioPacket → ReceiverStreamConfig → ℕ → ℕ → Worker env → Worker env
  buffer_packet packet stream frames received_at w =
      let (r, buffer) = Buffer.push packet stream w.buffer in
      elim r [
        | ok outcome ↦ count_packet packet frames received_at outcome buffer w
        | err e ↦ set_error env (packet_error e) (record w { buffer = buffer })
      ]

  unfoldable pub receive_packet :
      ReceiverAudioPacket → ReceiverStreamConfig → Worker env → Worker env
  receive_packet packet stream w0 =
      let (received_at, world) = now w0.world in
      let w = stamp packet received_at (record w0 { world = world }) in
      elim (frame_count packet stream) [
        | ok frames ↦ buffer_packet packet stream frames received_at w
        | err e ↦ set_error env (packet_error e) w
      ]

  unfoldable pub handle_packet : ReceiverAudioPacket → Worker env → Worker env
  handle_packet packet w = elim w.connection [
    | none ↦ w
    | some connection ↦ receive_packet packet connection.stream w
  ]

  -- The new sink replaces the old one, which is stopped; on failure the old one stays.
  unfoldable pub swap_sink : Worker env → Result String Sink × World → Worker env
  swap_sink w (ok sink, world) =
      let stopped = stop_sink env (record w { world = world }) w.playback_sink in
      record stopped {
        playback_sink = some sink;
        state = if is_connected w.state then buffering else w.state;
      }
  swap_sink w (err e, world) = record w { last_error = some (text e); world = world }

  unfoldable pub retarget : Worker env → Worker env
  retarget w = elim w.connection [
    | none ↦ w
    | some connection ↦ swap_sink w (start_stream (request env w connection.stream) w.world)
  ]

  unfoldable pub handle_playback_target_change : Option String → Worker env → Worker env
  handle_playback_target_change target_id w = sync_snapshot env (
      retarget (record w {
        config = record w.config { playback_target_id = target_id };
        last_error = none;
        state = if is_error w.state && is_none w.connection then listening else w.state;
      }))

  unfoldable pub keep_transport_alive : Worker env → Worker env
  keep_transport_alive w =
      let (t, world) = now w.world in record w { last_transport_activity = some t; world = world }

  unfoldable pub apply_event : ReceiverTransportEvent → Worker env → Worker env
  unfolding keep_transport_alive
  apply_event (connected connection) w = handle_connect env connection w
  apply_event (audio_packet packet) w = handle_packet packet w
  apply_event keep_alive w = keep_transport_alive w
  apply_event (disconnected reason reconnect_suggested) w =
      handle_disconnect env reason reconnect_suggested w
  apply_event (error message) w = set_error env (text message) w

  unfoldable pub handle_transport_event : ReceiverTransportEvent → Worker env → Worker env
  handle_transport_event event w = sync_snapshot env (apply_event event w)
