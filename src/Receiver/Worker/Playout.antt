-- ===== src/Receiver/Worker/Playout.antt =====
-- crates/synchrosonic-receiver/src/service.rs: `on_tick` with its playout loop, and the transport
-- timeout.
use audio_share.Base.{
  ℕ, zero, suc, ◌+◌, ◌-◌, ◌/◌, min, true, ◌&&◌, not, none, some, String, Result, ok, err, leb, ltb,
  if◌then◌else◌, is_some, is_none, length,
}
use audio_share.Base.Int.{ℤ, pos, neg, exceeds}
use audio_share.Stream.{fill_percent, u64}
use audio_share.Receiver.Buffer
use audio_share.Receiver.Buffer.{BufferedPacket, ReceiverPacketBuffer}
use audio_share.Receiver.State.{
  Environment, buffering, playing, priming, locked, late, recovering, text,
}
use audio_share.Receiver.Worker.{
  Worker, is_playing, is_connected, is_recovering, sync_snapshot, set_error, handle_disconnect,
  refresh_sync_buffer_metrics, reset_sync_timeline,
}
use audio_share.Receiver.Worker.Packets.{write_deadline_for}

-- Milliseconds are whole; an i32 holds at most `i32::MAX`.
unfoldable pub signed_instant_delta_ms : ℕ → ℕ → ℤ
signed_instant_delta_ms left right =
    if leb right left
    then pos (min ((left - right) / 1000000) 2147483647)
    else neg (min ((right - left) / 1000000) 2147483647)

-- Whether the playout loop goes on.
pub data Flow {ℓ} (A : Type ℓ) : Type ℓ where
  stopped again : A → Flow A

module _ (env : Environment) where
  open env use {World, Sink, now, write}

  abbrev fill : Worker env → ℕ
  fill w = fill_percent (Buffer.snapshot w.buffer)

  -- `buffer.front()` is `None`.
  unfoldable pub on_empty : Worker env → Worker env
  on_empty w =
      if is_playing w.state
      then (let reset = reset_sync_timeline env true (record w {
        metrics = record w.metrics {
          underruns = u64 (w.metrics.underruns + 1);
          buffer_fill_percent = fill w;
        };
        state = buffering;
      }) in
          record reset { sync = record reset.sync { state = recovering } })
      else w

  -- The branch for a packet that is later than `late_packet_drop_ms`; the packet is popped.
  unfoldable pub on_late : Worker env → Flow (Worker env)
  on_late w0 =
      let buffer = (Buffer.pop w0.buffer).1 in
      let w = refresh_sync_buffer_metrics env (record w0 {
        buffer = buffer;
        sync = record w0.sync {
          late_packet_drops = u64 (w0.sync.late_packet_drops + 1);
          state = late;
        };
        metrics = record w0.metrics { buffer_fill_percent = fill_percent (Buffer.snapshot buffer) };
      }) in
      let reset = reset_sync_timeline env true w in
      if is_none (Buffer.front buffer)
      then stopped (record reset { sync = record reset.sync { state = recovering } })
      else again w

  -- The end of the branch that plays: the sink has taken the packet.
  unfoldable pub on_written : BufferedPacket → ℤ → Worker env → Worker env
  on_written packet schedule_error w = refresh_sync_buffer_metrics env (record w {
    metrics = record w.metrics {
      packets_played = u64 (w.metrics.packets_played + 1);
      frames_played = u64 (w.metrics.frames_played + packet.frames);
      bytes_played = u64 (w.metrics.bytes_played + length packet.packet.payload);
      buffer_fill_percent = fill w;
    };
    state = playing;
    sync = record w.sync {
      state = if exceeds schedule_error w.buffer_profile.latency_tolerance_ms then late else locked;
    };
    next_playback_deadline = none;
  })

  unfoldable pub after_write :
      BufferedPacket → ℤ → Worker env → Result String (Unit {0}) × World → Flow (Worker env)
  after_write packet schedule_error w (ok u, world) =
      again (on_written packet schedule_error (record w { world = world }))
  after_write packet schedule_error w (err e, world) =
      stopped (set_error env (text e) (record w { world = world }))

  -- A due packet is popped and written to the sink.
  unfoldable pub on_due : BufferedPacket → ℤ → Worker env → Flow (Worker env)
  on_due packet schedule_error w0 =
      let w = record w0 { buffer = (Buffer.pop w0.buffer).1 } in
      elim w.playback_sink [
        | none ↦ stopped (set_error env (text "playback sink disappeared during active stream") w)
        | some sink ↦ after_write packet schedule_error w (write sink packet.packet.payload w.world)
      ]

  unfoldable pub at_deadline : BufferedPacket → ℕ → Worker env → Flow (Worker env)
  at_deadline packet deadline w0 =
      let (t, world) = now w0.world in
      let schedule_error = signed_instant_delta_ms t deadline in
      let w = record w0 {
        next_playback_deadline = some deadline;
        sync = record w0.sync { schedule_error_ms = schedule_error };
        world = world;
      } in
      if exceeds schedule_error w.buffer_profile.late_packet_drop_ms
      then on_late w
      else if ltb t deadline
      then stopped (record w { state = if is_playing w.state then w.state else buffering })
      else on_due packet schedule_error w

  -- One round of the loop.
  unfoldable pub playout_step : Worker env → Flow (Worker env)
  playout_step w = elim (Buffer.front w.buffer) [
    | none ↦ stopped (on_empty w)
    | some packet ↦ elim (write_deadline_for env w packet.packet.captured_at_ms) [
      | none ↦ stopped w
      | some deadline ↦ at_deadline packet deadline w
    ]
  ]

  -- Each further round has a packet less: `fuel` is the number of packets and one.
  unfoldable pub playout : ℕ → Worker env → Worker env
  playout zero w = w
  playout (suc fuel) w = elim (playout_step w) [ stopped w' ↦ w' | again w' ↦ playout fuel w' ]

  unfoldable pub await_buffer : Worker env → Worker env
  await_buffer w = record w {
    state = if is_playing w.state then w.state else buffering;
    sync = record w.sync {
      state = if is_recovering w.sync.state then w.sync.state else priming;
      schedule_error_ms = pos 0;
    };
  }

  unfoldable pub drain_ready_packets : Worker env → Worker env
  drain_ready_packets w =
      let rest = playout (suc (length w.buffer.packets)) w in
      if is_none w.connection
      then w
      else if is_none w.sync_clock
      then record w { state = if is_connected w.state then buffering else w.state }
      else if is_none w.next_playback_deadline && not (Buffer.is_ready w.buffer)
      then await_buffer w
      else rest

  -- `elapsed()` reads the clock only where a stream is connected.
  unfoldable pub timeout_since : ℕ → Worker env → Worker env
  timeout_since last_activity w0 =
      let (t, world) = now w0.world in
      let w = record w0 { world = world } in
      if is_some w0.connection
      then (if leb w0.buffer_profile.reconnect_grace_period (t - last_activity)
          then handle_disconnect env "receiver transport timed out" true w
          else w)
      else w0

  unfoldable pub check_transport_timeout : Worker env → Worker env
  check_transport_timeout w = elim w.last_transport_activity [
    | none ↦ w
    | some last_activity ↦ timeout_since last_activity w
  ]

  unfoldable pub on_tick : Worker env → Worker env
  on_tick w =
      sync_snapshot env
        (refresh_sync_buffer_metrics env (check_transport_timeout (drain_ready_packets w)))
