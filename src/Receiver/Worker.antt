-- ===== src/Receiver/Worker.antt =====
-- crates/synchrosonic-receiver/src/service.rs: the handlers of `ReceiverWorker`. A method returns
-- the worker that it leaves. Log output is left out, and the mutex is never poisoned.
pub mod Packets
pub mod Playout
pub mod Run
pub mod Invariant
pub mod Preservation
pub mod PacketLaws
pub mod Timing
pub mod RunLaws
mod Tests
pub mod PlayoutLaws
use audio_share.Base.{
  ℕ, ◌+◌, ◌-◌, ◌*◌, ◌/◌, min, max, Bool, true, false, not, ◌&&◌, ◌||◌, List, [], ◌∷◌, Option, none,
  some, String, Result, ok, err, leb, if◌then◌else◌, is_some, is_none, length,
}
use audio_share.Base.Int.{ℤ, pos, minus_ℕ, as_i32}
use audio_share.Stream.{
  ReceiverConnectionInfo, ReceiverAudioPacket, ReceiverLatencyProfile, ReceiverStreamConfig,
  PacketError, default_stream, profile, frame_count, fill_percent, u64, u64_mod,
}
use audio_share.Receiver.Buffer
use audio_share.Receiver.Buffer.{
  ReceiverPacketBuffer, BufferedPacket, BufferPushOutcome, accepted, dropped_oldest,
}
use audio_share.Receiver.State.{
  Environment, ReceiverWorker, ReceiverServiceState, idle, listening, connected, buffering, playing,
  error, ReceiverSyncState, priming, locked, late, recovering, ReceiverMetrics, no_metrics,
  ReceiverSnapshot, ReceiverConfig, SyncClock, PlaybackStartRequest, ReceiverTransportEvent,
  Message, text, packet_error, from_profile, write_deadline,
}

abbrev pub is_playing : ReceiverServiceState → Bool
is_playing playing = true
is_playing _ = false

abbrev pub is_connected : ReceiverServiceState → Bool
is_connected connected = true
is_connected _ = false

abbrev pub is_error : ReceiverServiceState → Bool
is_error error = true
is_error _ = false

-- `Connected | Buffering`
abbrev pub is_filling : ReceiverServiceState → Bool
is_filling connected = true
is_filling buffering = true
is_filling _ = false

abbrev pub is_recovering : ReceiverSyncState → Bool
is_recovering recovering = true
is_recovering _ = false

-- `Idle | Priming | Recovering`
abbrev pub is_unlocked : ReceiverSyncState → Bool
is_unlocked locked = false
is_unlocked late = false
is_unlocked _ = true

module _ (env : Environment) where
  open env use {World, Sink, ratio, now, start_stream, write, stop}

  abbrev pub Worker : Type 0
  Worker = ReceiverWorker World Sink

  unfoldable pub sync_snapshot : Worker → Worker
  sync_snapshot w =
      let buffer = Buffer.snapshot w.buffer in
      record w {
        published = record w.published {
          state = w.state;
          connection = w.connection;
          buffer = buffer;
          sync = w.sync;
          metrics = record w.metrics { buffer_fill_percent = fill_percent buffer };
          last_error = w.last_error;
        };
      }

  unfoldable pub stop_sink : Worker → Option Sink → Worker
  stop_sink w none = w
  stop_sink w (some sink) =
      let (r, world) = stop sink w.world in
      elim r [
        | ok u ↦ record w { playback_sink = none; world = world }
        | err e ↦ record w { playback_sink = none; world = world; last_error = some (text e) }
      ]

  unfoldable pub stop_playback_sink : Worker → Worker
  unfolding stop_sink
  stop_playback_sink w = stop_sink w w.playback_sink

  unfoldable pub reset_sync_timeline : Bool → Worker → Worker
  reset_sync_timeline count_reset w = record w {
    sync_clock = none;
    next_playback_deadline = none;
    sync = record w.sync {
      schedule_error_ms = pos 0;
      last_sender_timestamp_ms = none;
      last_sender_capture_unix_ms = none;
      sync_resets = if count_reset then u64 (w.sync.sync_resets + 1) else w.sync.sync_resets;
    };
  }

  unfoldable pub refresh_sync_buffer_metrics : Worker → Worker
  refresh_sync_buffer_metrics w =
      let queued = Buffer.queued_audio_ms w.buffer in
      record w {
        sync = record w.sync {
          queued_audio_ms = queued;
          buffer_delta_ms = minus_ℕ (as_i32 queued) w.sync.target_buffer_ms;
        };
      }

  -- The common end of `handle_disconnect` and `set_error`, up to where the state is set.
  unfoldable pub close_stream : Worker → Worker
  unfolding stop_playback_sink reset_sync_timeline
  close_stream w0 =
      let w = stop_playback_sink w0 in
      record w {
        connection = none;
        buffer = Buffer.clear w.buffer;
        sync_clock = none;
        next_playback_deadline = none;
        sync = from_profile w.buffer_profile;
        last_transport_activity = none;
        metrics = record w.metrics { buffer_fill_percent = 0 };
      }

  unfoldable pub set_error : Message → Worker → Worker
  set_error message w0 =
      let w = close_stream w0 in
      record w {
        state = error;
        last_error = some message;
        sync = record w.sync { state = recovering };
      }

  unfoldable pub handle_disconnect : String → Bool → Worker → Worker
  handle_disconnect reason reconnect_suggested w0 =
      let w = close_stream w0 in
      record w {
        metrics = record w.metrics {
          reconnect_attempts =
              if reconnect_suggested
              then u64 (w.metrics.reconnect_attempts + 1)
              else w.metrics.reconnect_attempts;
        };
        state = listening;
        last_error = if reconnect_suggested then some (text reason) else none;
      }

  abbrev pub request : Worker → ReceiverStreamConfig → PlaybackStartRequest
  request w stream = record {
    stream = stream;
    target_id = w.config.playback_target_id;
    latency_ms = w.buffer_profile.playback_latency_ms;
  }

  -- The state before the engine is asked for a sink.
  unfoldable pub prepare_connect : ReceiverConnectionInfo → Worker → Worker
  unfolding stop_playback_sink
  prepare_connect connection w0 =
      let w = stop_playback_sink w0 in
      record w {
        buffer = Buffer.new ratio w.buffer_profile connection.stream;
        sync_clock = none;
        next_playback_deadline = none;
        sync = record (from_profile w.buffer_profile) {
          state = priming;
          requested_latency_ms = some connection.requested_latency_ms;
        };
      }

  unfoldable pub finish_connect :
      ReceiverConnectionInfo → Worker → Result String Sink × World → Worker
  finish_connect connection w (ok sink, world) =
      let (t, world') = now world in
      record w {
        playback_sink = some sink;
        connection = some connection;
        state = connected;
        last_transport_activity = some t;
        last_error = none;
        world = world';
      }
  finish_connect connection w (err e, world) =
      set_error (text e) (record w { connection = none; world = world })

  unfoldable pub handle_connect : ReceiverConnectionInfo → Worker → Worker
  handle_connect connection w0 =
      let w = prepare_connect connection w0 in
      finish_connect connection w (start_stream (request w connection.stream) w.world)
