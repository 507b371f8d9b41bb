-- ===== src/Receiver/State.antt =====
-- crates/synchrosonic-core/src/receiver.rs (the snapshots that the receiver publishes) and the
-- state of the worker in crates/synchrosonic-receiver/src/service.rs.
use audio_share.Base.{ℕ, ◌+◌, ◌-◌, min, Bool, Option, none, List, String, Result}
use audio_share.Base.Int.{ℤ, pos}
use audio_share.Stream.{
  Ratio, ReceiverLatencyPreset, ReceiverLatencyProfile, ReceiverStreamConfig,
  ReceiverConnectionInfo, ReceiverBufferSnapshot, ReceiverAudioPacket, PacketError, default_stream,
  profile, expected_output_latency_ms, buffer_packet_limits, u32, u64_mod, millis,
}
use audio_share.Receiver.Buffer.{ReceiverPacketBuffer}

pub data ReceiverServiceState : Type 0 where
  idle listening connected buffering playing error : ReceiverServiceState

pub data ReceiverSyncState : Type 0 where
  idle priming locked late recovering : ReceiverSyncState

pub record ReceiverMetrics : Type 0 where
  pub packets_received : ℕ
  pub frames_received : ℕ
  pub bytes_received : ℕ
  pub packets_played : ℕ
  pub frames_played : ℕ
  pub bytes_played : ℕ
  pub buffer_fill_percent : ℕ
  pub underruns : ℕ
  pub overruns : ℕ
  pub reconnect_attempts : ℕ

abbrev pub no_metrics : ReceiverMetrics
no_metrics = record {
  packets_received = 0;
  frames_received = 0;
  bytes_received = 0;
  packets_played = 0;
  frames_played = 0;
  bytes_played = 0;
  buffer_fill_percent = 0;
  underruns = 0;
  overruns = 0;
  reconnect_attempts = 0;
}

pub record ReceiverSyncSnapshot : Type 0 where
  pub state : ReceiverSyncState
  pub requested_latency_ms : Option ℕ
  pub target_buffer_ms : ℕ
  pub playback_latency_ms : ℕ
  pub expected_output_latency_ms : ℕ
  pub queued_audio_ms : ℕ
  pub buffer_delta_ms : ℤ
  pub schedule_error_ms : ℤ
  pub late_packet_drops : ℕ
  pub sync_resets : ℕ
  pub last_sender_timestamp_ms : Option ℕ
  pub last_sender_capture_unix_ms : Option ℕ

unfoldable pub from_profile : ReceiverLatencyProfile → ReceiverSyncSnapshot
from_profile p = record {
  state = ReceiverSyncState.idle;
  requested_latency_ms = none;
  target_buffer_ms = p.target_buffer_ms;
  playback_latency_ms = p.playback_latency_ms;
  expected_output_latency_ms = expected_output_latency_ms p;
  queued_audio_ms = 0;
  buffer_delta_ms = pos 0;
  schedule_error_ms = pos 0;
  late_packet_drops = 0;
  sync_resets = 0;
  last_sender_timestamp_ms = none;
  last_sender_capture_unix_ms = none;
}

-- The texts of `last_error`: one that came from outside, or one for a packet's fault.
pub data Message : Type 0 where
  text : String → Message
  packet_error : PacketError → Message

pub record ReceiverConfig : Type 0 where
  pub enabled : Bool
  pub start_on_launch : Bool
  pub advertised_name : String
  pub bind_host : String
  pub listen_port : ℕ
  pub playback_target_id : Option String
  pub latency_preset : ReceiverLatencyPreset

pub record ReceiverSnapshot : Type 0 where
  pub state : ReceiverServiceState
  pub advertised_name : String
  pub bind_host : String
  pub listen_port : ℕ
  pub latency_preset : ReceiverLatencyPreset
  pub playback_target_id : Option String
  pub playback_backend : Option String
  pub connection : Option ReceiverConnectionInfo
  pub buffer : ReceiverBufferSnapshot
  pub sync : ReceiverSyncSnapshot
  pub metrics : ReceiverMetrics
  pub last_error : Option Message

unfoldable pub from_config : Ratio → ReceiverConfig → ReceiverSnapshot
unfolding from_profile
from_config ratio c =
    let p = profile c.latency_preset in
    let limits = buffer_packet_limits ratio p default_stream in
    record {
      state = idle;
      advertised_name = c.advertised_name;
      bind_host = c.bind_host;
      listen_port = c.listen_port;
      latency_preset = c.latency_preset;
      playback_target_id = c.playback_target_id;
      playback_backend = none;
      connection = none;
      buffer = record {
        queued_packets = 0;
        queued_frames = 0;
        queued_audio_ms = 0;
        target_buffer_ms = p.target_buffer_ms;
        max_buffer_ms = p.max_buffer_ms;
        start_threshold_packets = u32 limits.0;
        max_packets = u32 limits.1;
      };
      sync = from_profile p;
      metrics = no_metrics;
      last_error = none;
    }

pub record PlaybackStartRequest : Type 0 where
  pub stream : ReceiverStreamConfig
  pub target_id : Option String
  pub latency_ms : ℕ

-- What the worker reaches outside itself: the monotonic clock in nanoseconds, and the playback
-- engine with its sinks (`dyn PlaybackEngine`, `dyn PlaybackSink`). Every call may change the world.
pub record Environment : Type 1 where
  pub World : Type 0
  pub Sink : Type 0
  pub ratio : Ratio
  pub now : World → ℕ × World
  pub start_stream : PlaybackStartRequest → World → Result String Sink × World
  pub write : Sink → List ℕ → World → Result String (Unit {0}) × World
  pub stop : Sink → World → Result String (Unit {0}) × World

pub record SyncClock : Type 0 where
  pub anchor_local_instant : ℕ
  pub anchor_sender_timestamp_ms : ℕ

-- `saturating_sub` and `saturating_add` on u64.
unfoldable pub write_deadline : SyncClock → ℕ → ℕ → ℕ
write_deadline c sender_timestamp_ms target_buffer_ms =
    c.anchor_local_instant
    + millis
        (min (sender_timestamp_ms - c.anchor_sender_timestamp_ms + target_buffer_ms) (u64_mod - 1))

-- `world` is what lies outside the worker; `published` is the snapshot behind the mutex.
pub record ReceiverWorker (World Sink : Type 0) : Type 0 where
  pub config : ReceiverConfig
  pub playback_sink : Option Sink
  pub buffer : ReceiverPacketBuffer
  pub buffer_profile : ReceiverLatencyProfile
  pub published : ReceiverSnapshot
  pub metrics : ReceiverMetrics
  pub sync : ReceiverSyncSnapshot
  pub sync_clock : Option SyncClock
  pub connection : Option ReceiverConnectionInfo
  pub state : ReceiverServiceState
  pub next_playback_deadline : Option ℕ
  pub last_transport_activity : Option ℕ
  pub last_error : Option Message
  pub world : World

pub data ReceiverTransportEvent : Type 0 where
  connected : ReceiverConnectionInfo → ReceiverTransportEvent
  audio_packet : ReceiverAudioPacket → ReceiverTransportEvent
  keep_alive : ReceiverTransportEvent
  disconnected : String → Bool → ReceiverTransportEvent
  error : String → ReceiverTransportEvent
