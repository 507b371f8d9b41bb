-- ===== src/Session.antt =====
-- crates/synchrosonic-core/src/streaming.rs: what the sender publishes of its session.
pub mod Totals
mod Tests
use audio_share.Base.{ℕ, ◌+◌, max, Bool, false, List, [], ◌∷◌, Option, none, some, String}
use audio_share.Stream.{ReceiverStreamConfig, u64}
use audio_share.Discovery.Address.{SocketAddr}

pub data StreamCodec : Type 0 where
  raw_pcm : StreamCodec

pub data StreamSessionState : Type 0 where
  idle connecting negotiating streaming stopping error : StreamSessionState

pub record StreamMetrics : Type 0 where
  pub packets_sent : ℕ
  pub packets_received : ℕ
  pub bytes_sent : ℕ
  pub bytes_received : ℕ
  pub estimated_bitrate_bps : ℕ
  pub latency_estimate_ms : Option ℕ
  pub packet_gaps : ℕ
  pub keepalives_sent : ℕ
  pub keepalives_received : ℕ

abbrev pub no_metrics : StreamMetrics
no_metrics = record {
  packets_sent = 0;
  packets_received = 0;
  bytes_sent = 0;
  bytes_received = 0;
  estimated_bitrate_bps = 0;
  latency_estimate_ms = none;
  packet_gaps = 0;
  keepalives_sent = 0;
  keepalives_received = 0;
}

abbrev pub slower : Option ℕ → Option ℕ → Option ℕ
slower (some left) (some right) = some (max left right)
slower (some left) none = some left
slower none (some right) = some right
slower none none = none

unfoldable pub accumulate : StreamMetrics → StreamMetrics → StreamMetrics
accumulate m other = record {
  packets_sent = u64 (m.packets_sent + other.packets_sent);
  packets_received = u64 (m.packets_received + other.packets_received);
  bytes_sent = u64 (m.bytes_sent + other.bytes_sent);
  bytes_received = u64 (m.bytes_received + other.bytes_received);
  estimated_bitrate_bps = u64 (m.estimated_bitrate_bps + other.estimated_bitrate_bps);
  latency_estimate_ms = slower m.latency_estimate_ms other.latency_estimate_ms;
  packet_gaps = u64 (m.packet_gaps + other.packet_gaps);
  keepalives_sent = u64 (m.keepalives_sent + other.keepalives_sent);
  keepalives_received = u64 (m.keepalives_received + other.keepalives_received);
}

pub record StreamBranchBufferSnapshot : Type 0 where
  pub queued_packets : ℕ
  pub max_packets : ℕ
  pub dropped_packets : ℕ

pub data LocalMirrorState : Type 0 where
  disabled idle starting mirroring stopping error : LocalMirrorState

pub record LocalMirrorSnapshot : Type 0 where
  pub desired_enabled : Bool
  pub state : LocalMirrorState
  pub playback_backend : Option String
  pub playback_target_id : Option String
  pub buffer : StreamBranchBufferSnapshot
  pub packets_played : ℕ
  pub bytes_played : ℕ
  pub last_error : Option String

abbrev pub no_mirror : LocalMirrorSnapshot
no_mirror = record {
  desired_enabled = false;
  state = disabled;
  playback_backend = none;
  playback_target_id = none;
  buffer = record { queued_packets = 0; max_packets = 0; dropped_packets = 0 };
  packets_played = 0;
  bytes_played = 0;
  last_error = none;
}

pub data StreamTargetHealth : Type 0 where
  pending healthy degraded unreachable error : StreamTargetHealth

pub data StreamTargetFailureKind : Type 0 where
  refused timeout resolve_failure protocol_mismatch self_target_blocked unreachable :
      StreamTargetFailureKind

pub record StreamTargetSnapshot : Type 0 where
  pub receiver_id : String
  pub receiver_name : String
  pub endpoint : SocketAddr
  pub state : StreamSessionState
  pub health : StreamTargetHealth
  pub session_id : Option String
  pub codec : Option StreamCodec
  pub stream : Option ReceiverStreamConfig
  pub network_buffer : StreamBranchBufferSnapshot
  pub metrics : StreamMetrics
  pub attempt_count : ℕ
  pub next_retry_at_unix_ms : Option ℕ
  pub last_error_kind : Option StreamTargetFailureKind
  pub last_error : Option String

pub record StreamSessionSnapshot : Type 0 where
  pub state : StreamSessionState
  pub session_id : Option String
  pub stream : Option ReceiverStreamConfig
  pub targets : List StreamTargetSnapshot
  pub local_mirror : LocalMirrorSnapshot
  pub metrics : StreamMetrics
  pub last_error : Option String

abbrev pub no_session : StreamSessionSnapshot
no_session = record {
  state = StreamSessionState.idle;
  session_id = none;
  stream = none;
  targets = [];
  local_mirror = no_mirror;
  metrics = no_metrics;
  last_error = none;
}

-- crates/synchrosonic-transport/src/sender.rs: the loop of `aggregate_metrics`.
unfoldable pub aggregate_from : StreamMetrics → List StreamTargetSnapshot → StreamMetrics
unfolding accumulate
aggregate_from aggregate [] = aggregate
aggregate_from aggregate (target ∷ rest) = aggregate_from (accumulate aggregate target.metrics) rest

unfoldable pub aggregate_metrics : List StreamTargetSnapshot → StreamMetrics
unfolding aggregate_from
aggregate_metrics targets = aggregate_from no_metrics targets
