-- ===== src/Sender/Policy.antt =====
-- crates/synchrosonic-transport/src/sender.rs: the decisions that the sender takes without a
-- socket, at the end of the file. Durations are numbers of nanoseconds.
use audio_share.Base.{
  ℕ, zero, suc, ◌+◌, ◌-◌, ◌/◌, min, max, Bool, true, false, not, ◌||◌, List, [], ◌∷◌, Option, none,
  some, String, Result, ok, err, ◌==◌, ◌=s=◌, any, is_some, if◌then◌else◌,
}
use audio_share.Stream.{
  ReceiverStreamConfig, AudioSampleFormat, s16_le, f32_le, u64, saturating_mul_u64, u64_mod, millis,
}
use audio_share.Discovery.Address.{SocketAddr, TransportEndpoint}
use audio_share.Session.{
  StreamCodec, raw_pcm, StreamSessionState, StreamTargetSnapshot, StreamTargetHealth,
  StreamTargetFailureKind, LocalMirrorState, LocalMirrorSnapshot, no_metrics,
}
use audio_share.Protocol.{
  TransportError, connect, unsupported_version, session_id_changed, codec_unsupported,
  stream_changed,
}
use audio_share.Protocol.Wire.{timed_out, connection_refused}
use audio_share.Protocol.Messages.{AcceptMessage, stream_protocol_version}

abbrev pub min_branch_queue_packets : ℕ
min_branch_queue_packets = 4

abbrev pub branch_queue_headroom_packets : ℕ
branch_queue_headroom_packets = 2

abbrev pub max_branch_queue_packets : ℕ
max_branch_queue_packets = 64

abbrev pub max_connect_attempts : ℕ
max_connect_attempts = 3

pub record SenderTarget : Type 0 where
  pub receiver_id : String
  pub receiver_name : String
  pub endpoint : TransportEndpoint

pub record CaptureOutputs : Type 0 where
  pub local_monitoring : Bool
  pub network_streaming : Bool

pub record CaptureSettings : Type 0 where
  pub source_id : Option String
  pub sample_rate_hz : ℕ
  pub channels : ℕ
  pub sample_format : AudioSampleFormat
  pub buffer_frames : ℕ
  pub target_latency_ms : ℕ
  pub outputs : CaptureOutputs

pub record TargetConnectFailure : Type 0 where
  pub target : SenderTarget
  pub snapshot : StreamTargetSnapshot
  pub failure_kind : StreamTargetFailureKind
  pub retryable : Bool

-- The derived `==` of the stream parameters.
unfoldable pub same_format : AudioSampleFormat → AudioSampleFormat → Bool
same_format s16_le s16_le = true
same_format f32_le f32_le = true
same_format _ _ = false

unfoldable pub same_stream : ReceiverStreamConfig → ReceiverStreamConfig → Bool
unfolding same_format
same_stream a b =
    if not (a.sample_rate_hz == b.sample_rate_hz)
    then false
    else if not (a.channels == b.channels)
    then false
    else if not (same_format a.sample_format b.sample_format)
    then false
    else a.frames_per_packet == b.frames_per_packet

abbrev pub is_raw_pcm : StreamCodec → Bool
is_raw_pcm raw_pcm = true

unfoldable pub validate_accept :
    AcceptMessage → String → ReceiverStreamConfig → Result TransportError (Unit {0})
unfolding same_stream
validate_accept accept expected_session_id requested_stream =
    if not (accept.protocol_version == stream_protocol_version)
    then err (unsupported_version accept.protocol_version)
    else if not (accept.session_id =s= expected_session_id)
    then err session_id_changed
    else if not (is_raw_pcm accept.codec)
    then err codec_unsupported
    else if not (same_stream accept.stream requested_stream)
    then err stream_changed
    else ok tt

abbrev failure_health : StreamTargetFailureKind → StreamTargetHealth
failure_health StreamTargetFailureKind.protocol_mismatch = StreamTargetHealth.error
failure_health StreamTargetFailureKind.self_target_blocked = StreamTargetHealth.error
failure_health _ = StreamTargetHealth.unreachable

unfoldable pub connect_failure :
    SenderTarget
    → StreamTargetSnapshot
    → StreamTargetFailureKind
    → String
    → Bool
    → TargetConnectFailure
connect_failure target snapshot failure_kind message retryable = record {
  target = target;
  snapshot = record snapshot {
    state = StreamSessionState.error;
    health = failure_health failure_kind;
    last_error_kind = some failure_kind;
    last_error = some message;
  };
  failure_kind = failure_kind;
  retryable = retryable;
}

unfoldable pub classify_connect_error : TransportError → StreamTargetFailureKind
classify_connect_error (connect connection_refused) = StreamTargetFailureKind.refused
classify_connect_error (connect timed_out) = StreamTargetFailureKind.timeout
classify_connect_error _ = StreamTargetFailureKind.unreachable

unfoldable pub retry_backoff : ℕ → ℕ
retry_backoff zero = millis 500
retry_backoff (suc zero) = millis 500
retry_backoff (suc (suc zero)) = millis 1500
retry_backoff _ = millis 3000

-- `StreamTargetSnapshot::new` of crates/synchrosonic-core/src/streaming.rs.
unfoldable pub new_target_snapshot : String → String → SocketAddr → StreamTargetSnapshot
new_target_snapshot receiver_id receiver_name endpoint = record {
  receiver_id = receiver_id;
  receiver_name = receiver_name;
  endpoint = endpoint;
  state = StreamSessionState.idle;
  health = StreamTargetHealth.pending;
  session_id = none;
  codec = none;
  stream = none;
  network_buffer = record { queued_packets = 0; max_packets = 0; dropped_packets = 0 };
  metrics = no_metrics;
  attempt_count = 0;
  next_retry_at_unix_ms = none;
  last_error_kind = none;
  last_error = none;
}

unfoldable pub pending_target_snapshot : SenderTarget → ℕ → StreamTargetSnapshot
unfolding new_target_snapshot
pending_target_snapshot target attempt_count =
    record (new_target_snapshot target.receiver_id target.receiver_name target.endpoint.address) {
      state = StreamSessionState.connecting;
      health = StreamTargetHealth.pending;
      attempt_count = attempt_count;
    }

unfoldable pub receiver_stream_config : CaptureSettings → ReceiverStreamConfig
receiver_stream_config settings = record {
  sample_rate_hz = settings.sample_rate_hz;
  channels = settings.channels;
  sample_format = settings.sample_format;
  frames_per_packet = settings.buffer_frames;
}

abbrev pub is_streaming : StreamSessionState → Bool
is_streaming StreamSessionState.streaming = true
is_streaming _ = false

abbrev pub is_stopping : StreamSessionState → Bool
is_stopping StreamSessionState.stopping = true
is_stopping _ = false

abbrev pub is_error : StreamSessionState → Bool
is_error StreamSessionState.error = true
is_error _ = false

abbrev pub is_opening : StreamSessionState → Bool
is_opening StreamSessionState.connecting = true
is_opening StreamSessionState.negotiating = true
is_opening _ = false

abbrev pub is_waiting : StreamTargetSnapshot → Bool
is_waiting target = is_opening target.state || is_some target.next_retry_at_unix_ms

-- `iter().all`.
abbrev pub all {ℓ} : {A : Type ℓ} → (A → Bool) → List A → Bool
all p [] = true
all p (x ∷ xs) = elim (p x) [ true ↦ all p xs | false ↦ false ]

abbrev pub is_empty {ℓ} : {A : Type ℓ} → List A → Bool
is_empty [] = true
is_empty (x ∷ xs) = false

unfoldable pub derive_manager_state : List StreamTargetSnapshot → StreamSessionState
derive_manager_state targets =
    if is_empty targets
    then StreamSessionState.idle
    else if any (λ target. is_streaming target.state) targets
    then StreamSessionState.streaming
    else if any is_waiting targets
    then StreamSessionState.connecting
    else if any (λ target. is_stopping target.state) targets
    then StreamSessionState.stopping
    else if all (λ target. is_error target.state) targets
    then StreamSessionState.error
    else StreamSessionState.idle

unfoldable pub bitrate_bps : ℕ → ℕ → ℕ
bitrate_bps bytes_sent elapsed =
    let ms = u64 (elapsed / 1000000) in
    if ms == 0 then 0 else saturating_mul_u64 (saturating_mul_u64 bytes_sent 8) 1000 / ms

-- `usize` has 64 bits; `saturating_add` and `saturating_sub`.
unfoldable pub div_ceil : ℕ → ℕ → ℕ
div_ceil dividend divisor = min (dividend + (divisor - 1)) (u64_mod - 1) / max divisor 1

-- `packet_ms` is cut to 64 bits by `as usize`.
unfoldable pub branch_queue_capacity : ℕ → ℕ → ℕ
unfolding div_ceil
branch_queue_capacity packet_duration target_latency_ms =
    let packet_ms = u64 (max (packet_duration / 1000000) 1) in
    let target_ms = max target_latency_ms 10 in
    let packets = div_ceil target_ms packet_ms + branch_queue_headroom_packets in
    min (max packets min_branch_queue_packets) max_branch_queue_packets

abbrev mirrored : LocalMirrorState → LocalMirrorState
mirrored LocalMirrorState.mirroring = LocalMirrorState.mirroring
mirrored LocalMirrorState.starting = LocalMirrorState.starting
mirrored _ = LocalMirrorState.starting

abbrev mirror_state : Bool → Bool → LocalMirrorState → LocalMirrorState
mirror_state capture_active desired LocalMirrorState.error = LocalMirrorState.error
mirror_state true true state = mirrored state
mirror_state true false state = LocalMirrorState.disabled
mirror_state false true state = LocalMirrorState.idle
mirror_state false false state = LocalMirrorState.disabled

unfoldable pub finalize_local_mirror_state : LocalMirrorSnapshot → Bool → LocalMirrorSnapshot
finalize_local_mirror_state snapshot capture_active = record snapshot {
  state = mirror_state capture_active snapshot.desired_enabled snapshot.state;
}
