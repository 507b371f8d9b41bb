-- ===== src/Stream.antt =====
-- crates/synchrosonic-core/src/receiver.rs and audio.rs: stream parameters, latency profiles,
-- packets and the buffer sizes that follow from them. Durations are numbers of nanoseconds.
pub mod Limits
mod Tests
use audio_share.Base.{
  ℕ, suc, ◌+◌, ◌*◌, ◌-◌, ◌/◌, ◌%◌, ◌^◌, min, max, Bool, true, false, ◌||◌, List, Option, none, some,
  String, Result, ok, err, ltb, leb, ◌==◌, if◌then◌else◌, length,
}

abbrev pub u32_mod : ℕ
u32_mod = 4294967296

abbrev pub u64_mod : ℕ
u64_mod = 18446744073709551616

-- `as u32`, and `+` on u64.
abbrev pub u32 : ℕ → ℕ
u32 n = n % u32_mod

abbrev pub u64 : ℕ → ℕ
u64 n = n % u64_mod

abbrev pub saturating_mul_u32 : ℕ → ℕ → ℕ
saturating_mul_u32 a b = min (a * b) (u32_mod - 1)

abbrev pub saturating_mul_u64 : ℕ → ℕ → ℕ
saturating_mul_u64 a b = min (a * b) (u64_mod - 1)

abbrev pub millis : ℕ → ℕ
millis ms = ms * 1000000

pub data AudioSampleFormat : Type 0 where
  s16_le f32_le : AudioSampleFormat

pub data ReceiverLatencyPreset : Type 0 where
  low_latency balanced stable : ReceiverLatencyPreset

unfoldable pub bytes_per_sample : AudioSampleFormat → ℕ
bytes_per_sample s16_le = 2
bytes_per_sample f32_le = 4

pub record ReceiverStreamConfig : Type 0 where
  pub sample_rate_hz : ℕ
  pub channels : ℕ
  pub sample_format : AudioSampleFormat
  pub frames_per_packet : ℕ

abbrev pub default_stream : ReceiverStreamConfig
default_stream = record {
  sample_rate_hz = 48000;
  channels = 2;
  sample_format = s16_le;
  frames_per_packet = 480;
}

unfoldable pub bytes_per_frame : ReceiverStreamConfig → ℕ
unfolding bytes_per_sample
bytes_per_frame s = s.channels * bytes_per_sample s.sample_format

unfoldable pub packet_bytes_hint : ReceiverStreamConfig → ℕ
unfolding bytes_per_frame
packet_bytes_hint s = s.frames_per_packet * bytes_per_frame s

-- `Duration::from_secs_f64(a as f64 / b as f64)`: the floating-point part is a parameter.
abbrev pub Ratio : Type 0
Ratio = ℕ → ℕ → ℕ

unfoldable pub packet_duration : Ratio → ReceiverStreamConfig → ℕ
packet_duration from_secs_f64 s =
    if s.sample_rate_hz == 0 || s.frames_per_packet == 0
    then 0
    else from_secs_f64 s.frames_per_packet s.sample_rate_hz

pub record ReceiverLatencyProfile : Type 0 where
  pub playback_latency_ms : ℕ
  pub target_buffer_ms : ℕ
  pub max_buffer_ms : ℕ
  pub latency_tolerance_ms : ℕ
  pub late_packet_drop_ms : ℕ
  pub reconnect_grace_period : ℕ

unfoldable pub profile : ReceiverLatencyPreset → ReceiverLatencyProfile
profile low_latency = record {
  playback_latency_ms = 50;
  target_buffer_ms = 30;
  max_buffer_ms = 110;
  latency_tolerance_ms = 20;
  late_packet_drop_ms = 25;
  reconnect_grace_period = millis 750;
}
profile balanced = record {
  playback_latency_ms = 80;
  target_buffer_ms = 70;
  max_buffer_ms = 210;
  latency_tolerance_ms = 30;
  late_packet_drop_ms = 40;
  reconnect_grace_period = millis 1500;
}
profile stable = record {
  playback_latency_ms = 110;
  target_buffer_ms = 120;
  max_buffer_ms = 340;
  latency_tolerance_ms = 45;
  late_packet_drop_ms = 60;
  reconnect_grace_period = millis 2500;
}

-- `saturating_add` on u16.
unfoldable pub expected_output_latency_ms : ReceiverLatencyProfile → ℕ
expected_output_latency_ms p = min (p.playback_latency_ms + p.target_buffer_ms) 65535

-- `u128::div_ceil`, by a divisor that is not 0.
abbrev pub div_ceil : ℕ → ℕ → ℕ
div_ceil a b = (a + (b - 1)) / b

unfoldable pub packet_count_for_duration : ℕ → ℕ → ℕ
packet_count_for_duration target packet_nanos =
    if packet_nanos == 0 then 1 else min (div_ceil (max target 1) packet_nanos) (u64_mod - 1)

unfoldable pub buffer_packet_limits : Ratio → ReceiverLatencyProfile → ReceiverStreamConfig → ℕ × ℕ
unfolding packet_duration packet_count_for_duration
buffer_packet_limits ratio p s = (
  packet_count_for_duration (millis p.target_buffer_ms) (packet_duration ratio s),
  packet_count_for_duration (millis p.max_buffer_ms) (packet_duration ratio s),
)

pub record ReceiverConnectionInfo : Type 0 where
  pub session_id : String
  pub remote_addr : Option String
  pub stream : ReceiverStreamConfig
  pub requested_latency_ms : ℕ

pub record ReceiverAudioPacket : Type 0 where
  pub sequence : ℕ
  pub captured_at_ms : ℕ
  pub captured_at_unix_ms : ℕ
  pub payload : List ℕ

-- Why a packet has no frame count.
pub data PacketError : Type 0 where
  zero_bytes_per_frame : PacketError
  misaligned : ℕ → ℕ → PacketError

unfoldable pub frame_count : ReceiverAudioPacket → ReceiverStreamConfig → Result PacketError ℕ
unfolding bytes_per_frame
frame_count p s =
    let b = bytes_per_frame s in
    if b == 0
    then err zero_bytes_per_frame
    else if length p.payload % b == 0
    then ok (u32 (length p.payload / b))
    else err (misaligned (length p.payload) b)

pub record ReceiverBufferSnapshot : Type 0 where
  pub queued_packets : ℕ
  pub queued_frames : ℕ
  pub queued_audio_ms : ℕ
  pub target_buffer_ms : ℕ
  pub max_buffer_ms : ℕ
  pub start_threshold_packets : ℕ
  pub max_packets : ℕ

-- `checked_div`
abbrev pub checked_div : ℕ → ℕ → Option ℕ
checked_div a b = if b == 0 then none else some (a / b)

abbrev pub or_else {ℓ} : {A : Type ℓ} → Option A → Option A → Option A
or_else none b = b
or_else (some a) b = some a

abbrev pub percent_or_zero : Option ℕ → ℕ
percent_or_zero none = 0
percent_or_zero (some percent) = min percent 100

unfoldable pub fill_percent : ReceiverBufferSnapshot → ℕ
fill_percent s = percent_or_zero (
    or_else (checked_div (saturating_mul_u32 s.queued_audio_ms 100) s.max_buffer_ms)
      (checked_div (saturating_mul_u32 s.queued_packets 100) s.max_packets))
