-- ===== src/Stream/Limits.antt =====
-- Lemmas about the sizes in crates/synchrosonic-core/src/receiver.rs.
use audio_share.Base.{ℕ, ◌+◌, ◌*◌, ◌-◌, ◌/◌, max, ◌≤◌, ◌<◌, ◌≡◌, ok, arith}
use audio_share.Stream.{
  Ratio, ReceiverLatencyProfile, ReceiverStreamConfig, ReceiverAudioPacket, packet_duration,
  packet_count_for_duration, buffer_packet_limits, frame_count, u32_mod, millis,
}

div_ceil_bounds : (a d : ℕ) → 0 < a → 0 < d → (1 ≤ (a + (d - 1)) / d) × ((a + (d - 1)) / d ≤ a)
div_ceil_bounds a d ha hd = grind arith

pub packet_count_bounds :
    (t d : ℕ)
    → t < u32_mod
    → (1 ≤ packet_count_for_duration t d) × (packet_count_for_duration t d ≤ u32_mod)
unfolding packet_count_for_duration
packet_count_bounds t d h = ground (arith, div_ceil_bounds (max t 1) d)

-- For a positive duration below 2^32 ns and a positive packet duration, the packets counted
-- cover the duration, and one packet less would not.
pub packet_count_covers :
    (t d : ℕ)
    → 0 < d
    → t < u32_mod
    → 0 < t
    → (t ≤ packet_count_for_duration t d * d) × (packet_count_for_duration t d * d < t + d)
unfolding packet_count_for_duration
packet_count_covers t d hd ht h0 = grind arith

pub frame_count-lt :
    (p : ReceiverAudioPacket) (s : ReceiverStreamConfig) {n : ℕ}
    → frame_count p s ≡ ok n
    → n < u32_mod
unfolding frame_count
frame_count-lt p s h = ground arith

pub buffer_packet_limits_bounds :
    (ratio : Ratio) (p : ReceiverLatencyProfile) (s : ReceiverStreamConfig)
    → millis p.target_buffer_ms < u32_mod
    → millis p.max_buffer_ms < u32_mod
    → (1 ≤ (buffer_packet_limits ratio p s).0)
      × ((buffer_packet_limits ratio p s).0 ≤ u32_mod)
      × (1 ≤ (buffer_packet_limits ratio p s).1)
      × ((buffer_packet_limits ratio p s).1 ≤ u32_mod)
unfolding buffer_packet_limits
buffer_packet_limits_bounds ratio p s ht hm =
    let a = packet_count_bounds (millis p.target_buffer_ms) (packet_duration ratio s) ht in
    let b = packet_count_bounds (millis p.max_buffer_ms) (packet_duration ratio s) hm in
    (a.0, a.1, b.0, b.1)
