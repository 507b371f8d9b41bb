-- ===== src/Sender/PolicyLaws.antt =====
-- Lemmas about the decisions in crates/synchrosonic-transport/src/sender.rs: the sizes of queues and
-- the negotiation with a receiver.
use audio_share.Base.{
  ℕ, ◌+◌, ◌*◌, ◌-◌, ◌/◌, ◌≤◌, ◌<◌, min, max, dec_le, ◌≡◌, ◌⊎◌, ◌↔◌, inl, inr, refl, sym, subst,
  true, String, ok, arith, =s=_iff, =s=_refl, ==_refl,
}
use audio_share.Config.{QualityPreset}
use audio_share.Stream.{ReceiverStreamConfig, AudioSampleFormat, s16_le, f32_le, u64}
use audio_share.Protocol.Messages.{AcceptMessage, new_hello, stream_protocol_version}
use audio_share.Transport.Session.{ReceiverSide, accept_message, validate_hello}
use audio_share.Sender.Policy.{
  same_format, same_stream, validate_accept, branch_queue_capacity, div_ceil,
}

div_ceil_covers : (a d : ℕ) → 0 < d → a ≤ (a + (d - 1)) / d * d
div_ceil_covers a d h = grind arith

pub branch_queue_capacity_bounds :
    (d ms : ℕ) → (4 ≤ branch_queue_capacity d ms) × (branch_queue_capacity d ms ≤ 64)
unfolding branch_queue_capacity
branch_queue_capacity_bounds d ms = (omega arith, omega arith)

same_format_eq : (a b : AudioSampleFormat) → same_format a b ≡ true → a ≡ b
unfolding same_format
same_format_eq s16_le s16_le h = refl
same_format_eq f32_le f32_le h = refl
same_format_eq s16_le f32_le h = absurd (ground arith)
same_format_eq f32_le s16_le h = absurd (ground arith)

same_format_refl : (a : AudioSampleFormat) → same_format a a ≡ true
unfolding same_format
same_format_refl s16_le = refl
same_format_refl f32_le = refl

same_stream_eq : (a b : ReceiverStreamConfig) → same_stream a b ≡ true → a ≡ b
unfolding same_stream
same_stream_eq a b h =
    let e1 : a.sample_rate_hz ≡ b.sample_rate_hz = ground arith in
    let e2 : a.channels ≡ b.channels = ground arith in
    let e3 : a.sample_format ≡ b.sample_format =
      same_format_eq a.sample_format b.sample_format (ground arith) in
    let e4 : a.frames_per_packet ≡ b.frames_per_packet = ground arith in cc (e1, e2, e3, e4)

same_stream_refl : (a : ReceiverStreamConfig) → same_stream a a ≡ true
unfolding same_stream
same_stream_refl a = ground (
  arith,
  ==_refl a.sample_rate_hz,
  ==_refl a.channels,
  same_format_refl a.sample_format,
  ==_refl a.frames_per_packet,
)

-- An answer is accepted exactly where it has the protocol's version, the session's id and the
-- stream that was asked for.
pub validate_accept_iff :
    (a : AcceptMessage) (session_id : String) (stream : ReceiverStreamConfig)
    → (validate_accept a session_id stream ≡ ok tt) ↔ (
        (a.protocol_version ≡ stream_protocol_version)
        × (a.session_id ≡ session_id)
        × (a.stream ≡ stream))
unfolding validate_accept
validate_accept_iff a session_id stream = (
  λ h. (
    ground arith,
    (=s=_iff a.session_id session_id).0 (ground arith),
    same_stream_eq a.stream stream (ground arith),
  ),
  λ (v, i, s). rw (v, i, s) (ground (arith, =s=_refl session_id, same_stream_refl stream)),
)

-- The Hello that the sender builds passes the receiver's check, and what the receiver answers to
-- it passes the sender's.
pub accept_message-validate_accept :
    (side : ReceiverSide) (session_id sender_name : String) (stream : ReceiverStreamConfig)
    (quality : QualityPreset) (latency keepalive : ℕ)
    → let hello = new_hello session_id sender_name stream quality latency keepalive in
      (validate_hello hello ≡ ok tt)
      × (validate_accept (accept_message side hello) session_id stream ≡ ok tt)
unfolding new_hello validate_hello accept_message
accept_message-validate_accept side session_id sender_name stream quality latency keepalive =
    (refl, (validate_accept_iff _ session_id stream).1 (refl, refl, refl))

mul_add : (a b k : ℕ) → (a + b) * k ≡ a * k + b * k
mul_add a b k = grind arith

mul_mono : (a b k : ℕ) → a ≤ b → a * k ≤ b * k
mul_mono a b k h =
    let e : b ≡ a + (b - a) = omega arith in
    let m = mul_add a (b - a) k in subst (λ c. a * k ≤ c * k) (sym e) (rw m (omega arith))

clamped_covers :
    (t p q : ℕ)
    → t ≤ q * p
    → (min (max (q + 2) 4) 64 ≡ 64) ⊎ (t + 2 * p ≤ min (max (q + 2) 4) 64 * p)
clamped_covers t p q h = elim (dec_le 62 q) [
  | yes g ↦ inl (omega arith)
  | no g ↦ inr (
      let m = mul_mono (q + 2) (min (max (q + 2) 4) 64) p (omega arith) in
      let e = mul_add q 2 p in omega (arith, m, e))
]

div_ceil_small :
    (t p : ℕ) → 0 < p → t < 65536 → p < 4294967297 → div_ceil t (u64 p) ≡ (t + (p - 1)) / p
unfolding div_ceil
div_ceil_small t p h0 ht hp = ground arith

-- For a packet duration below 2^32 ms and a latency of 16 bits, the queue holds 64 packets, or
-- else enough for the latency, at least 10 ms, and two packets more.
pub branch_queue_capacity_covers :
    (d ms : ℕ)
    → d < 4294967296000000
    → ms < 65536
    → (branch_queue_capacity d ms ≡ 64)
      ⊎ (max ms 10 + 2 * max (d / 1000000) 1 ≤ branch_queue_capacity d ms * max (d / 1000000) 1)
unfolding branch_queue_capacity
branch_queue_capacity_covers d ms hd h =
    let p = max (d / 1000000) 1 in
    let t = max ms 10 in
    rw (div_ceil_small t p (omega arith) (omega arith) (omega arith))
      (clamped_covers t p ((t + (p - 1)) / p) (div_ceil_covers t p (omega arith)))
