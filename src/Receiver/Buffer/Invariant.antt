-- ===== src/Receiver/Buffer/Invariant.antt =====
-- The invariant of the buffer in crates/synchrosonic-receiver/src/buffer.rs, and its lemmas.
use audio_share.Base.{
  ℕ, ◌+◌, ◌-◌, ◌*◌, ◌≤◌, ◌<◌, ◌≡◌, refl, List, [], ◌∷◌, ◌++◌, length, length-append, arith,
  Result-cases, inl, inr, All, All-append, Bool-cases, ◌==◌,
}
use audio_share.Stream.{
  Ratio, ReceiverLatencyProfile, ReceiverStreamConfig, ReceiverAudioPacket, frame_count, u32_mod,
  millis,
}
use audio_share.Stream.Limits.{frame_count-lt, buffer_packet_limits_bounds}
use audio_share.Receiver.Buffer.{
  BufferedPacket, ReceiverPacketBuffer, new, clear, make_room, push_back, insert, push, pop,
  pop_from,
}

abbrev pub total_frames : List BufferedPacket → ℕ
total_frames [] = 0
total_frames (p ∷ ps) = p.frames + total_frames ps

abbrev pub FramesFit : List BufferedPacket → Type 0
FramesFit = All (λ (p : BufferedPacket). p.frames < u32_mod)

pub record IsWellFormed (b : ReceiverPacketBuffer) : Type 0 where
  pub within : length b.packets ≤ b.max_packets
  pub counted : b.queued_frames ≡ total_frames b.packets
  pub fit : FramesFit b.packets
  pub threshold : b.start_threshold_packets ≤ b.max_packets
  pub can_start : 1 ≤ b.start_threshold_packets
  pub limit : b.max_packets ≤ u32_mod

pub total_frames-append :
    (ps qs : List BufferedPacket) → total_frames (ps ++ qs) ≡ total_frames ps + total_frames qs
total_frames-append [] qs = omega arith
total_frames-append (p ∷ ps) qs = omega (arith, total_frames-append ps qs)

-- The u64 frame counter cannot wrap.
pub total_frames-le :
    (ps : List BufferedPacket) → FramesFit ps → total_frames ps ≤ length ps * (u32_mod - 1)
total_frames-le [] h = omega arith
total_frames-le (p ∷ ps) h = omega (arith, total_frames-le ps h.1)

-- A new buffer is well-formed when the profile's durations are below 2^32 ns.
pub new-IsWellFormed :
    (ratio : Ratio) (profile : ReceiverLatencyProfile) (stream : ReceiverStreamConfig)
    → millis profile.target_buffer_ms < u32_mod
    → millis profile.max_buffer_ms < u32_mod
    → IsWellFormed (new ratio profile stream)
unfolding new
new-IsWellFormed ratio profile stream ht hm =
    ground (arith, buffer_packet_limits_bounds ratio profile stream ht hm)

pub clear-IsWellFormed : (b : ReceiverPacketBuffer) → IsWellFormed b → IsWellFormed (clear b)
unfolding clear
clear-IsWellFormed b h = ground arith

pop_from-IsWellFormed :
    (b : ReceiverPacketBuffer) (ps : List BufferedPacket)
    → b.packets ≡ ps
    → IsWellFormed b
    → IsWellFormed (pop_from b ps).1
unfolding pop_from
pop_from-IsWellFormed b [] e h = h
pop_from-IsWellFormed b (p ∷ ps) e h = ground arith

pub pop-IsWellFormed : (b : ReceiverPacketBuffer) → IsWellFormed b → IsWellFormed (pop b).1
unfolding pop
pop-IsWellFormed b h = pop_from-IsWellFormed b b.packets refl h

-- The overflow branch runs on a full buffer, and leaves room for one packet.
make_room-IsWellFormed :
    (b : ReceiverPacketBuffer) (ps : List BufferedPacket)
    → b.packets ≡ ps
    → length ps ≡ b.max_packets
    → IsWellFormed b
    → IsWellFormed (make_room b ps).0
      × (length ((make_room b ps).0.packets) < (make_room b ps).0.max_packets)
unfolding make_room
make_room-IsWellFormed b [] e full h = absurd (omega arith)
make_room-IsWellFormed b (p ∷ ps) e full h = (ground arith, ground arith)

push_back-IsWellFormed :
    (b : ReceiverPacketBuffer) (packet : ReceiverAudioPacket) (frames : ℕ)
    → IsWellFormed b
    → length b.packets < b.max_packets
    → frames < u32_mod
    → IsWellFormed (push_back b packet frames)
unfolding push_back
push_back-IsWellFormed b packet frames h room small =
    let p : BufferedPacket = record { packet = packet; frames = frames } in
    let n = length-append b.packets (p ∷ []) in
    let t = total_frames-append b.packets (p ∷ []) in
    let le = total_frames-le b.packets h.fit in
    record {
      within = omega (arith, n);
      counted = omega (arith, t, le);
      fit = All-append _ b.packets (p ∷ []) h.fit (small, tt);
      threshold = h.threshold;
      can_start = h.can_start;
      limit = h.limit;
    }

insert-IsWellFormed :
    (b : ReceiverPacketBuffer) (packet : ReceiverAudioPacket) (frames : ℕ)
    → IsWellFormed b
    → frames < u32_mod
    → IsWellFormed (insert b packet frames).0
unfolding insert
insert-IsWellFormed b packet frames h small =
    elim (Bool-cases (length b.packets == b.max_packets)) [
      | inl full ↦
          let (w, room) = make_room-IsWellFormed b b.packets refl (ground arith) h in
          rw full (push_back-IsWellFormed _ packet frames w room small)
      | inr other ↦ rw other (push_back-IsWellFormed b packet frames h (ground arith) small)
    ]

-- Pushing any packet keeps a well-formed buffer well-formed: at most `max_packets` are queued,
-- `queued_frames` is the sum of their frames, and the start threshold can be reached.
pub push-IsWellFormed :
    (packet : ReceiverAudioPacket) (stream : ReceiverStreamConfig) (b : ReceiverPacketBuffer)
    → IsWellFormed b
    → IsWellFormed (push packet stream b).1
unfolding push
push-IsWellFormed packet stream b h = elim (Result-cases (frame_count packet stream)) [
  | inl (n, e) ↦ rw (e, push) (insert-IsWellFormed b packet n h (frame_count-lt packet stream e))
  | inr (x, e) ↦ rw (e, push) h
]
