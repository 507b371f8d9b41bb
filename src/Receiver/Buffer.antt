-- ===== src/Receiver/Buffer.antt =====
-- crates/synchrosonic-receiver/src/buffer.rs: the jitter buffer between the network and playback.
pub mod Invariant
pub mod Window
mod Tests
use audio_share.Base.{
  ℕ, ◌+◌, ◌-◌, ◌*◌, ◌/◌, min, max, Bool, true, false, ◌&&◌, ◌||◌, List, [], ◌∷◌, ◌++◌, Option, none,
  some, Result, ok, err, leb, ◌==◌, if◌then◌else◌, length, head?,
}
use audio_share.Stream.{
  Ratio, ReceiverLatencyProfile, ReceiverStreamConfig, ReceiverAudioPacket, ReceiverBufferSnapshot,
  PacketError, frame_count, buffer_packet_limits, u32, u64, u32_mod, saturating_mul_u64,
}

pub data BufferPushOutcome : Type 0 where
  accepted : BufferPushOutcome
  dropped_oldest : ℕ → BufferPushOutcome

pub record BufferedPacket : Type 0 where
  pub packet : ReceiverAudioPacket
  pub frames : ℕ

-- The head of `packets` is the front of the `VecDeque`.
pub record ReceiverPacketBuffer : Type 0 where
  pub packets : List BufferedPacket
  pub queued_frames : ℕ
  pub sample_rate_hz : ℕ
  pub target_buffer_ms : ℕ
  pub max_buffer_ms : ℕ
  pub start_threshold_packets : ℕ
  pub max_packets : ℕ

unfoldable pub new : Ratio → ReceiverLatencyProfile → ReceiverStreamConfig → ReceiverPacketBuffer
new ratio profile stream =
    let limits = buffer_packet_limits ratio profile stream in
    record {
      packets = [];
      queued_frames = 0;
      sample_rate_hz = stream.sample_rate_hz;
      target_buffer_ms = profile.target_buffer_ms;
      max_buffer_ms = max profile.max_buffer_ms profile.target_buffer_ms;
      start_threshold_packets = max limits.0 1;
      max_packets = max limits.1 (max limits.0 1);
    }

unfoldable pub clear : ReceiverPacketBuffer → ReceiverPacketBuffer
clear b = record b { packets = []; queued_frames = 0 }

unfoldable pub queued_audio_ms : ReceiverPacketBuffer → ℕ
queued_audio_ms b =
    if b.sample_rate_hz == 0 || b.queued_frames == 0
    then 0
    else u32 (min (saturating_mul_u64 b.queued_frames 1000 / b.sample_rate_hz) (u32_mod - 1))

unfoldable pub is_ready : ReceiverPacketBuffer → Bool
is_ready b =
    leb b.start_threshold_packets (length b.packets)
    && leb (max b.target_buffer_ms 1) (queued_audio_ms b)

-- `pop_front` with the frame count taken off; `saturating_sub` is `-` on ℕ.
unfoldable pub drop_front :
    ReceiverPacketBuffer → BufferedPacket → List BufferedPacket → ReceiverPacketBuffer
drop_front b front rest = record b {
  packets = rest;
  queued_frames = b.queued_frames - front.frames;
}

-- The overflow branch of `push`.
unfoldable pub make_room :
    ReceiverPacketBuffer → List BufferedPacket → ReceiverPacketBuffer × BufferPushOutcome
unfolding drop_front
make_room b [] = (b, accepted)
make_room b (dropped ∷ rest) = (drop_front b dropped rest, dropped_oldest dropped.packet.sequence)

unfoldable pub push_back : ReceiverPacketBuffer → ReceiverAudioPacket → ℕ → ReceiverPacketBuffer
push_back b packet frames = record b {
  packets = b.packets ++ (record { packet = packet; frames = frames } ∷ []);
  queued_frames = u64 (b.queued_frames + frames);
}

unfoldable pub insert :
    ReceiverPacketBuffer → ReceiverAudioPacket → ℕ → ReceiverPacketBuffer × BufferPushOutcome
unfolding make_room push_back
insert b packet frames =
    let (roomy, outcome) =
      if length b.packets == b.max_packets then make_room b b.packets else (b, accepted) in
    (push_back roomy packet frames, outcome)

unfoldable pub push :
    ReceiverAudioPacket
    → ReceiverStreamConfig
    → ReceiverPacketBuffer
    → Result PacketError BufferPushOutcome × ReceiverPacketBuffer
unfolding insert
push packet stream b = elim (frame_count packet stream) [
  | ok frames ↦ let (b', outcome) = insert b packet frames in (ok outcome, b')
  | err e ↦ (err e, b)
]

unfoldable pub pop_from :
    ReceiverPacketBuffer → List BufferedPacket → Option BufferedPacket × ReceiverPacketBuffer
unfolding drop_front
pop_from b [] = (none, b)
pop_from b (front ∷ rest) = (some front, drop_front b front rest)

unfoldable pub pop : ReceiverPacketBuffer → Option BufferedPacket × ReceiverPacketBuffer
unfolding pop_from
pop b = pop_from b b.packets

abbrev pub front : ReceiverPacketBuffer → Option BufferedPacket
front b = head? b.packets

unfoldable pub snapshot : ReceiverPacketBuffer → ReceiverBufferSnapshot
snapshot b = record {
  queued_packets = u32 (length b.packets);
  queued_frames = b.queued_frames;
  queued_audio_ms = queued_audio_ms b;
  target_buffer_ms = b.target_buffer_ms;
  max_buffer_ms = b.max_buffer_ms;
  start_threshold_packets = u32 b.start_threshold_packets;
  max_packets = u32 b.max_packets;
}
