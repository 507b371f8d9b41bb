-- ===== src/Receiver/Buffer/Tests.antt =====
-- The jitter buffer at concrete packets.
use audio_share.Base.{newest, ℕ, zero, suc, ◌*◌, ◌/◌, ◌≡◌, refl, [], ◌∷◌, ◌++◌, arith}
use audio_share.Stream.{
  Ratio, ReceiverStreamConfig, ReceiverAudioPacket, s16_le, frame_count, bytes_per_frame,
  bytes_per_sample,
}
use audio_share.Receiver.Buffer.{
  ReceiverPacketBuffer, BufferedPacket, push, insert, push_back, make_room, drop_front,
}
use audio_share.Receiver.Buffer.Invariant.{IsWellFormed, push-IsWellFormed}
use audio_share.Receiver.Buffer.Window.{accepted_packets, push_all, push_all-newest}

-- Whole nanoseconds.
abbrev ratio : Ratio
ratio a zero = 0
ratio a (suc b) = a * 1000000000 / suc b

abbrev mono : ReceiverStreamConfig
mono = record { sample_rate_hz = 1000; channels = 1; sample_format = s16_le; frames_per_packet = 1 }

abbrev packet : ℕ → ReceiverAudioPacket
packet n = record {
  sequence = n;
  captured_at_ms = n;
  captured_at_unix_ms = n;
  payload = n ∷ n ∷ [];
}

abbrev queued : ℕ → BufferedPacket
queued n = record { packet = packet n; frames = 1 }

-- Full with two packets.
abbrev full : ReceiverPacketBuffer
full = record {
  packets = queued 1 ∷ queued 2 ∷ [];
  queued_frames = 2;
  sample_rate_hz = 1000;
  target_buffer_ms = 1;
  max_buffer_ms = 2;
  start_threshold_packets = 1;
  max_packets = 2;
}

full-IsWellFormed : IsWellFormed full
full-IsWellFormed = record {
  within = omega arith;
  counted = refl;
  fit = ground arith;
  threshold = omega arith;
  can_start = omega arith;
  limit = omega arith;
}

push-IsWellFormed_example : IsWellFormed (push (packet 3) mono full).1
push-IsWellFormed_example = push-IsWellFormed (packet 3) mono full full-IsWellFormed

push_all-newest_example :
    (push_all mono (packet 3 ∷ packet 4 ∷ packet 5 ∷ []) full).packets
    ≡ newest 2 (full.packets ++ accepted_packets mono (packet 3 ∷ packet 4 ∷ packet 5 ∷ []))
push_all-newest_example =
    push_all-newest mono (packet 3 ∷ packet 4 ∷ packet 5 ∷ []) full full-IsWellFormed

-- The last two of five packets stay.
last_two :
    (push_all mono (packet 3 ∷ packet 4 ∷ packet 5 ∷ []) full).packets ≡ queued 4 ∷ queued 5 ∷ []
unfolding push_all push insert push_back make_room drop_front frame_count bytes_per_frame
    bytes_per_sample
last_two = refl
