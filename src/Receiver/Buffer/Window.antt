-- ===== src/Receiver/Buffer/Window.antt =====
-- The buffer of crates/synchrosonic-receiver/src/buffer.rs as a sliding window.
use audio_share.Base.{
  newest, newest-newest, ℕ, ◌≤◌, ◌≡◌, ◌≢◌, refl, ap, ◌∙◌, List, [], ◌∷◌, ◌++◌, ok, err, length,
  drop, length-append, arith, Result, Result-cases, inl, inr, Bool-cases, ◌==◌,
}
use mathlib.Core.List.{append_assoc, append-nil}
use audio_share.Stream.{ReceiverStreamConfig, ReceiverAudioPacket, PacketError, frame_count}
use audio_share.Receiver.Buffer.{
  BufferedPacket, ReceiverPacketBuffer, make_room, push_back, insert, push,
}
use audio_share.Receiver.Buffer.Invariant.{IsWellFormed, push-IsWellFormed}

-- The packets that the stream's parameters accept, with their frame counts.
abbrev pub buffered : ReceiverAudioPacket → Result PacketError ℕ → List BufferedPacket
buffered p (ok n) = record { packet = p; frames = n } ∷ []
buffered p (err e) = []

pub accepted_packets : ReceiverStreamConfig → List ReceiverAudioPacket → List BufferedPacket
accepted_packets s [] = []
accepted_packets s (p ∷ ps) = buffered p (frame_count p s) ++ accepted_packets s ps

unfoldable pub push_all :
    ReceiverStreamConfig → List ReceiverAudioPacket → ReceiverPacketBuffer → ReceiverPacketBuffer
push_all s [] b = b
push_all s (p ∷ ps) b = push_all s ps (push p s b).1

push-max_packets :
    (p : ReceiverAudioPacket) (s : ReceiverStreamConfig) (b : ReceiverPacketBuffer)
    → (push p s b).1.max_packets ≡ b.max_packets
unfolding push insert make_room push_back
push-max_packets p s b = ground arith

make_room-newest :
    (b : ReceiverPacketBuffer) (ps qs : List BufferedPacket)
    → b.packets ≡ ps
    → length ps ≡ b.max_packets
    → 1 ≤ b.max_packets
    → (make_room b ps).0.packets ++ qs ≡ drop 1 (ps ++ qs)
unfolding make_room
make_room-newest b [] qs e full h = absurd (omega arith)
make_room-newest b (p ∷ ps) qs e full h = refl

insert-newest :
    (b : ReceiverPacketBuffer) (p : ReceiverAudioPacket) (n : ℕ)
    → IsWellFormed b
    → (insert b p n).0.packets
      ≡ newest b.max_packets (b.packets ++ (record { packet = p; frames = n } ∷ []))
unfolding insert push_back
insert-newest b p n h =
    let q : BufferedPacket = record { packet = p; frames = n } in
    let len = length-append b.packets (q ∷ []) in
    elim (Bool-cases (length b.packets == b.max_packets)) [
      | inl full ↦
          rw (full, make_room-newest b b.packets (q ∷ []) refl (ground arith) (omega arith))
            (ap (λ i. drop i (b.packets ++ (q ∷ []))) {x = 1} (ground (arith, len)))
      | inr other ↦
          let ne : length b.packets ≢ b.max_packets = ground arith in
          rw other
            (ap (λ i. drop i (b.packets ++ (q ∷ []))) {x = 0} (omega (arith, len, h.within, ne)))
    ]

-- A buffer within its limit is its own window.
keep_all :
    (b : ReceiverPacketBuffer) → IsWellFormed b → b.packets ≡ newest b.max_packets (b.packets ++ [])
keep_all b h = rw append-nil (ap (λ i. drop i b.packets) {x = 0} (omega arith))

push-newest :
    (p : ReceiverAudioPacket) (s : ReceiverStreamConfig) (b : ReceiverPacketBuffer)
    → IsWellFormed b
    → (push p s b).1.packets ≡ newest b.max_packets (b.packets ++ buffered p (frame_count p s))
unfolding push
push-newest p s b h = elim (Result-cases (frame_count p s)) [
  | inl (n, e) ↦ rw (e, push) (insert-newest b p n h)
  | inr (x, e) ↦ rw (e, push) (keep_all b h)
]

-- From a well-formed buffer, pushing packets leaves exactly the newest `max_packets` of the old
-- packets followed by the accepted ones, in order; packets whose payload does not fit the
-- stream's format are left out.
pub push_all-newest :
    (s : ReceiverStreamConfig) (ps : List ReceiverAudioPacket) (b : ReceiverPacketBuffer)
    → IsWellFormed b
    → (push_all s ps b).packets ≡ newest b.max_packets (b.packets ++ accepted_packets s ps)
unfolding push_all accepted_packets
push_all-newest s [] b h = keep_all b h
push_all-newest s (p ∷ ps) b h =
    let q = buffered p (frame_count p s) in
    let r = accepted_packets s ps in
    push_all-newest s ps (push p s b).1 (push-IsWellFormed p s b h)
    ∙ ap (λ n. newest n ((push p s b).1.packets ++ r)) (push-max_packets p s b)
    ∙ ap (λ l. newest b.max_packets (l ++ r)) (push-newest p s b h)
    ∙ newest-newest b.max_packets (b.packets ++ q) r
    ∙ ap (newest b.max_packets) (append_assoc b.packets q r)
