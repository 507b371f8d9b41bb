-- ===== src/Sender/Delivery.antt =====
-- Lemmas about both ends of a session: `network_writer_loop` of
-- crates/synchrosonic-transport/src/sender.rs and `handle_receiver_session` of
-- crates/synchrosonic-transport/src/receiver.rs.
use audio_share.Base.{
  ℕ, zero, suc, ◌+◌, ◌-◌, ◌≤◌, ◌<◌, ◌≡◌, refl, sym, ap, ◌∙◌, Bool, true, false, All, List, [], ◌∷◌,
  ◌++◌, String, ok, length, length-append, arith, some,
}
use mathlib.Core.List.{append_assoc, append-nil, map-append}
use audio_share.Protocol.{FrameKind, TransportError, max_metadata_bytes, max_payload_bytes}
use audio_share.Protocol.Wire.{Source, Writer, bytes}
use audio_share.Protocol.Laws.{encode, write_frame-ok, read_frame-encode}
use audio_share.Protocol.{header}
use audio_share.Protocol.Header.{length-header}
use audio_share.Protocol.Shrinks.{read_frame_end}
use audio_share.Protocol.Messages.{
  Codecs, IsFaithful, write_message, write_metadata, decode_metadata,
}
use audio_share.Stream.{ReceiverAudioPacket}
use audio_share.Receiver.State.{ReceiverTransportEvent, audio_packet, disconnected}
use audio_share.Transport.Session.{
  ReceiverSide, Conversation, proceed, leave, emit, note_sequence, packet_of, on_frame, on_failure,
  on_disconnect, read_turn, turn_by, turn, session_loop,
}
use audio_share.Fanout.Mirror.{
  FanoutAudioFrame, Wait, arrived, timeout, closed, Flow, running, returned,
}
use audio_share.Sender.Target.{audio_sent}
use audio_share.Sender.Loops.{
  WriterRound, WriterState, audio_message, network_writer_loop, on_network_controls, send_frame,
}

-- A frame that the codec encodes within the limits, with its metadata.
pub record IsSendable (codecs : Codecs) (f : FanoutAudioFrame) : Type 0 where
  pub metadata : List ℕ
  pub encoded : codecs.audio.to_vec (audio_message f) ≡ ok metadata
  pub metadata_fits : length metadata ≤ max_metadata_bytes
  pub payload_fits : length f.payload ≤ max_payload_bytes

abbrev pub AreSendable : Codecs → List FanoutAudioFrame → Type 0
AreSendable codecs [] = Unit
AreSendable codecs (f ∷ fs) = IsSendable codecs f × AreSendable codecs fs

abbrev pub packet : FanoutAudioFrame → ReceiverAudioPacket
packet f = record {
  sequence = f.sequence;
  captured_at_ms = f.captured_at_ms;
  captured_at_unix_ms = f.captured_at_unix_ms;
  payload = f.payload;
}

-- The bytes of the frames on the wire.
abbrev pub wire : (codecs : Codecs) (fs : List FanoutAudioFrame) → AreSendable codecs fs → List ℕ
wire codecs [] s = []
wire codecs (f ∷ fs) (s, ss) = encode FrameKind.audio s.metadata f.payload ++ wire codecs fs ss

-- Rounds of the writer with no control, which wait for a frame as told; its events are received.
abbrev pub rounds : List (Wait FanoutAudioFrame) → List WriterRound
rounds [] = []
rounds (wait ∷ waits) = record { controls = []; frame = wait; is_heard = true } ∷ rounds waits

-- The frames that arrive before the queue is closed.
abbrev pub frames_of : List (Wait FanoutAudioFrame) → List FanoutAudioFrame
frames_of [] = []
frames_of (arrived f ∷ waits) = f ∷ frames_of waits
frames_of (timeout ∷ waits) = frames_of waits
frames_of (closed ∷ waits) = []

-- What a writer has written, whether it runs on or not.
abbrev pub written_by : Flow WriterState → List ℕ
written_by (running s) = s.writer.written
written_by (returned s) = s.writer.written

module _ (codecs : Codecs) (to_string : TransportError → String) where
  write_message-ok :
      (f : FanoutAudioFrame) (s : IsSendable codecs f) (w : Writer)
      → 13 + length s.metadata + length f.payload ≤ w.budget
      → write_message codecs.audio FrameKind.audio (audio_message f) f.payload w ≡ (
        ok (13 + length s.metadata + length f.payload),
        record {
          written = w.written ++ encode FrameKind.audio s.metadata f.payload;
          budget = w.budget - (13 + length s.metadata + length f.payload);
        },
      )
  unfolding write_message write_metadata
  write_message-ok f s w h =
      let e = s.encoded in
      rw e (write_frame-ok FrameKind.audio s.metadata f.payload w s.metadata_fits s.payload_fits h)

  pub length-encode :
      (k : FrameKind) (m p : List ℕ) → length (encode k m p) ≡ 13 + length m + length p
  length-encode k m p =
      let h = length-header k (length m) (length p) in
      let e = length-append (header k (length m) (length p)) (m ++ p) in
      let g = length-append m p in omega (arith, h, e, g)

  -- A connection that takes all the bytes gets the frames in order.
  pub network_writer_loop-wire :
      (waits : List (Wait FanoutAudioFrame)) (ss : AreSendable codecs (frames_of waits))
      (s : WriterState)
      → length (wire codecs (frames_of waits) ss) ≤ s.writer.budget
      → written_by (network_writer_loop codecs to_string (rounds waits) s)
        ≡ s.writer.written ++ wire codecs (frames_of waits) ss
  unfolding network_writer_loop on_network_controls send_frame
  network_writer_loop-wire [] ss s h = sym (append-nil s.writer.written)
  network_writer_loop-wire (timeout ∷ waits) ss s h = network_writer_loop-wire waits ss s h
  network_writer_loop-wire (closed ∷ waits) ss s h = sym (append-nil s.writer.written)
  network_writer_loop-wire (arrived f ∷ waits) (p, ps) s h =
      let rest = wire codecs (frames_of waits) ps in
      let len = length-encode FrameKind.audio p.metadata f.payload in
      let total = length-append (encode FrameKind.audio p.metadata f.payload) rest in
      let n = 13 + length p.metadata + length f.payload in
      let next : WriterState = record {
        writer = record {
          written = s.writer.written ++ encode FrameKind.audio p.metadata f.payload;
          budget = s.writer.budget - n;
        };
        events = audio_sent n ∷ s.events;
      } in
      rw (write_message-ok f p s.writer (omega (arith, len, total, h))) (
        network_writer_loop-wire waits ps next (omega (arith, len, total, h))
        ∙ append_assoc s.writer.written (encode FrameKind.audio p.metadata f.payload) rest)

-- The events that the callback is given for the frames, the last one first.
abbrev pub given : List FanoutAudioFrame → List ReceiverTransportEvent → List ReceiverTransportEvent
given [] events = events
given (f ∷ fs) events = given fs (audio_packet (packet f) ∷ events)

-- The callback takes every event.
abbrev pub IsCalm : ReceiverSide → Type 0
IsCalm side =
    (events : List ReceiverTransportEvent) (e : ReceiverTransportEvent)
    → side.on_event events e ≡ ok tt

-- Nobody asks the session to stop.
abbrev pub Unstopped : List Bool → Type 0
Unstopped stops = All (λ (b : Bool). b ≡ false) stops

abbrev tail : List Bool → List Bool
tail [] = []
tail (b ∷ bs) = bs

tail-Unstopped : (stops : List Bool) → Unstopped stops → Unstopped (tail stops)
tail-Unstopped [] h = tt
tail-Unstopped (b ∷ bs) h = h.1

module _ (side : ReceiverSide) (calm : IsCalm side) (faithful : IsFaithful side.codecs.audio) where
  turn_by-Unstopped :
      (stops : List Bool) (c : Conversation)
      → Unstopped stops
      → c.stops ≡ stops
      → turn_by side stops c ≡ read_turn side (record c { stops = tail stops })
  unfolding turn_by
  turn_by-Unstopped [] c h e = ap (λ (s : List Bool). read_turn side (record c { stops = s })) e
  turn_by-Unstopped (false ∷ stops) c h e = refl
  turn_by-Unstopped (true ∷ stops) c h e = absurd (ground (arith, h.0))

  audio_turn :
      (f : FanoutAudioFrame) (p : IsSendable side.codecs f) (rest : Source) (c : Conversation)
      → c.source ≡ bytes (encode FrameKind.audio p.metadata f.payload) ++ rest
      → Unstopped c.stops
      → turn side c ≡ (
        ok proceed,
        record c {
          source = rest;
          stops = tail c.stops;
          events = audio_packet (packet f) ∷ c.events;
          last_sequence = some f.sequence;
        },
      )
  unfolding turn read_turn on_frame emit note_sequence packet_of decode_metadata audio_message
  audio_turn f p rest c e stops =
      let r =
        read_frame-encode FrameKind.audio p.metadata f.payload rest p.metadata_fits
          p.payload_fits in
      let d = faithful (audio_message f) p.metadata p.encoded in
      let k = calm c.events (audio_packet (packet f)) in
      turn_by-Unstopped c.stops c stops refl ∙ rw (e, r, d, k) refl

  end_turn :
      (c : Conversation)
      → c.source ≡ []
      → Unstopped c.stops
      → turn side c ≡ (
        ok leave,
        record c {
          source = [];
          stops = tail c.stops;
          events = disconnected "sender disconnected unexpectedly" true ∷ c.events;
        },
      )
  unfolding turn read_turn on_failure on_disconnect emit
  end_turn c e stops =
      let k = calm c.events (disconnected "sender disconnected unexpectedly" true) in
      turn_by-Unstopped c.stops c stops refl ∙ rw (e, read_frame_end, k) refl

  bytes-append_both : (xs ys : List ℕ) → bytes (xs ++ ys) ≡ bytes xs ++ bytes ys
  bytes-append_both xs ys = rw map-append refl

  session_loop-given :
      (fs : List FanoutAudioFrame) (ss : AreSendable side.codecs fs) (fuel : ℕ) (c : Conversation)
      → c.source ≡ bytes (wire side.codecs fs ss)
      → Unstopped c.stops
      → length fs < fuel
      → ((session_loop side fuel c).0 ≡ ok tt)
        × ((session_loop side fuel c).1.events
            ≡ disconnected "sender disconnected unexpectedly" true ∷ given fs c.events)
  unfolding session_loop
  session_loop-given fs ss zero c e stops h = absurd (omega arith)
  session_loop-given [] ss (suc fuel) c e stops h = rw (end_turn c e stops) (refl, refl)
  session_loop-given (f ∷ fs) ss (suc fuel) c e stops h =
      let (p, ps) = ss in
      let rest = bytes (wire side.codecs fs ps) in
      let split =
        e
        ∙ bytes-append_both (encode FrameKind.audio p.metadata f.payload)
            (wire side.codecs fs ps) in
      let next : Conversation = record c {
        source = rest;
        stops = tail c.stops;
        events = audio_packet (packet f) ∷ c.events;
        last_sequence = some f.sequence;
      } in
      rw (audio_turn f p rest c split stops)
        (session_loop-given fs ps fuel next refl (tail-Unstopped c.stops stops) (omega arith))

  frames_on_wire :
      (fs : List FanoutAudioFrame) (ss : AreSendable side.codecs fs)
      → length fs ≤ length (wire side.codecs fs ss)
  frames_on_wire [] ss = omega arith
  frames_on_wire (f ∷ fs) (p, ps) =
      let len = length-encode side.codecs side.to_string FrameKind.audio p.metadata f.payload in
      let total =
        length-append (encode FrameKind.audio p.metadata f.payload) (wire side.codecs fs ps) in
      let ih = frames_on_wire fs ps in omega (arith, len, total, ih)

  length-bytes : (xs : List ℕ) → length (bytes xs) ≡ length xs
  length-bytes [] = refl
  length-bytes (x ∷ xs) = ap suc (length-bytes xs)

  -- The writer runs rounds with no control (no heartbeat and no stop), each of which finds a
  -- frame, finds none in time or finds the queue closed; its connection is new and takes all the
  -- bytes, and its events are received. The receiver reads just these bytes, with no pause that
  -- runs into the read timeout, and then the end of the stream; its session is not asked to
  -- stop. Each frame's metadata is encoded within the limits, the codec decodes what it encodes,
  -- and the callback takes every event. Then the callback is given every frame that arrived
  -- before the queue was closed as one packet with its sequence number, times and payload, in
  -- order, and then the end of the connection.
  pub session_loop-network_writer_loop :
      (to_string : TransportError → String) (waits : List (Wait FanoutAudioFrame))
      (ss : AreSendable side.codecs (frames_of waits)) (s : WriterState) (c : Conversation)
      → s.writer.written ≡ []
      → length (wire side.codecs (frames_of waits) ss) ≤ s.writer.budget
      → c.source ≡ bytes (written_by (network_writer_loop side.codecs to_string (rounds waits) s))
      → Unstopped c.stops
      → ((session_loop side (suc (length c.source)) c).0 ≡ ok tt)
        × ((session_loop side (suc (length c.source)) c).1.events
            ≡ disconnected "sender disconnected unexpectedly" true
              ∷ given (frames_of waits) c.events)
  session_loop-network_writer_loop to_string waits ss s c empty h source stops =
      let all = wire side.codecs (frames_of waits) ss in
      let w = network_writer_loop-wire side.codecs to_string waits ss s h in
      let at = source ∙ ap bytes (w ∙ ap (λ l. l ++ all) empty) in
      let n = frames_on_wire (frames_of waits) ss in
      let m = ap length at ∙ length-bytes all in
      session_loop-given (frames_of waits) ss (suc (length c.source)) c at stops
        (omega (arith, n, m))
