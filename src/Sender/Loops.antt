-- ===== src/Sender/Loops.antt =====
-- crates/synchrosonic-transport/src/sender.rs: `network_writer_loop` and `sender_reader_loop`, the two
-- threads of a session.
use audio_share.Base.{ℕ, zero, suc, Bool, true, false, List, [], ◌∷◌, String, Result, ok, err}
use audio_share.Protocol.{FrameKind, Frame, TransportError, io, read_frame}
use audio_share.Protocol.Wire.{Source, Writer, unexpected_eof, connection_reset}
use audio_share.Protocol.Messages.{AudioMessage, Codecs, write_message, decode_metadata}
use audio_share.Transport.Texts.{receiver_reported, unexpected_from_receiver}
use audio_share.Fanout.Mirror.{
  FanoutAudioFrame, Wait, arrived, timeout, closed, Flow, running, returned,
}
use audio_share.Sender.Target.{
  InboundControl, heartbeat_ack, disconnected, NetworkControl, heartbeat, stop, shutdown,
  NetworkEvent, audio_sent, heartbeat_sent, stop_sent,
}

-- What a round of the writer meets: the controls that `try_recv` gives, how the wait for a frame
-- ends, and whether the events are still received.
pub record WriterRound : Type 0 where
  pub controls : List NetworkControl
  pub frame : Wait FanoutAudioFrame
  pub is_heard : Bool

-- `events` are those sent, the last one first.
pub record WriterState : Type 0 where
  pub writer : Writer
  pub events : List NetworkEvent

unfoldable pub audio_message : FanoutAudioFrame → AudioMessage
audio_message frame = record {
  sequence = frame.sequence;
  captured_at_ms = frame.captured_at_ms;
  captured_at_unix_ms = frame.captured_at_unix_ms;
}

module _ (codecs : Codecs) (to_string : TransportError → String) where
  -- The event for what was written; the thread ends after an error, and where nobody hears it.
  abbrev pub report :
      (ℕ → NetworkEvent)
      → Bool
      → List NetworkEvent
      → Result TransportError ℕ × Writer
      → Flow WriterState
  report event true events (ok n, w) = running (record { writer = w; events = event n ∷ events })
  report event false events (ok n, w) = returned (record { writer = w; events = events })
  report event heard events (err e, w) =
      returned (record { writer = w; events = NetworkEvent.error (to_string e) ∷ events })

  abbrev finish : Flow WriterState → Flow WriterState
  finish (running s) = returned s
  finish (returned s) = returned s

  unfoldable pub on_network_control : Bool → NetworkControl → WriterState → Flow WriterState
  on_network_control heard (heartbeat nonce) s =
      report heartbeat_sent heard s.events
        (write_message codecs.heartbeat FrameKind.heartbeat (record { nonce = nonce }) [] s.writer)
  on_network_control heard (stop reason) s = finish (
      report stop_sent heard s.events
        (write_message codecs.stop FrameKind.stop (record { reason = reason }) [] s.writer))
  on_network_control heard shutdown s = returned s

  abbrev pub and_then : (WriterState → Flow WriterState) → Flow WriterState → Flow WriterState
  and_then f (running s) = f s
  and_then f (returned s) = returned s

  unfoldable pub on_network_controls : Bool → List NetworkControl → WriterState → Flow WriterState
  unfolding on_network_control
  on_network_controls heard [] s = running s
  on_network_controls heard (c ∷ cs) s =
      and_then (on_network_controls heard cs) (on_network_control heard c s)

  unfoldable pub send_frame : Bool → Wait FanoutAudioFrame → WriterState → Flow WriterState
  unfolding audio_message
  send_frame heard (arrived frame) s =
      report audio_sent heard s.events
        (write_message codecs.audio FrameKind.audio (audio_message frame) frame.payload s.writer)
  send_frame heard timeout s = running s
  send_frame heard closed s = returned s

  unfoldable pub network_writer_loop : List WriterRound → WriterState → Flow WriterState
  unfolding on_network_controls send_frame
  network_writer_loop [] s = running s
  network_writer_loop (round ∷ rounds) s = and_then (network_writer_loop rounds) (
      and_then (send_frame round.is_heard round.frame)
        (on_network_controls round.is_heard round.controls s))

  -- An event of the reader, and whether it goes on after it.
  abbrev pub decoded :
      {A : Type 0} → ℕ → (A → InboundControl) → Result TransportError A → InboundControl × Bool
  decoded wire_bytes f (ok message) = (f message, true)
  decoded wire_bytes f (err e) = (InboundControl.error (to_string e) wire_bytes, false)

  unfoldable pub inbound_of : FrameKind → Frame → InboundControl × Bool
  inbound_of FrameKind.heartbeat_ack frame =
      decoded frame.wire_bytes (λ m. heartbeat_ack m.nonce frame.wire_bytes)
        (decode_metadata codecs.heartbeat frame)
  inbound_of FrameKind.stop frame =
      decoded frame.wire_bytes (λ m. InboundControl.stop m.reason frame.wire_bytes)
        (decode_metadata codecs.stop frame)
  inbound_of FrameKind.error frame =
      decoded frame.wire_bytes
        (λ m. InboundControl.error (receiver_reported m.code m.message) frame.wire_bytes)
        (decode_metadata codecs.error frame)
  inbound_of kind frame =
      (InboundControl.error (unexpected_from_receiver kind) frame.wire_bytes, true)

  unfoldable pub failure_of : TransportError → InboundControl
  failure_of (io unexpected_eof) = disconnected
  failure_of (io connection_reset) = disconnected
  failure_of e = InboundControl.error (to_string e) 0

  abbrev pub inbound : Result TransportError Frame → InboundControl × Bool
  inbound (ok frame) = inbound_of frame.kind frame
  inbound (err e) = (failure_of e, false)

  -- `listens` tells whether the session still receives, by what it was sent before, the last one
  -- first. A frame takes something off the stream, so that more fuel than its length is enough.
  unfoldable pub sender_reader_loop :
      (List InboundControl → Bool) → ℕ → Source → List InboundControl → List InboundControl
  unfolding inbound_of failure_of
  sender_reader_loop listens zero source sent = sent
  sender_reader_loop listens (suc fuel) source sent =
      let (r, rest) = read_frame source in
      let (event, goes_on) = inbound r in
      let later = sender_reader_loop listens fuel rest (event ∷ sent) in
      elim (listens sent) [
        | false ↦ sent
        | true ↦ elim goes_on [ true ↦ later | false ↦ event ∷ sent ]
      ]
