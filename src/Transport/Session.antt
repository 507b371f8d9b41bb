-- ===== src/Transport/Session.antt =====
-- crates/synchrosonic-transport/src/receiver.rs: `handle_receiver_session`, from the first frame to
-- the end of the connection. The socket is a `Source` of arrivals and a `Writer`; the callback
-- `on_event` answers by what it was given before; each round's `try_recv` on the stop channel is an
-- entry of `stops`.
use audio_share.Base.{
  ℕ, zero, suc, min, max, Bool, true, false, not, List, [], ◌∷◌, Option, none, some, String, Result,
  ok, err, any, ◌==◌, if◌then◌else◌, length,
}
use audio_share.Stream.{
  ReceiverAudioPacket, ReceiverLatencyPreset, profile, expected_output_latency_ms,
}
use audio_share.Session.{StreamCodec, raw_pcm}
use audio_share.Receiver.State.{
  ReceiverTransportEvent, connected, audio_packet, keep_alive, disconnected, error,
}
use audio_share.Protocol.{
  FrameKind, Frame, TransportError, io, unexpected_frame, unsupported_version, codec_not_advertised,
  codec_unsupported, receiver_callback, read_frame,
}
use audio_share.Protocol.Wire.{Source, Writer, unexpected_eof, timed_out, connection_reset}
use audio_share.Protocol.Messages.{
  HelloMessage, AcceptMessage, AudioMessage, Json, Codecs, stream_protocol_version, write_message,
  decode_metadata,
}
use audio_share.Transport.Texts.{not_accepted, sender_reported}

pub record ReceiverServerSnapshot : Type 0 where
  pub active : Bool
  pub bind_addr : String
  pub session_id : Option String
  pub connected_peer : Option String
  pub last_error : Option String

-- The callback sees the events that it was given before, the last one first.
pub record ReceiverSide : Type 0 where
  pub codecs : Codecs
  pub receiver_name : String
  pub latency_preset : ReceiverLatencyPreset
  pub heartbeat_interval_ms : ℕ
  -- What setting the socket's options returns.
  pub options : Result TransportError (Unit {0})
  pub on_event : List ReceiverTransportEvent → ReceiverTransportEvent → Result String (Unit {0})
  -- The derived `Display`.
  pub to_string : TransportError → String

-- `events` are those given to the callback, the last one first.
pub record Conversation : Type 0 where
  pub source : Source
  pub writer : Writer
  pub events : List ReceiverTransportEvent
  pub snapshot : ReceiverServerSnapshot
  pub last_sequence : Option ℕ
  pub stops : List Bool

-- What the loop does after a round.
pub data Turn : Type 0 where
  proceed leave : Turn

abbrev pub M : Type 0 → Type 0
M A = Conversation → Result TransportError A × Conversation

abbrev pub continue_with :
    {A B : Type 0}
    → (A → M B)
    → Result TransportError A × Conversation
    → Result TransportError B × Conversation
continue_with f (ok a, c) = f a c
continue_with f (err e, c) = (err e, c)

infixl 5 ◌>>=◌ ◌>>◌
abbrev pub ◌>>=◌ : {A B : Type 0} → M A → (A → M B) → M B
◌>>=◌ m f c = continue_with f (m c)

abbrev pub ◌>>◌ : {A B : Type 0} → M A → M B → M B
◌>>◌ m k c = continue_with (λ _. k) (m c)

abbrev pub lift : {A : Type 0} → Result TransportError A → M A
lift r c = (r, c)

-- A result that is ignored: `let _ = …`.
abbrev pub ignore : {A : Type 0} → M A → M (Unit {0})
ignore m c = let (r, c') = m c in (ok tt, c')

abbrev has_codec : StreamCodec → StreamCodec → Bool
has_codec raw_pcm raw_pcm = true

unfoldable pub validate_hello : HelloMessage → Result TransportError (Unit {0})
validate_hello hello =
    if not (hello.protocol_version == stream_protocol_version)
    then err (unsupported_version hello.protocol_version)
    else if not (any (has_codec hello.desired_codec) hello.supported_codecs)
    then err codec_not_advertised
    else if not (has_codec hello.desired_codec raw_pcm)
    then err codec_unsupported
    else ok tt

module _ (side : ReceiverSide) where
  open side use {codecs, receiver_name, latency_preset, heartbeat_interval_ms, on_event, to_string}

  abbrev called : Result String (Unit {0}) → Result TransportError (Unit {0})
  called (ok u) = ok tt
  called (err e) = err (receiver_callback e)

  -- `(on_event)(event).map_err(…)`
  unfoldable pub emit : ReceiverTransportEvent → M (Unit {0})
  emit event c = (called (on_event c.events event), record c { events = event ∷ c.events })

  unfoldable pub send : {A : Type 0} → Json A → FrameKind → A → M ℕ
  send json kind message c =
      let (r, w) = write_message json kind message [] c.writer in (r, record c { writer = w })

  unfoldable pub send_protocol_error : String → String → M ℕ
  unfolding send
  send_protocol_error code message =
      send codecs.error FrameKind.error (record { code = code; message = message })

  unfoldable pub receive : M Frame
  receive c = let (r, s) = read_frame c.source in (r, record c { source = s })

  unfoldable pub refuse_frame : Frame → String → String → M HelloMessage
  unfolding send_protocol_error
  refuse_frame frame code message = do
    send_protocol_error code message
    lift (err (unexpected_frame frame.kind))

  -- The first frame must be a Hello.
  unfoldable pub first_frame : FrameKind → Frame → M HelloMessage
  unfolding refuse_frame
  first_frame FrameKind.hello frame = lift (decode_metadata codecs.hello frame)
  first_frame _ frame = refuse_frame frame "unexpected-frame" "first frame must be Hello"

  unfoldable pub accept_message : HelloMessage → AcceptMessage
  accept_message hello = record {
    protocol_version = hello.protocol_version;
    session_id = hello.session_id;
    receiver_name = receiver_name;
    codec = hello.desired_codec;
    stream = hello.stream;
    keepalive_interval_ms = min heartbeat_interval_ms (max hello.keepalive_interval_ms 250);
    receiver_latency_ms = expected_output_latency_ms (profile latency_preset);
  }

  unfoldable pub set_session : HelloMessage → String → M (Unit {0})
  set_session hello peer c = (
    ok tt,
    record c {
      snapshot = record c.snapshot {
        session_id = some hello.session_id;
        connected_peer = some peer;
        last_error = none;
      };
    },
  )

  -- The handshake, up to the loop.
  unfoldable pub handshake : String → M (Unit {0})
  unfolding receive first_frame accept_message emit set_session
  handshake peer = do
    lift side.options
    frame ← receive
    hello ← first_frame frame.kind frame
    lift (validate_hello hello)
    send codecs.accept FrameKind.accept (accept_message hello)
    emit (
        connected (record {
          session_id = hello.session_id;
          remote_addr = some peer;
          stream = hello.stream;
          requested_latency_ms = hello.target_latency_ms;
        }))
    set_session hello peer

  unfoldable pub note_sequence : ℕ → M (Unit {0})
  note_sequence n c = (ok tt, record c { last_sequence = some n })

  unfoldable pub packet_of : AudioMessage → List ℕ → ReceiverAudioPacket
  packet_of m payload = record {
    sequence = m.sequence;
    captured_at_ms = m.captured_at_ms;
    captured_at_unix_ms = m.captured_at_unix_ms;
    payload = payload;
  }

  unfoldable pub refuse_turn : FrameKind → M Turn
  unfolding send_protocol_error
  refuse_turn kind = do
    send_protocol_error "unexpected-frame" (not_accepted kind)
    lift (err (unexpected_frame kind))

  -- The `match frame.kind` of the loop.
  unfoldable pub on_frame : FrameKind → Frame → M Turn
  unfolding emit note_sequence packet_of send refuse_turn
  on_frame FrameKind.audio frame = do
    m ← lift (decode_metadata codecs.audio frame)
    note_sequence m.sequence
    emit (audio_packet (packet_of m frame.payload))
    lift (ok proceed)
  on_frame FrameKind.heartbeat frame = do
    m ← lift (decode_metadata codecs.heartbeat frame)
    emit keep_alive
    send codecs.heartbeat FrameKind.heartbeat_ack m
    lift (ok proceed)
  on_frame FrameKind.stop frame = do
    m ← lift (decode_metadata codecs.stop frame)
    emit (disconnected m.reason false)
    lift (ok leave)
  on_frame FrameKind.error frame = do
    m ← lift (decode_metadata codecs.error frame)
    emit (error (sender_reported m.code m.message))
    lift (ok leave)
  on_frame kind frame = refuse_turn kind

  unfoldable pub on_disconnect : M Turn
  unfolding emit
  on_disconnect = do emit (disconnected "sender disconnected unexpectedly" true); lift (ok leave)

  unfoldable pub on_read_failure : TransportError → M Turn
  unfolding emit send_protocol_error
  on_read_failure e = do
    ignore (emit (error (to_string e)))
    ignore (send_protocol_error "read-failure" (to_string e))
    lift (err e)

  -- The error arms of the `match read_frame(…)`.
  unfoldable pub on_failure : TransportError → M Turn
  unfolding on_disconnect on_read_failure
  on_failure (io unexpected_eof) = on_disconnect
  on_failure (io connection_reset) = on_disconnect
  on_failure (io timed_out) = lift (ok proceed)
  on_failure e = on_read_failure e

  abbrev pub on_read : Result TransportError Frame → M Turn
  on_read (ok frame) = on_frame frame.kind frame
  on_read (err e) = on_failure e

  unfoldable pub stop_session : M Turn
  unfolding send
  stop_session = do
    ignore (send codecs.stop FrameKind.stop (record { reason = "receiver transport stopped" }))
    lift (ok leave)

  unfoldable pub read_turn : M Turn
  unfolding on_frame on_failure
  read_turn c = let (r, s) = read_frame c.source in on_read r (record c { source = s })

  -- One round of the loop: `try_recv` on the stop channel, then a frame.
  unfoldable pub turn_by : List Bool → M Turn
  unfolding stop_session read_turn
  turn_by [] c = read_turn c
  turn_by (true ∷ stops) c = stop_session (record c { stops = stops })
  turn_by (false ∷ stops) c = read_turn (record c { stops = stops })

  unfoldable pub turn : M Turn
  unfolding turn_by
  turn c = turn_by c.stops c

  abbrev pub after_turn :
      M (Unit {0})
      → Result TransportError Turn × Conversation
      → Result TransportError (Unit {0}) × Conversation
  after_turn rest (ok proceed, c) = rest c
  after_turn rest (ok leave, c) = (ok tt, c)
  after_turn rest (err e, c) = (err e, c)

  unfoldable pub session_loop : ℕ → M (Unit {0})
  session_loop zero c = (ok tt, c)
  session_loop (suc fuel) c = after_turn (session_loop fuel) (turn c)

  unfoldable pub clear_session : M (Unit {0})
  clear_session c = (
    ok tt,
    record c { snapshot = record c.snapshot { session_id = none; connected_peer = none } },
  )

  -- A round that goes on takes something off the source, or finds it at its end.
  unfoldable pub handle_receiver_session : String → M (Unit {0})
  unfolding handshake clear_session
  handle_receiver_session peer = do
    handshake peer
    (λ (c : Conversation). session_loop (suc (length c.source)) c)
    clear_session
