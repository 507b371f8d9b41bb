-- ===== src/Transport/Tests.antt =====
-- Sessions at concrete streams, with a codec that writes a message as numbers.
use audio_share.Base.{ℕ, refl, true, List, [], ◌∷◌, ◌++◌, none, String, Result, ok, err, arith}
use audio_share.Stream.{default_stream, low_latency}
use audio_share.Session.{raw_pcm}
use audio_share.Config.{QualityPreset}
use audio_share.Protocol.{FrameKind}
use audio_share.Protocol.Wire.{Source, bytes, timeout, reset}
use audio_share.Protocol.Laws.{encode}
use audio_share.Protocol.Messages.{HelloMessage, AcceptMessage, AudioMessage, Json, Codecs}
use audio_share.Transport.Session.{
  ReceiverServerSnapshot, ReceiverSide, Conversation, handle_receiver_session, session_loop,
}
use audio_share.Transport.Trace.{IsTrace, handle_receiver_session-IsTrace}
use audio_share.Transport.Progress.{Ends, session_loop-Ends}

-- A codec of a message with one value.
abbrev pub constant : {A : Type 0} → A → Json A
constant a = record { to_vec = λ b. ok (0 ∷ []); from_slice = λ bytes. ok a }

abbrev pub audio_to_vec : AudioMessage → Result String (List ℕ)
audio_to_vec m = ok (m.sequence ∷ m.captured_at_ms ∷ m.captured_at_unix_ms ∷ [])

abbrev pub audio_from_slice : List ℕ → Result String AudioMessage
audio_from_slice (a ∷ b ∷ c ∷ []) =
    ok (record { sequence = a; captured_at_ms = b; captured_at_unix_ms = c })
audio_from_slice _ = err "not an audio message"

abbrev pub hello : HelloMessage
hello = record {
  protocol_version = 1;
  session_id = "s";
  sender_name = "Desk";
  supported_codecs = raw_pcm ∷ [];
  desired_codec = raw_pcm;
  stream = default_stream;
  quality = QualityPreset.balanced;
  target_latency_ms = 150;
  keepalive_interval_ms = 1000;
}

abbrev pub accept : AcceptMessage
accept = record {
  protocol_version = 1;
  session_id = "s-r-0";
  receiver_name = "Office";
  codec = raw_pcm;
  stream = default_stream;
  keepalive_interval_ms = 1000;
  receiver_latency_ms = 80;
}

abbrev pub codecs : Codecs
codecs = record {
  hello = constant hello;
  accept = constant accept;
  audio = record { to_vec = audio_to_vec; from_slice = audio_from_slice };
  heartbeat = constant (record { nonce = 1 });
  stop = constant (record { reason = "done" });
  error = constant (record { code = "c"; message = "m" });
}

abbrev pub side : ReceiverSide
side = record {
  codecs = codecs;
  receiver_name = "Office";
  latency_preset = low_latency;
  heartbeat_interval_ms = 1000;
  options = ok tt;
  on_event = λ events event. ok tt;
  to_string = λ e. "transport error";
}

abbrev pub listening : ReceiverServerSnapshot
listening = record {
  active = true;
  bind_addr = "0.0.0.0:51700";
  session_id = none;
  connected_peer = none;
  last_error = none;
}

abbrev pub conversation : Source → Conversation
conversation source = record {
  source = source;
  writer = record { written = []; budget = 1000 };
  events = [];
  snapshot = listening;
  last_sequence = none;
  stops = [];
}

-- A Hello, two packets, a pause and a Stop.
abbrev stream : Source
stream =
    bytes (
      encode FrameKind.hello (0 ∷ []) []
      ++ (encode FrameKind.audio (1 ∷ 0 ∷ 0 ∷ []) (9 ∷ [])
          ++ encode FrameKind.audio (2 ∷ 10 ∷ 10 ∷ []) (8 ∷ [])))
    ++ (timeout ∷ bytes (encode FrameKind.stop (0 ∷ []) []))

handle_receiver_session-IsTrace_example :
    IsTrace (handle_receiver_session side "10.0.0.2:4000" (conversation stream)).1.events
handle_receiver_session-IsTrace_example =
    handle_receiver_session-IsTrace side "10.0.0.2:4000" (conversation stream) refl

session_loop-Ends_example :
    Ends side
      (conversation (timeout ∷ timeout ∷ reset ∷ []))
      (session_loop side 4 (conversation (timeout ∷ timeout ∷ reset ∷ [])))
session_loop-Ends_example =
    session_loop-Ends side 4 (conversation (timeout ∷ timeout ∷ reset ∷ [])) (omega arith)
