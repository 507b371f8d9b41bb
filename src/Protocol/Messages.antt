-- ===== src/Protocol/Messages.antt =====
-- crates/synchrosonic-transport/src/protocol.rs: the messages in the metadata of the frames. The
-- JSON codec (serde_json) is a parameter.
use audio_share.Base.{ℕ, List, [], ◌∷◌, String, Result, ok, err, ◌≡◌}
use audio_share.Stream.{ReceiverStreamConfig}
use audio_share.Session.{StreamCodec, raw_pcm}
use audio_share.Config.{QualityPreset}
use audio_share.Protocol.{FrameKind, Frame, TransportError, bad_metadata, write_frame}
use audio_share.Protocol.Wire.{Writer}

abbrev pub stream_protocol_version : ℕ
stream_protocol_version = 1

pub record HelloMessage : Type 0 where
  pub protocol_version : ℕ
  pub session_id : String
  pub sender_name : String
  pub supported_codecs : List StreamCodec
  pub desired_codec : StreamCodec
  pub stream : ReceiverStreamConfig
  pub quality : QualityPreset
  pub target_latency_ms : ℕ
  pub keepalive_interval_ms : ℕ

-- `HelloMessage::new`
unfoldable pub new_hello :
    String → String → ReceiverStreamConfig → QualityPreset → ℕ → ℕ → HelloMessage
new_hello session_id sender_name stream quality target_latency_ms keepalive_interval_ms = record {
  protocol_version = stream_protocol_version;
  session_id = session_id;
  sender_name = sender_name;
  supported_codecs = raw_pcm ∷ [];
  desired_codec = raw_pcm;
  stream = stream;
  quality = quality;
  target_latency_ms = target_latency_ms;
  keepalive_interval_ms = keepalive_interval_ms;
}

pub record AcceptMessage : Type 0 where
  pub protocol_version : ℕ
  pub session_id : String
  pub receiver_name : String
  pub codec : StreamCodec
  pub stream : ReceiverStreamConfig
  pub keepalive_interval_ms : ℕ
  pub receiver_latency_ms : ℕ

pub record AudioMessage : Type 0 where
  pub sequence : ℕ
  pub captured_at_ms : ℕ
  pub captured_at_unix_ms : ℕ

pub record HeartbeatMessage : Type 0 where
  pub nonce : ℕ

pub record StopMessage : Type 0 where
  pub reason : String

pub record ErrorMessage : Type 0 where
  pub code : String
  pub message : String

-- serde_json at one type of message: `to_vec` and `from_slice`, with the text of the error.
pub record Json (A : Type 0) : Type 0 where
  pub to_vec : A → Result String (List ℕ)
  pub from_slice : List ℕ → Result String A

-- What is encoded is decoded again.
abbrev pub IsFaithful : {A : Type 0} → Json A → Type 0
IsFaithful {A} json =
    (a : A) (bytes : List ℕ) → json.to_vec a ≡ ok bytes → json.from_slice bytes ≡ ok a

pub record Codecs : Type 0 where
  pub hello : Json HelloMessage
  pub accept : Json AcceptMessage
  pub audio : Json AudioMessage
  pub heartbeat : Json HeartbeatMessage
  pub stop : Json StopMessage
  pub error : Json ErrorMessage

module _ {A : Type 0} (json : Json A) where
  unfoldable pub write_metadata :
      FrameKind → Result String (List ℕ) → List ℕ → Writer → Result TransportError ℕ × Writer
  write_metadata kind (ok metadata) payload w = write_frame kind metadata payload w
  write_metadata kind (err e) payload w = (err (bad_metadata e), w)

  unfoldable pub write_message : FrameKind → A → List ℕ → Writer → Result TransportError ℕ × Writer
  unfolding write_metadata
  write_message kind message payload w = write_metadata kind (json.to_vec message) payload w

  abbrev decoded : Result String A → Result TransportError A
  decoded (ok a) = ok a
  decoded (err e) = err (bad_metadata e)

  unfoldable pub decode_metadata : Frame → Result TransportError A
  decode_metadata frame = decoded (json.from_slice frame.metadata)
