-- ===== src/Transport/Texts.antt =====
-- The texts that the transport builds (crates/synchrosonic-transport/src/receiver.rs, sender.rs).
use Prim.Native.String.{String, ◌++◌}
use audio_share.Protocol.{FrameKind, hello, accept, audio, heartbeat, heartbeat_ack, stop, error}

-- The derived `Debug`.
abbrev pub kind_name : FrameKind → String
kind_name hello = "Hello"
kind_name accept = "Accept"
kind_name audio = "Audio"
kind_name heartbeat = "Heartbeat"
kind_name heartbeat_ack = "HeartbeatAck"
kind_name stop = "Stop"
kind_name error = "Error"

abbrev pub not_accepted : FrameKind → String
not_accepted kind = "receiver does not accept " ++ (kind_name kind ++ " during active streaming")

abbrev pub sender_reported : String → String → String
sender_reported code message = "sender reported " ++ (code ++ (": " ++ message))

abbrev pub receiver_reported : String → String → String
receiver_reported code message = code ++ (": " ++ message)

abbrev pub unexpected_from_receiver : FrameKind → String
unexpected_from_receiver kind = "unexpected " ++ (kind_name kind ++ " frame from receiver")

abbrev pub stop_requested : String → String
stop_requested reason = "receiver requested stop: " ++ reason
