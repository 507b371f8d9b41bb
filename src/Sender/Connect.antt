-- ===== src/Sender/Connect.antt =====
-- crates/synchrosonic-transport/src/sender.rs: `ManagedTargetSession::connect`. What the socket and
-- the receiver do is a parameter of the attempt, and so are the text of an error and that of a
-- number.
use Prim.Native.String.{◌++◌}
use audio_share.Base.{
  ℕ, ◌+◌, Bool, true, false, [], Option, none, some, String, Result, ok, err, ◌=s=◌, if◌then◌else◌,
}
use audio_share.Stream.{Ratio, ReceiverStreamConfig, packet_duration, u64}
use audio_share.Config.{QualityPreset}
use audio_share.Session.{
  StreamTargetSnapshot, StreamTargetHealth, StreamTargetFailureKind, StreamSessionState,
}
use audio_share.Protocol.{FrameKind, TransportError, io, connect, read_frame}
use audio_share.Protocol.Wire.{Source, Writer, IoKind}
use audio_share.Protocol.Messages.{
  HelloMessage, AcceptMessage, Codecs, new_hello, write_message, decode_metadata,
}
use audio_share.Fanout.Channel.{Flume}
use audio_share.Fanout.Queue
use audio_share.Fanout.Mirror.{FanoutAudioFrame}
use audio_share.Sender.Policy.{
  SenderTarget, TargetConnectFailure, connect_failure, classify_connect_error,
  pending_target_snapshot, validate_accept, branch_queue_capacity,
}
use audio_share.Sender.Target.{ManagedTargetSession}

pub record TargetConnectRequest : Type 0 where
  pub manager_session_id : String
  pub sender_name : String
  pub stream_config : ReceiverStreamConfig
  pub connect_timeout : ℕ
  pub quality : QualityPreset
  pub target_latency_ms : ℕ
  pub heartbeat_interval_ms : ℕ
  pub local_device_id : Option String

-- One attempt as the network has it.
pub record Attempt : Type 0 where
  pub connected : Result IoKind (Unit {0})
  pub set_nodelay : Result IoKind (Unit {0})
  pub source : Source
  pub writer : Writer
  pub cloned : Result IoKind (Unit {0})
  pub cloned_again : Result IoKind (Unit {0})
  pub now : ℕ
  pub now_unix_ms : ℕ

abbrev failed_io :
    (IoKind → TransportError) → Result IoKind (Unit {0}) → Result TransportError (Unit {0})
failed_io f (ok u) = ok tt
failed_io f (err e) = err (f e)

infixl 5 ◌>>=◌ ◌>>◌
unfoldable pub ◌>>=◌ :
    {A B : Type 0}
    → Result TargetConnectFailure A
    → (A → Result TargetConnectFailure B)
    → Result TargetConnectFailure B
ok a >>= f = f a
err e >>= f = err e

unfoldable pub ◌>>◌ :
    {A B : Type 0}
    → Result TargetConnectFailure A
    → Result TargetConnectFailure B
    → Result TargetConnectFailure B
unfolding ◌>>=◌
m >> k = m >>= λ _. k

abbrev pub is_accept : FrameKind → Bool
is_accept FrameKind.accept = true
is_accept _ = false

abbrev is_local : Option String → String → Bool
is_local none id = false
is_local (some local_id) id = local_id =s= id

module _ {C : Type 0} (flume : Flume C FanoutAudioFrame) (codecs : Codecs) (ratio : Ratio)
    (to_string : TransportError → String) (show : ℕ → String) where
  -- `map_err`: the failure with the snapshot as it is then.
  unfoldable pub or_fail :
      {A : Type 0}
      → SenderTarget
      → StreamTargetSnapshot
      → (TransportError → StreamTargetFailureKind)
      → Bool
      → Result TransportError A
      → Result TargetConnectFailure A
  or_fail target snapshot kind retryable (ok a) = ok a
  or_fail target snapshot kind retryable (err e) =
      err (connect_failure target snapshot (kind e) (to_string e) retryable)

  unfoldable pub refuse_self :
      SenderTarget
      → StreamTargetSnapshot
      → TargetConnectRequest
      → Result TargetConnectFailure (Unit {0})
  refuse_self target snapshot request =
      if is_local request.local_device_id target.receiver_id
      then err (
          connect_failure target snapshot StreamTargetFailureKind.self_target_blocked
            "self-target connections are blocked" false)
      else ok tt

  unfoldable pub check_kind :
      SenderTarget → StreamTargetSnapshot → FrameKind → Result TargetConnectFailure (Unit {0})
  check_kind target snapshot kind =
      if is_accept kind
      then ok tt
      else err (
          connect_failure target snapshot StreamTargetFailureKind.protocol_mismatch
            "receiver did not respond with Accept" false)

  unfoldable pub session_id_of : SenderTarget → TargetConnectRequest → Attempt → String
  session_id_of target request attempt =
      request.manager_session_id
      ++ ("-" ++ (target.receiver_id ++ ("-" ++ show attempt.now_unix_ms)))

  unfoldable pub hello_of : SenderTarget → TargetConnectRequest → Attempt → HelloMessage
  unfolding new_hello session_id_of
  hello_of target request attempt =
      new_hello (session_id_of target request attempt) request.sender_name request.stream_config
        request.quality request.target_latency_ms request.heartbeat_interval_ms

  abbrev unreachable : TransportError → StreamTargetFailureKind
  unreachable e = StreamTargetFailureKind.unreachable

  abbrev mismatch : TransportError → StreamTargetFailureKind
  mismatch e = StreamTargetFailureKind.protocol_mismatch

  abbrev negotiating : StreamTargetSnapshot → StreamTargetSnapshot
  negotiating snapshot = record snapshot { state = StreamSessionState.negotiating }

  abbrev greeted : ℕ → StreamTargetSnapshot → StreamTargetSnapshot
  greeted n snapshot = record snapshot {
    metrics = record snapshot.metrics { bytes_sent = u64 (snapshot.metrics.bytes_sent + n) };
  }

  abbrev answered : ℕ → StreamTargetSnapshot → StreamTargetSnapshot
  answered n snapshot = record snapshot {
    metrics = record snapshot.metrics {
      bytes_received = u64 (snapshot.metrics.bytes_received + n);
      packets_received = u64 (snapshot.metrics.packets_received + 1);
    };
  }

  abbrev streaming : String → AcceptMessage → StreamTargetSnapshot → StreamTargetSnapshot
  streaming session_id accept snapshot = record snapshot {
    session_id = some session_id;
    codec = some accept.codec;
    stream = some accept.stream;
    state = StreamSessionState.streaming;
    health = StreamTargetHealth.healthy;
    last_error_kind = none;
    last_error = none;
  }

  -- From the Accept frame to the session.
  unfoldable pub activate :
      SenderTarget
      → TargetConnectRequest
      → Attempt
      → StreamTargetSnapshot
      → AcceptMessage
      → Result TargetConnectFailure (ManagedTargetSession C)
  unfolding or_fail
  activate target request attempt snapshot accept =
      let up = streaming (session_id_of target request attempt) accept snapshot in
      let queue =
        Queue.new flume
          (branch_queue_capacity (packet_duration ratio accept.stream) request.target_latency_ms) in
      do
        or_fail target up unreachable true (failed_io io attempt.cloned)
        let buffered = record up { network_buffer = Queue.snapshot flume queue }
        or_fail target buffered unreachable true (failed_io io attempt.cloned_again)
        ok (record {
          target = target;
          snapshot = buffered;
          network_branch = record { queue = queue; controls = []; joined = false };
          pending_heartbeats = [];
          heartbeat_nonce = 0;
          last_heartbeat = attempt.now;
          started_at = attempt.now;
        })

  unfoldable pub connect_target :
      SenderTarget
      → ℕ
      → TargetConnectRequest
      → Attempt
      → Result TargetConnectFailure (ManagedTargetSession C)
  connect_target target attempt_count request attempt =
      let snapshot = pending_target_snapshot target attempt_count in
      let asking = negotiating snapshot in
      let session_id = session_id_of target request attempt in
      do
        refuse_self target snapshot request
        or_fail target snapshot classify_connect_error true (failed_io connect attempt.connected)
        or_fail target snapshot unreachable true (failed_io io attempt.set_nodelay)
        n ←
            or_fail target asking mismatch false
              (write_message codecs.hello FrameKind.hello (hello_of target request attempt) []
                attempt.writer).0
        let asked = greeted n asking
        frame ← or_fail target asked unreachable true (read_frame attempt.source).0
        let told = answered frame.wire_bytes asked
        check_kind target told frame.kind
        accept ← or_fail target told mismatch false (decode_metadata codecs.accept frame)
        or_fail target told mismatch false (validate_accept accept session_id request.stream_config)
        activate target request attempt told accept
