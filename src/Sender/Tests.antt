-- ===== src/Sender/Tests.antt =====
-- The sender at concrete targets, over the channel and the codecs of the other tests.
use audio_share.Base.{
  ℕ, zero, suc, ◌+◌, ◌*◌, ◌/◌, ◌≡◌, ◌⊎◌, ◌≤◌, ◌-◌, refl, sym, ap, ◌++◌, length-append, subst, true,
  false, List, [], ◌∷◌, none, some, String, ok, length, arith, ◌&&◌, leb,
}
use audio_share.Stream.{Ratio, default_stream, s16_le}
use audio_share.Config.{QualityPreset, default_transport}
use audio_share.Discovery.Address.{v4, SocketAddr}
use audio_share.Session.{StreamTargetSnapshot, no_session}
use audio_share.Protocol.{FrameKind, TransportError}
use audio_share.Protocol.Wire.{Source, bytes}
use audio_share.Protocol.Laws.{encode}
use audio_share.Protocol.Messages.{IsFaithful, new_hello}
use audio_share.Receiver.State.{disconnected}
use audio_share.Fanout.Tests.{Bounded, channel}
use audio_share.Fanout.Queue
use audio_share.Fanout.Mirror.{FanoutAudioFrame, Wait, arrived, timeout, closed}
use audio_share.Transport.Tests.{codecs, side, conversation, audio_from_slice}
use audio_share.Transport.Session.{session_loop, validate_hello, accept_message}
use audio_share.Sender.Policy.{
  SenderTarget, CaptureSettings, pending_target_snapshot, derive_manager_state,
  branch_queue_capacity, validate_accept, all,
}
use audio_share.Sender.PolicyLaws.{accept_message-validate_accept, branch_queue_capacity_covers}
use audio_share.Sender.Summary.{Describes, derive_manager_state-Describes}
use audio_share.Sender.Target.{heartbeat_ack, audio_sent, ManagedTargetSession, Arrived, tick}
use audio_share.Sender.TargetLaws.{is_ack, is_progress, can_keep_alive, streams, tick-streams}
use audio_share.Sender.Connect.{TargetConnectRequest, Attempt, connect_target}
use audio_share.Sender.ConnectLaws.{IsOutcome, connect_target-IsOutcome}
use audio_share.Sender.Loops.{WriterState, network_writer_loop, audio_message}
use audio_share.Sender.Delivery.{
  IsSendable, given, written_by, rounds, length-encode, network_writer_loop-wire,
  session_loop-network_writer_loop,
}
use audio_share.Sender.Manager.{SenderManager, Backend, Round, add_target, new}
use audio_share.Sender.Targets.{due_pending_targets, state_for}
use audio_share.Sender.Manager.Commands.{process_commands}
use audio_share.Sender.Manager.Attempts.{IsSoundManager}
use audio_share.Sender.Manager.Lifetime.{
  Lives, born, commanded, served, answers, IsAnswer, result_of, Lives-IsSoundManager,
}
use audio_share.Sender.Manager.Run.{serve}

abbrev ratio : Ratio
ratio a zero = 0
ratio a (suc b) = a * 1000000000 / suc b

abbrev to_string : TransportError → String
to_string e = "transport error"

abbrev show : ℕ → String
show n = "0"

abbrev office : SocketAddr
office = record { ip = v4 10 0 0 2; port = 51700 }

abbrev target : SenderTarget
target = record {
  receiver_id = "r";
  receiver_name = "Office";
  endpoint = record { device_id = "r"; address = office };
}

abbrev request : TargetConnectRequest
request = record {
  manager_session_id = "s";
  sender_name = "Desk";
  stream_config = default_stream;
  connect_timeout = 2000000000;
  quality = QualityPreset.balanced;
  target_latency_ms = 150;
  heartbeat_interval_ms = 1000;
  local_device_id = some "d";
}

-- A receiver that answers with Accept.
abbrev attempt : Attempt
attempt = record {
  connected = ok tt;
  set_nodelay = ok tt;
  source = bytes (encode FrameKind.accept (0 ∷ []) []);
  writer = record { written = []; budget = 1000 };
  cloned = ok tt;
  cloned_again = ok tt;
  now = 5000;
  now_unix_ms = 0;
}

connect_target-IsOutcome_example :
    IsOutcome channel codecs ratio to_string show target 1 request attempt
      (connect_target channel codecs ratio to_string show target 1 request attempt)
connect_target-IsOutcome_example =
    connect_target-IsOutcome channel codecs ratio to_string show target 1 request attempt

accept_message-validate_accept_example :
    (validate_hello (new_hello "s" "Desk" default_stream QualityPreset.balanced 150 1000) ≡ ok tt)
    × (validate_accept
          (accept_message side
            (new_hello "s" "Desk" default_stream QualityPreset.balanced 150 1000))
          "s"
          default_stream
        ≡ ok tt)
accept_message-validate_accept_example =
    accept_message-validate_accept side "s" "Desk" default_stream QualityPreset.balanced 150 1000

abbrev first : StreamTargetSnapshot
first = pending_target_snapshot target 1

abbrev second : StreamTargetSnapshot
second = pending_target_snapshot target 2

derive_manager_state-Describes_example :
    Describes (first ∷ second ∷ []) (derive_manager_state (first ∷ second ∷ []))
derive_manager_state-Describes_example = derive_manager_state-Describes (first ∷ second ∷ [])

branch_queue_capacity_covers_example :
    (branch_queue_capacity 10000000 150 ≡ 64)
    ⊎ (150 + 2 * 10 ≤ branch_queue_capacity 10000000 150 * 10)
branch_queue_capacity_covers_example =
    branch_queue_capacity_covers 10000000 150 (omega arith) (omega arith)

abbrev session : ManagedTargetSession (Bounded FanoutAudioFrame)
session = record {
  target = target;
  snapshot = first;
  network_branch = record { queue = Queue.new channel 4; controls = []; joined = false };
  pending_heartbeats = (1, 1000) ∷ [];
  heartbeat_nonce = 1;
  last_heartbeat = 1000;
  started_at = 0;
}

abbrev heard : Arrived
heard = record {
  inbound = heartbeat_ack 1 13 ∷ [];
  events = audio_sent 100 ∷ [];
  writer_runs = true;
}

tick-streams_example : (tick channel to_string heard 2000 500 session).0 ≡ (
    ((streams session && all is_ack heard.inbound) && all is_progress heard.events)
    && can_keep_alive (leb 500 (2000 - session.last_heartbeat)) heard.writer_runs)
tick-streams_example = tick-streams channel to_string heard 2000 500 session

-- An unexpected frame, and the end of the stream.
abbrev answer : Source
answer = bytes (encode FrameKind.hello (0 ∷ []) [])

abbrev first_frame : FanoutAudioFrame
first_frame = record {
  sequence = 1;
  captured_at_ms = 0;
  captured_at_unix_ms = 100;
  payload = 7 ∷ 8 ∷ [];
}

first_frame-IsSendable : IsSendable codecs first_frame
unfolding audio_message
first_frame-IsSendable = record {
  metadata = 1 ∷ 0 ∷ 100 ∷ [];
  encoded = refl;
  metadata_fits = omega arith;
  payload_fits = omega arith;
}

-- The codec decodes what it encodes.
audio-IsFaithful : IsFaithful codecs.audio
audio-IsFaithful m bytes h =
    let e : m.sequence ∷ m.captured_at_ms ∷ m.captured_at_unix_ms ∷ [] ≡ bytes = ground arith in
    subst (λ b. audio_from_slice b ≡ ok m) e refl

abbrev empty_connection : WriterState
empty_connection = record { writer = record { written = []; budget = 1000 }; events = [] }

abbrev sent_bytes : List ℕ
sent_bytes = encode FrameKind.audio (1 ∷ 0 ∷ 100 ∷ []) (7 ∷ 8 ∷ []) ++ []

sent_bytes_fit : length sent_bytes ≤ 1000
sent_bytes_fit =
    let frame = encode FrameKind.audio (1 ∷ 0 ∷ 100 ∷ []) (7 ∷ 8 ∷ []) in
    let a = length-append frame [] in
    let e = length-encode codecs to_string FrameKind.audio (1 ∷ 0 ∷ 100 ∷ []) (7 ∷ 8 ∷ []) in
    omega (arith, a, e)

-- A round without a frame, one with a frame, and the end of the queue.
abbrev waits : List (Wait FanoutAudioFrame)
waits = timeout ∷ arrived first_frame ∷ closed ∷ []

written_sent_bytes :
    bytes sent_bytes
    ≡ bytes (written_by (network_writer_loop codecs to_string (rounds waits) empty_connection))
unfolding first_frame-IsSendable
written_sent_bytes = sym (
    ap bytes (
      network_writer_loop-wire codecs to_string waits (first_frame-IsSendable, tt) empty_connection
        sent_bytes_fit))

session_loop-network_writer_loop_example :
    ((session_loop side (suc (length (bytes sent_bytes))) (conversation (bytes sent_bytes))).0
      ≡ ok tt)
    × ((session_loop side
          (suc (length (bytes sent_bytes)))
          (conversation (bytes sent_bytes))).1.events
        ≡ disconnected "sender disconnected unexpectedly" true ∷ given (first_frame ∷ []) [])
unfolding first_frame-IsSendable
session_loop-network_writer_loop_example =
    session_loop-network_writer_loop side (λ events e. refl) audio-IsFaithful to_string waits
      (first_frame-IsSendable, tt) empty_connection (conversation (bytes sent_bytes)) refl
      sent_bytes_fit written_sent_bytes tt

abbrev backend : Backend ℕ (Unit {0})
backend = record {
  start_capture = λ settings w. (ok tt, suc w);
  try_recv_frame = λ capture w. (ok none, w);
  stop_capture = λ capture w. w;
}

abbrev settings : CaptureSettings
settings = record {
  source_id = none;
  sample_rate_hz = 48000;
  channels = 2;
  sample_format = s16_le;
  buffer_frames = 480;
  target_latency_ms = 50;
  outputs = record { local_monitoring = true; network_streaming = true };
}

abbrev Manager : Type 0
Manager = SenderManager ℕ (Unit {0}) (Bounded FanoutAudioFrame)

abbrev new_manager : Manager
new_manager =
    new channel ratio 0 "test" default_transport settings "Desk" "s" none (some "d") no_session

abbrev round : Round (Bounded FanoutAudioFrame)
round = record {
  commands = add_target target ∷ [];
  results = [];
  mirror_events = [];
  mirror_runs = true;
  arrived = λ id. heard;
  taken = λ branch. (0, 0);
  now = 1000;
  now_unix_ms = 0;
}

abbrev asked : Manager
asked = (process_commands to_string true 1000 (add_target target ∷ []) new_manager).1

-- A target is added and an attempt is spawned for it.
abbrev trying : Manager
trying = serve backend channel to_string round asked

trying-Lives : Lives backend channel codecs ratio to_string show trying
trying-Lives =
    served round asked
      (commanded round new_manager
        (born 0 "test" default_transport settings "Desk" "s" none (some "d") no_session))
      tt

-- The round after it, where the receiver has answered.
abbrev answered : Round (Bounded FanoutAudioFrame)
answered = record round {
  commands = [];
  results =
      result_of
        (connect_target channel codecs ratio to_string show target 1 asked.connect_request attempt)
      ∷ [];
}

trying_spawned : IsAnswer backend channel codecs ratio to_string show trying.spawned (
    result_of
      (connect_target channel codecs ratio to_string show target 1 asked.connect_request attempt))
unfolding serve process_commands new due_pending_targets state_for
trying_spawned =
    answers (record { target = target; attempt_count = 1; request = asked.connect_request }) []
      attempt

Lives-IsSoundManager_example : IsSoundManager (serve backend channel to_string answered trying)
Lives-IsSoundManager_example =
    Lives-IsSoundManager backend channel codecs ratio to_string show
      (served answered trying trying-Lives (trying_spawned, tt))
