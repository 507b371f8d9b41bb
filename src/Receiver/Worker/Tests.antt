-- ===== src/Receiver/Worker/Tests.antt =====
-- The worker at concrete commands: a clock that moves 10 ms at each reading, and a playback engine
-- that takes everything.
use audio_share.Base.{
  ℕ, zero, suc, ◌+◌, ◌*◌, ◌/◌, ◌≡◌, refl, List, [], ◌∷◌, none, some, ok, true, arith,
}
use audio_share.Stream.{
  Ratio, ReceiverStreamConfig, ReceiverAudioPacket, ReceiverConnectionInfo, low_latency, s16_le,
  millis, u64, profile,
}
use audio_share.Receiver.Buffer
use audio_share.Receiver.Buffer.{ReceiverPacketBuffer, BufferedPacket}
use audio_share.Receiver.State.{
  Environment, ReceiverConfig, buffering, from_config, from_profile, no_metrics, connected,
  audio_packet, write_deadline,
}
use audio_share.Receiver.Worker.{Worker}
use audio_share.Receiver.Worker.Playout.{
  Flow, stopped, again, playout_step, playout, signed_instant_delta_ms, at_deadline, on_due,
  on_written, after_write,
}
use audio_share.Receiver.Worker.Run.{
  Received, transport, set_playback_target, timeout, shutdown, new, run,
}
use audio_share.Receiver.Worker.Invariant.{IsConsistent}
use audio_share.Receiver.Worker.Timing.{
  Round, Rounds, here, next, queued, playout_step-Round, playout_ends, Rounds-account,
}
use audio_share.Receiver.Worker.RunLaws.{
  new-IsConsistent, run-IsConsistent, IsPublished, new-IsPublished, run-IsPublished,
}

abbrev ratio : Ratio
ratio a zero = 0
ratio a (suc b) = a * 1000000000 / suc b

abbrev env : Environment
env = record {
  World = ℕ;
  Sink = Unit {0};
  ratio = ratio;
  now = λ t. (t, t + millis 10);
  start_stream = λ request t. (ok tt, t);
  write = λ sink payload t. (ok tt, t);
  stop = λ sink t. (ok tt, t);
}

abbrev config : ReceiverConfig
config = record {
  enabled = true;
  start_on_launch = true;
  advertised_name = "Office";
  bind_host = "0.0.0.0";
  listen_port = 51700;
  playback_target_id = none;
  latency_preset = low_latency;
}

-- A packet is 40 ms.
abbrev stream : ReceiverStreamConfig
stream = record {
  sample_rate_hz = 100;
  channels = 1;
  sample_format = s16_le;
  frames_per_packet = 4;
}

abbrev connection : ReceiverConnectionInfo
connection = record {
  session_id = "session";
  remote_addr = none;
  stream = stream;
  requested_latency_ms = 150;
}

abbrev packet : ℕ → ReceiverAudioPacket
packet n = record {
  sequence = n;
  captured_at_ms = 40 * n;
  captured_at_unix_ms = 40 * n;
  payload = 1 ∷ 2 ∷ 3 ∷ 4 ∷ 5 ∷ 6 ∷ 7 ∷ 8 ∷ [];
}

abbrev commands : List Received
commands =
    transport (connected connection)
    ∷ transport (audio_packet (packet 0))
    ∷ timeout
    ∷ set_playback_target (some "speaker")
    ∷ shutdown
    ∷ []

abbrev fresh : Worker env
fresh = new env config (from_config ratio config) 0

run-IsConsistent_example : IsConsistent env (run env commands fresh)
run-IsConsistent_example =
    run-IsConsistent env commands fresh (new-IsConsistent env config (from_config ratio config) 0)

run-IsPublished_example : IsPublished env (run env commands fresh)
run-IsPublished_example =
    run-IsPublished env commands fresh (new-IsPublished env config (from_config ratio config) 0)

-- A worker that has buffered a packet, at the instant `t`; the packet is due at 50 ms.
abbrev waiting : ℕ → Worker env
waiting t = record {
  config = config;
  playback_sink = some tt;
  buffer = record {
    packets = record { packet = packet 0; frames = 4 } ∷ [];
    queued_frames = 4;
    sample_rate_hz = 100;
    target_buffer_ms = 30;
    max_buffer_ms = 110;
    start_threshold_packets = 1;
    max_packets = 3;
  };
  buffer_profile = record {
    playback_latency_ms = 50;
    target_buffer_ms = 30;
    max_buffer_ms = 110;
    latency_tolerance_ms = 20;
    late_packet_drop_ms = 25;
    reconnect_grace_period = millis 750;
  };
  published = from_config ratio config;
  metrics = no_metrics;
  sync = from_profile (profile low_latency);
  sync_clock = some (record { anchor_local_instant = millis 20; anchor_sender_timestamp_ms = 0 });
  connection = some connection;
  state = buffering;
  next_playback_deadline = none;
  last_transport_activity = some (millis 20);
  last_error = none;
  world = t;
}

abbrev worker_of : Flow (Worker env) → Worker env
worker_of (stopped w) = w
worker_of (again w) = w

abbrev due : Worker env
due = waiting (millis 55)

played_one : playout_step env due ≡ again (worker_of (playout_step env due))
unfolding playout_step at_deadline on_due after_write on_written signed_instant_delta_ms
    write_deadline Buffer.pop Buffer.pop_from
played_one = refl

playout_step-Round_example : Round env due (worker_of (playout_step env due))
playout_step-Round_example =
    playout_step-Round env due {v = worker_of (playout_step env due)} played_one

playout_ends_example :
    (v : Worker env) × Rounds env due v × (playout_step env v ≡ stopped (playout env 2 due))
playout_ends_example = playout_ends env 2 due (omega arith)

Rounds-account_example :
    u64 (
      (worker_of (playout_step env due)).metrics.packets_played
      + (worker_of (playout_step env due)).sync.late_packet_drops
      + queued env (worker_of (playout_step env due)))
    ≡ u64 (due.metrics.packets_played + due.sync.late_packet_drops + queued env due)
Rounds-account_example =
    Rounds-account env {w = due} {v = worker_of (playout_step env due)} (next here played_one)

-- 800 ms after the last packet.
