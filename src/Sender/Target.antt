-- ===== src/Sender/Target.antt =====
-- crates/synchrosonic-transport/src/sender.rs: `ManagedTargetSession` and its `NetworkBranch`. The
-- clock is read once for a call; what the writer and the reader threads have sent meanwhile is an
-- argument. Durations are numbers of nanoseconds.
use audio_share.Base.{
  ℕ, ◌+◌, ◌-◌, ◌/◌, ◌%◌, Bool, true, false, not, ◌||◌, List, [], ◌∷◌, Option, none, some, String,
  Result, ok, err, ltb, leb, ◌==◌, if◌then◌else◌, retain,
}
use audio_share.Stream.{u64, u32_mod}
use audio_share.Session.{StreamTargetSnapshot, StreamTargetHealth, StreamSessionState}
use audio_share.Protocol.{TransportError, channel_closed}
use audio_share.Fanout.Channel.{Flume}
use audio_share.Fanout.Queue
use audio_share.Fanout.Queue.{BufferedBranchQueue, BufferedPushOutcome}
use audio_share.Fanout.Mirror.{FanoutAudioFrame}
use audio_share.Transport.Texts.{stop_requested}
use audio_share.Sender.Policy.{SenderTarget, bitrate_bps, is_streaming}

pub data InboundControl : Type 0 where
  heartbeat_ack : ℕ → ℕ → InboundControl
  stop error : String → ℕ → InboundControl
  disconnected : InboundControl

pub data NetworkControl : Type 0 where
  heartbeat : ℕ → NetworkControl
  stop : String → NetworkControl
  shutdown : NetworkControl

pub data NetworkEvent : Type 0 where
  audio_sent heartbeat_sent stop_sent : ℕ → NetworkEvent
  error : String → NetworkEvent

-- `controls` are those sent to the writer, the last one first; `joined` is the taken handle.
pub record NetworkBranch (C : Type 0) : Type 0 where
  pub queue : BufferedBranchQueue C
  pub controls : List NetworkControl
  pub joined : Bool

pub record ManagedTargetSession (C : Type 0) : Type 0 where
  pub target : SenderTarget
  pub snapshot : StreamTargetSnapshot
  pub network_branch : NetworkBranch C
  pub pending_heartbeats : List (ℕ × ℕ)
  pub heartbeat_nonce : ℕ
  pub last_heartbeat : ℕ
  pub started_at : ℕ

-- What the other threads have sent since the last call, and whether the writer still runs.
pub record Arrived : Type 0 where
  pub inbound : List InboundControl
  pub events : List NetworkEvent
  pub writer_runs : Bool

-- `HashMap::remove`
abbrev pub sent_at : ℕ → List (ℕ × ℕ) → Option ℕ
sent_at nonce [] = none
sent_at nonce ((n, at) ∷ rest) = if n == nonce then some at else sent_at nonce rest

abbrev pub without : ℕ → List (ℕ × ℕ) → List (ℕ × ℕ)
without nonce pending = retain (λ p. not (p.0 == nonce)) pending

abbrev pub Session : Type 0 → Type 0
Session C = ManagedTargetSession C

abbrev worn : StreamTargetSnapshot → StreamTargetHealth
worn snapshot =
    if ltb 0 snapshot.network_buffer.dropped_packets || ltb 0 snapshot.metrics.packet_gaps
    then StreamTargetHealth.degraded
    else StreamTargetHealth.healthy

module _ {C : Type 0} where
  unfoldable pub set_error : String → StreamTargetHealth → Session C → Session C
  set_error message health s = record s {
    snapshot = record s.snapshot {
      last_error = some message;
      state = StreamSessionState.error;
      health = health;
    };
  }

  unfoldable pub refresh_health : Session C → Session C
  refresh_health s =
      if not (is_streaming s.snapshot.state)
      then s
      else record s { snapshot = record s.snapshot { health = worn s.snapshot } }

  abbrev count_received : ℕ → Session C → Session C
  count_received wire_bytes s = record s {
    snapshot = record s.snapshot {
      metrics = record s.snapshot.metrics {
        bytes_received = u64 (s.snapshot.metrics.bytes_received + wire_bytes);
        packets_received = u64 (s.snapshot.metrics.packets_received + 1);
      };
    };
  }

  abbrev note_latency : ℕ → Option ℕ → Session C → Session C
  note_latency now none s = s
  note_latency now (some at) s = record s {
    snapshot = record s.snapshot {
      metrics = record s.snapshot.metrics {
        latency_estimate_ms = some ((now - at) / 1000000 / 2 % u32_mod);
      };
    };
  }

  abbrev count_ack : Session C → Session C
  count_ack s = record s {
    snapshot = record s.snapshot {
      metrics = record s.snapshot.metrics {
        keepalives_received = u64 (s.snapshot.metrics.keepalives_received + 1);
      };
    };
  }

  unfoldable pub on_inbound : ℕ → InboundControl → Session C → Session C
  unfolding set_error
  on_inbound now (heartbeat_ack nonce wire_bytes) s =
      note_latency now (sent_at nonce s.pending_heartbeats)
        (record (count_ack (count_received wire_bytes s)) {
          pending_heartbeats = without nonce s.pending_heartbeats;
        })
  on_inbound now (stop reason wire_bytes) s =
      set_error (stop_requested reason) StreamTargetHealth.unreachable (count_received wire_bytes s)
  on_inbound now (error message wire_bytes) s =
      set_error message StreamTargetHealth.error (count_received wire_bytes s)
  on_inbound now disconnected s =
      set_error "receiver disconnected unexpectedly" StreamTargetHealth.unreachable s

  unfoldable pub on_event : ℕ → NetworkEvent → Session C → Session C
  unfolding set_error
  on_event now (audio_sent wire_bytes) s =
      let sent = u64 (s.snapshot.metrics.bytes_sent + wire_bytes) in
      record s {
        snapshot = record s.snapshot {
          metrics = record s.snapshot.metrics {
            bytes_sent = sent;
            packets_sent = u64 (s.snapshot.metrics.packets_sent + 1);
            estimated_bitrate_bps = bitrate_bps sent (now - s.started_at);
          };
        };
      }
  on_event now (heartbeat_sent wire_bytes) s = record s {
    snapshot = record s.snapshot {
      metrics = record s.snapshot.metrics {
        bytes_sent = u64 (s.snapshot.metrics.bytes_sent + wire_bytes);
        keepalives_sent = u64 (s.snapshot.metrics.keepalives_sent + 1);
      };
    };
  }
  on_event now (stop_sent wire_bytes) s = record s {
    snapshot = record s.snapshot {
      metrics = record s.snapshot.metrics {
        bytes_sent = u64 (s.snapshot.metrics.bytes_sent + wire_bytes);
      };
    };
  }
  on_event now (error message) s = set_error message StreamTargetHealth.unreachable s

  unfoldable pub on_all_inbound : ℕ → List InboundControl → Session C → Session C
  unfolding on_inbound
  on_all_inbound now [] s = s
  on_all_inbound now (i ∷ is) s = on_all_inbound now is (on_inbound now i s)

  unfoldable pub on_events : ℕ → List NetworkEvent → Session C → Session C
  unfolding on_event
  on_events now [] s = s
  on_events now (e ∷ es) s = on_events now es (on_event now e s)

  abbrev send_control : NetworkControl → NetworkBranch C → NetworkBranch C
  send_control control branch = record branch { controls = control ∷ branch.controls }

  abbrev pub heartbeat_is_due : ℕ → ℕ → Session C → Bool
  heartbeat_is_due now interval s =
      if is_streaming s.snapshot.state then leb interval (now - s.last_heartbeat) else false

  module _ (to_string : TransportError → String) where
    unfoldable pub send_heartbeat : Bool → ℕ → ℕ → Session C → Session C
    unfolding set_error
    send_heartbeat true now nonce s = record s {
      network_branch = send_control (heartbeat nonce) s.network_branch;
      last_heartbeat = now;
    }
    send_heartbeat false now nonce s =
        set_error (to_string channel_closed) StreamTargetHealth.unreachable s

    unfoldable pub keep_alive : Bool → ℕ → ℕ → Session C → Session C
    unfolding send_heartbeat
    keep_alive writer_runs now interval s =
        if heartbeat_is_due now interval s
        then (let nonce = u64 (s.heartbeat_nonce + 1) in
            send_heartbeat writer_runs now nonce (record s {
              heartbeat_nonce = nonce;
              pending_heartbeats = (nonce, now) ∷ without nonce s.pending_heartbeats;
            }))
        else s

  module _ (flume : Flume C FanoutAudioFrame) (to_string : TransportError → String) where
    unfoldable pub refresh_buffer : Session C → Session C
    refresh_buffer s = record s {
      snapshot = record s.snapshot { network_buffer = Queue.snapshot flume s.network_branch.queue };
    }

    unfoldable pub tick : Arrived → ℕ → ℕ → Session C → Bool × Session C
    unfolding on_all_inbound on_events keep_alive refresh_buffer refresh_health
    tick arrived now interval s =
        let heard = on_events now arrived.events (on_all_inbound now arrived.inbound s) in
        let s' =
          refresh_health
            (refresh_buffer (keep_alive to_string arrived.writer_runs now interval heard)) in
        (is_streaming s'.snapshot.state, s')

    -- Each outcome of `handle_buffer_push` is a line in the log.
    abbrev pub handle_buffer_push :
        Result TransportError BufferedPushOutcome
        → Session C
        → Result TransportError (Unit {0}) × Session C
    handle_buffer_push (ok outcome) s = (ok tt, refresh_health (refresh_buffer s))
    handle_buffer_push (err e) s = (err e, s)

    -- The writer takes `sooner` and `later` frames while the frame is pushed.
    unfoldable pub push_frame :
        ℕ → ℕ → FanoutAudioFrame → Session C → Result TransportError (Unit {0}) × Session C
    unfolding refresh_buffer refresh_health
    push_frame sooner later frame s =
        let (r, queue) = Queue.push flume sooner later frame s.network_branch.queue in
        handle_buffer_push r
          (record s { network_branch = record s.network_branch { queue = queue } })

    abbrev joined_branch : NetworkControl → Session C → Session C
    joined_branch control s = record s {
      network_branch = record s.network_branch {
        controls = control ∷ s.network_branch.controls;
        joined = true;
        queue = Queue.clear flume s.network_branch.queue;
      };
    }

    unfoldable pub shutdown_with_stop : String → Session C → StreamTargetSnapshot
    unfolding refresh_buffer
    shutdown_with_stop reason s =
        let stopping = record s {
          snapshot = record s.snapshot { state = StreamSessionState.stopping };
        } in
        (refresh_buffer (joined_branch (stop reason) stopping)).snapshot

    unfoldable pub shutdown_immediate : Session C → StreamTargetSnapshot
    unfolding refresh_buffer
    shutdown_immediate s = (refresh_buffer (joined_branch shutdown s)).snapshot
