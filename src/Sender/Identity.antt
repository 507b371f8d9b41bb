-- ===== src/Sender/Identity.antt =====
-- Lemmas about `ManagedTargetSession` of crates/synchrosonic-transport/src/sender.rs: the target and
-- the attempt that a session belongs to.
use audio_share.Base.{ℕ, ◌≡◌, refl, ◌∙◌, Bool, List, [], ◌∷◌, String, Result, ok, err, arith}
use audio_share.Session.{StreamTargetSnapshot, StreamTargetHealth}
use audio_share.Protocol.{TransportError}
use audio_share.Fanout.Channel.{Flume}
use audio_share.Fanout.Queue
use audio_share.Fanout.Queue.{BufferedPushOutcome}
use audio_share.Fanout.Mirror.{FanoutAudioFrame}
use audio_share.Sender.Target.{
  InboundControl, heartbeat_ack, stop, disconnected, NetworkEvent, audio_sent, heartbeat_sent,
  stop_sent, Session, Arrived, set_error, refresh_health, refresh_buffer, on_inbound, on_event,
  on_all_inbound, on_events, send_heartbeat, keep_alive, tick, push_frame, handle_buffer_push,
  shutdown_immediate,
}

abbrev pub IsSameSnapshot : StreamTargetSnapshot → StreamTargetSnapshot → Type 0
IsSameSnapshot s s' = (s'.receiver_id ≡ s.receiver_id) × (s'.attempt_count ≡ s.attempt_count)

module _ {C : Type 0} where
  pub record IsSame (s s' : Session C) : Type 0 where
    pub target : s'.target ≡ s.target
    pub snapshot : IsSameSnapshot s.snapshot s'.snapshot

  same :
      {s s' : Session C}
      → s'.target ≡ s.target
      → s'.snapshot.receiver_id ≡ s.snapshot.receiver_id
      → s'.snapshot.attempt_count ≡ s.snapshot.attempt_count
      → IsSame s s'
  same p q r = record { target = p; snapshot = (q, r) }

  IsSame-trans : {a b c : Session C} → IsSame a b → IsSame b c → IsSame a c
  IsSame-trans f g = record {
    target = g.target ∙ f.target;
    snapshot = (g.snapshot.0 ∙ f.snapshot.0, g.snapshot.1 ∙ f.snapshot.1);
  }

  pub set_error-IsSame :
      (message : String) (state : StreamTargetHealth) (s : Session C)
      → IsSame s (set_error message state s)
  unfolding set_error
  set_error-IsSame message state s = same refl refl refl

  on_inbound-IsSame : (now : ℕ) (i : InboundControl) (s : Session C) → IsSame s (on_inbound now i s)
  unfolding on_inbound set_error
  on_inbound-IsSame now (heartbeat_ack n w) s = same (ground arith) (ground arith) (ground arith)
  on_inbound-IsSame now (stop r w) s = same refl refl refl
  on_inbound-IsSame now (InboundControl.error m w) s = same refl refl refl
  on_inbound-IsSame now disconnected s = same refl refl refl

  on_event-IsSame : (now : ℕ) (e : NetworkEvent) (s : Session C) → IsSame s (on_event now e s)
  unfolding on_event set_error
  on_event-IsSame now (audio_sent w) s = same refl refl refl
  on_event-IsSame now (heartbeat_sent w) s = same refl refl refl
  on_event-IsSame now (stop_sent w) s = same refl refl refl
  on_event-IsSame now (NetworkEvent.error m) s = same refl refl refl

  on_all_inbound-IsSame :
      (now : ℕ) (is : List InboundControl) (s : Session C) → IsSame s (on_all_inbound now is s)
  unfolding on_all_inbound
  on_all_inbound-IsSame now [] s = same refl refl refl
  on_all_inbound-IsSame now (i ∷ is) s =
      IsSame-trans (on_inbound-IsSame now i s) (on_all_inbound-IsSame now is (on_inbound now i s))

  on_events-IsSame :
      (now : ℕ) (es : List NetworkEvent) (s : Session C) → IsSame s (on_events now es s)
  unfolding on_events
  on_events-IsSame now [] s = same refl refl refl
  on_events-IsSame now (e ∷ es) s =
      IsSame-trans (on_event-IsSame now e s) (on_events-IsSame now es (on_event now e s))

  refresh_health-IsSame : (s : Session C) → IsSame s (refresh_health s)
  unfolding refresh_health
  refresh_health-IsSame s = same (ground arith) (ground arith) (ground arith)

  keep_alive-IsSame :
      (to_string : TransportError → String) (runs : Bool) (now interval : ℕ) (s : Session C)
      → IsSame s (keep_alive to_string runs now interval s)
  unfolding keep_alive send_heartbeat set_error
  keep_alive-IsSame to_string runs now interval s =
      same (ground arith) (ground arith) (ground arith)

  module _ (flume : Flume C FanoutAudioFrame) (to_string : TransportError → String) where
    refresh_buffer-IsSame : (s : Session C) → IsSame s (refresh_buffer flume to_string s)
    unfolding refresh_buffer
    refresh_buffer-IsSame s = same refl refl refl

    pub tick-IsSame :
        (arrived : Arrived) (now interval : ℕ) (s : Session C)
        → IsSame s (tick flume to_string arrived now interval s).1
    unfolding tick
    tick-IsSame arrived now interval s =
        let s1 = on_all_inbound now arrived.inbound s in
        let s2 = on_events now arrived.events s1 in
        let s3 = keep_alive to_string arrived.writer_runs now interval s2 in
        IsSame-trans (on_all_inbound-IsSame now arrived.inbound s) (
          IsSame-trans (on_events-IsSame now arrived.events s1) (
            IsSame-trans (keep_alive-IsSame to_string arrived.writer_runs now interval s2) (
              IsSame-trans (refresh_buffer-IsSame s3)
                (refresh_health-IsSame (refresh_buffer flume to_string s3)))))

    handle_buffer_push-IsSame :
        (r : Result TransportError BufferedPushOutcome) (s : Session C)
        → IsSame s (handle_buffer_push flume to_string r s).1
    handle_buffer_push-IsSame (ok outcome) s =
        IsSame-trans (refresh_buffer-IsSame s)
          (refresh_health-IsSame (refresh_buffer flume to_string s))
    handle_buffer_push-IsSame (err e) s = same refl refl refl

    pub push_frame-IsSame :
        (sooner later : ℕ) (frame : FanoutAudioFrame) (s : Session C)
        → IsSame s (push_frame flume to_string sooner later frame s).1
    unfolding push_frame
    push_frame-IsSame sooner later frame s =
        let (r, queue) = Queue.push flume sooner later frame s.network_branch.queue in
        let pushed : Session C = record s {
          network_branch = record s.network_branch { queue = queue };
        } in
        let kept : IsSame s pushed = same refl refl refl in
        IsSame-trans kept (handle_buffer_push-IsSame r pushed)

    pub shutdown_immediate-IsSameSnapshot :
        (s : Session C) → IsSameSnapshot s.snapshot (shutdown_immediate flume to_string s)
    unfolding shutdown_immediate refresh_buffer
    shutdown_immediate-IsSameSnapshot s = (refl, refl)
