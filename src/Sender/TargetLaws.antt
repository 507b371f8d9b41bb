-- ===== src/Sender/TargetLaws.antt =====
-- Lemmas about `ManagedTargetSession` of crates/synchrosonic-transport/src/sender.rs.
use audio_share.Base.{
  ℕ, ◌-◌, ◌≡◌, refl, sym, ap, ◌∙◌, Bool, true, false, ◌&&◌, List, [], ◌∷◌, String, leb, arith,
}
use audio_share.Protocol.{TransportError}
use audio_share.Fanout.Channel.{Flume}
use audio_share.Fanout.Mirror.{FanoutAudioFrame}
use audio_share.Sender.Policy.{is_streaming, all}
use audio_share.Sender.Target.{
  InboundControl, heartbeat_ack, stop, disconnected, NetworkEvent, audio_sent, heartbeat_sent,
  stop_sent, Session, Arrived, set_error, refresh_health, refresh_buffer, on_inbound, on_event,
  on_all_inbound, on_events, send_heartbeat, keep_alive, tick,
}

abbrev pub is_ack : InboundControl → Bool
is_ack (heartbeat_ack nonce wire_bytes) = true
is_ack _ = false

abbrev pub is_progress : NetworkEvent → Bool
is_progress (NetworkEvent.error message) = false
is_progress _ = true

-- A streaming target whose heartbeat is due has a writer to send it.
abbrev pub can_keep_alive : Bool → Bool → Bool
can_keep_alive true writer_runs = writer_runs
can_keep_alive false writer_runs = true

and_assoc : (a b c : Bool) → ((a && b) && c) ≡ (a && (b && c))
and_assoc true b c = refl
and_assoc false b c = refl

and_false : (a : Bool) → (a && false) ≡ false
and_false true = refl
and_false false = refl

and_true : (a : Bool) → (a && true) ≡ a
and_true true = refl
and_true false = refl

all_cons : {A : Type 0} (p : A → Bool) (x : A) (xs : List A) → all p (x ∷ xs) ≡ (p x && all p xs)
all_cons p x xs = ground arith

module _ {C : Type 0} where
  abbrev pub streams : Session C → Bool
  streams s = is_streaming s.snapshot.state

  on_inbound-streams :
      (now : ℕ) (i : InboundControl) (s : Session C)
      → streams (on_inbound now i s) ≡ (streams s && is_ack i)
  unfolding on_inbound set_error
  on_inbound-streams now (heartbeat_ack n w) s = ground (arith, and_true (streams s))
  on_inbound-streams now (stop r w) s = sym (and_false (streams s))
  on_inbound-streams now (InboundControl.error m w) s = sym (and_false (streams s))
  on_inbound-streams now disconnected s = sym (and_false (streams s))

  on_event-streams :
      (now : ℕ) (e : NetworkEvent) (s : Session C)
      → streams (on_event now e s) ≡ (streams s && is_progress e)
  unfolding on_event set_error
  on_event-streams now (audio_sent w) s = sym (and_true (streams s))
  on_event-streams now (heartbeat_sent w) s = sym (and_true (streams s))
  on_event-streams now (stop_sent w) s = sym (and_true (streams s))
  on_event-streams now (NetworkEvent.error m) s = sym (and_false (streams s))

  on_all_inbound-streams :
      (now : ℕ) (is : List InboundControl) (s : Session C)
      → streams (on_all_inbound now is s) ≡ (streams s && all is_ack is)
  unfolding on_all_inbound
  on_all_inbound-streams now [] s = sym (and_true (streams s))
  on_all_inbound-streams now (i ∷ is) s =
      on_all_inbound-streams now is (on_inbound now i s)
      ∙ ap (λ b. b && all is_ack is) (on_inbound-streams now i s)
      ∙ and_assoc (streams s) (is_ack i) (all is_ack is)
      ∙ ap (λ b. streams s && b) (sym (all_cons is_ack i is))

  on_events-streams :
      (now : ℕ) (es : List NetworkEvent) (s : Session C)
      → streams (on_events now es s) ≡ (streams s && all is_progress es)
  unfolding on_events
  on_events-streams now [] s = sym (and_true (streams s))
  on_events-streams now (e ∷ es) s =
      on_events-streams now es (on_event now e s)
      ∙ ap (λ b. b && all is_progress es) (on_event-streams now e s)
      ∙ and_assoc (streams s) (is_progress e) (all is_progress es)
      ∙ ap (λ b. streams s && b) (sym (all_cons is_progress e es))

  on_inbound-last_heartbeat :
      (now : ℕ) (i : InboundControl) (s : Session C)
      → (on_inbound now i s).last_heartbeat ≡ s.last_heartbeat
  unfolding on_inbound set_error
  on_inbound-last_heartbeat now (heartbeat_ack n w) s = ground arith
  on_inbound-last_heartbeat now (stop r w) s = refl
  on_inbound-last_heartbeat now (InboundControl.error m w) s = refl
  on_inbound-last_heartbeat now disconnected s = refl

  on_event-last_heartbeat :
      (now : ℕ) (e : NetworkEvent) (s : Session C)
      → (on_event now e s).last_heartbeat ≡ s.last_heartbeat
  unfolding on_event set_error
  on_event-last_heartbeat now (audio_sent w) s = refl
  on_event-last_heartbeat now (heartbeat_sent w) s = refl
  on_event-last_heartbeat now (stop_sent w) s = refl
  on_event-last_heartbeat now (NetworkEvent.error m) s = refl

  on_all_inbound-last_heartbeat :
      (now : ℕ) (is : List InboundControl) (s : Session C)
      → (on_all_inbound now is s).last_heartbeat ≡ s.last_heartbeat
  unfolding on_all_inbound
  on_all_inbound-last_heartbeat now [] s = refl
  on_all_inbound-last_heartbeat now (i ∷ is) s =
      on_all_inbound-last_heartbeat now is (on_inbound now i s) ∙ on_inbound-last_heartbeat now i s

  on_events-last_heartbeat :
      (now : ℕ) (es : List NetworkEvent) (s : Session C)
      → (on_events now es s).last_heartbeat ≡ s.last_heartbeat
  unfolding on_events
  on_events-last_heartbeat now [] s = refl
  on_events-last_heartbeat now (e ∷ es) s =
      on_events-last_heartbeat now es (on_event now e s) ∙ on_event-last_heartbeat now e s

  refresh_health-streams : (s : Session C) → streams (refresh_health s) ≡ streams s
  unfolding refresh_health
  refresh_health-streams s = ground arith

  keep_alive-streams :
      (to_string : TransportError → String) (runs : Bool) (now interval : ℕ) (s : Session C)
      → streams (keep_alive to_string runs now interval s)
        ≡ (streams s && can_keep_alive (leb interval (now - s.last_heartbeat)) runs)
  unfolding keep_alive send_heartbeat set_error
  keep_alive-streams to_string runs now interval s = ground arith

  module _ (flume : Flume C FanoutAudioFrame) (to_string : TransportError → String) where
    -- A target goes on streaming after a tick exactly where it was streaming, the receiver has
    -- sent nothing but heartbeat acknowledgements, the writer has reported no error, and a
    -- heartbeat that is due has a writer to send it.
    pub tick-streams :
        (arrived : Arrived) (now interval : ℕ) (s : Session C)
        → (tick flume to_string arrived now interval s).0 ≡ (
            ((streams s && all is_ack arrived.inbound) && all is_progress arrived.events)
            && can_keep_alive (leb interval (now - s.last_heartbeat)) arrived.writer_runs)
    unfolding tick refresh_buffer
    tick-streams arrived now interval s =
        let heard = on_events now arrived.events (on_all_inbound now arrived.inbound s) in
        let kept = keep_alive to_string arrived.writer_runs now interval heard in
        refresh_health-streams (refresh_buffer flume to_string kept)
        ∙ keep_alive-streams to_string arrived.writer_runs now interval heard
        ∙ ap (λ t. streams heard && can_keep_alive (leb interval (now - t)) arrived.writer_runs)
            (on_events-last_heartbeat now arrived.events (on_all_inbound now arrived.inbound s)
              ∙ on_all_inbound-last_heartbeat now arrived.inbound s)
        ∙ ap (λ b. b && can_keep_alive (leb interval (now - s.last_heartbeat)) arrived.writer_runs)
            (on_events-streams now arrived.events (on_all_inbound now arrived.inbound s)
              ∙ ap (λ b. b && all is_progress arrived.events)
                  (on_all_inbound-streams now arrived.inbound s))
