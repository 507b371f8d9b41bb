-- ===== src/Sender/Manager/Rounds.antt =====
-- Lemmas about `tick_targets`, `capture_and_fan_out` and `stop_capture_if_idle` of
-- crates/synchrosonic-transport/src/sender.rs: what they leave of the targets.
use audio_share.Base.{
  ℕ, ◌≤◌, refl, Bool, true, false, List, [], ◌∷◌, Option, none, some, String, Result, ok, err,
  Bool-cases, inl, inr, ◌||◌, max, arith,
}
use audio_share.Stream.{millis}
use audio_share.Session.{StreamTargetHealth}
use audio_share.Protocol.{TransportError}
use audio_share.Fanout.Channel.{Flume}
use audio_share.Fanout.Mirror.{FanoutAudioFrame}
use audio_share.Sender.Policy.{max_connect_attempts}
use audio_share.Sender.Target.{
  ManagedTargetSession, Arrived, tick, push_frame, set_error, shutdown_immediate,
}
use audio_share.Sender.Identity.{
  set_error-IsSame, tick-IsSame, push_frame-IsSame, shutdown_immediate-IsSameSnapshot,
}
use audio_share.Sender.Targets.{
  TargetSessionEntry, pending, active, failed, get, remove, insert_failed, active_of, active_ids,
  has_active_targets, has_pending_targets,
}
use audio_share.Sender.Manager.{
  SenderManager, Backend, AudioFrame, CaptureError, capture_ended, other,
}
use audio_share.Sender.Manager.Every.{OfFound, OfFound-get}
use audio_share.Sender.Manager.Attempts.{
  IsSound, IsSoundManager, keeps-IsSoundManager, insert-IsSoundManager, remove-IsSoundManager,
}
use audio_share.Sender.Manager.Outcomes.{
  same_active-IsSound, failed-IsSound, fail_all_active_targets-IsSoundManager,
}
use audio_share.Sender.Manager.Streaming.{
  note_tick, tick_target, tick_each, drop_target, drop_targets, in_order, tick_targets, fan_frame,
  fan_to_mirror, note_push, fan_to_target, fan_to_each, fan_out, on_received, on_capture_frame,
  capture_and_fan_out, stop_mirror, is_up, stop_capture_if_idle,
}

module _ {World Capture C : Type 0} (backend : Backend World Capture)
    (flume : Flume C FanoutAudioFrame) (to_string : TransportError → String) where
  note_tick-IsSoundManager :
      (id : String) (r : Bool) (s : ManagedTargetSession C) (ids : List String)
      (m : SenderManager World Capture C)
      → IsSound id (active s)
      → IsSoundManager m
      → IsSoundManager (note_tick backend flume to_string id (r, s) (ids, m)).1
  note_tick-IsSoundManager id true s ids m p h = insert-IsSoundManager id (active s) m p h
  note_tick-IsSoundManager id false s ids m p h = insert-IsSoundManager id (active s) m p h

  tick_target-IsSoundManager :
      (arrived : String → Arrived) (now : ℕ) (id : String) (o : Option (TargetSessionEntry C))
      (ids : List String) (m : SenderManager World Capture C)
      → OfFound IsSound id o
      → IsSoundManager m
      → IsSoundManager (tick_target backend flume to_string arrived now id (active_of o) (ids, m)).1
  unfolding tick_target
  tick_target-IsSoundManager arrived now id none ids m p h = h
  tick_target-IsSoundManager arrived now id (some (pending s)) ids m p h = h
  tick_target-IsSoundManager arrived now id (some (failed s)) ids m p h = h
  tick_target-IsSoundManager arrived now id (some (active s)) ids m p h =
      let interval = millis (max m.config.heartbeat_interval_ms 250) in
      let r = tick flume to_string (arrived id) now interval s in
      note_tick-IsSoundManager id r.0 r.1 ids m
        (same_active-IsSound C id s r.1 (tick-IsSame flume to_string (arrived id) now interval s) p)
        h

  tick_each-IsSoundManager :
      (arrived : String → Arrived) (now : ℕ) (ids noted : List String)
      (m : SenderManager World Capture C)
      → IsSoundManager m
      → IsSoundManager (tick_each backend flume to_string arrived now ids (noted, m)).1
  unfolding tick_each
  tick_each-IsSoundManager arrived now [] noted m h = h
  tick_each-IsSoundManager arrived now (id ∷ ids) noted m h =
      let found = get id m.targets in
      let r = tick_target backend flume to_string arrived now id (active_of found) (noted, m) in
      tick_each-IsSoundManager arrived now ids r.0 r.1 (
        tick_target-IsSoundManager arrived now id found noted m
          (OfFound-get IsSound id m.targets h.targets) h)

  dropped-IsSound :
      (id : String) (s : ManagedTargetSession C)
      → IsSound id (active s)
      → (shutdown_immediate flume to_string s).attempt_count ≤ max_connect_attempts
  unfolding IsSound
  dropped-IsSound id s p = rw (shutdown_immediate-IsSameSnapshot flume to_string s).1 p.2

  drop_target-IsSoundManager :
      (id : String) (o : Option (TargetSessionEntry C)) (m : SenderManager World Capture C)
      → OfFound IsSound id o
      → IsSoundManager m
      → IsSoundManager (drop_target backend flume to_string id (active_of o) m)
  unfolding drop_target insert_failed
  drop_target-IsSoundManager id none m p h = remove-IsSoundManager id m h
  drop_target-IsSoundManager id (some (pending s)) m p h = remove-IsSoundManager id m h
  drop_target-IsSoundManager id (some (failed s)) m p h = remove-IsSoundManager id m h
  drop_target-IsSoundManager id (some (active s)) m p h =
      let snapshot = shutdown_immediate flume to_string s in
      keeps-IsSoundManager refl refl (
        insert-IsSoundManager snapshot.receiver_id (failed snapshot)
          (record m { targets = remove id m.targets })
          (failed-IsSound C snapshot (dropped-IsSound id s p)) (remove-IsSoundManager id m h))

  drop_targets-IsSoundManager :
      (ids : List String) (m : SenderManager World Capture C)
      → IsSoundManager m
      → IsSoundManager (drop_targets backend flume to_string ids m)
  unfolding drop_targets
  drop_targets-IsSoundManager [] m h = h
  drop_targets-IsSoundManager (id ∷ ids) m h =
      let found = get id m.targets in
      drop_targets-IsSoundManager ids (drop_target backend flume to_string id (active_of found) m)
        (drop_target-IsSoundManager id found m (OfFound-get IsSound id m.targets h.targets) h)

  pub tick_targets-IsSoundManager :
      (arrived : String → Arrived) (now : ℕ) (m : SenderManager World Capture C)
      → IsSoundManager m
      → IsSoundManager (tick_targets backend flume to_string arrived now m)
  unfolding tick_targets
  tick_targets-IsSoundManager arrived now m h =
      let r = tick_each backend flume to_string arrived now (active_ids m.targets) ([], m) in
      drop_targets-IsSoundManager (in_order backend flume to_string r.0 []) r.1
        (tick_each-IsSoundManager arrived now (active_ids m.targets) [] m h)

  note_push-IsSoundManager :
      (id : String) (r : Result TransportError (Unit {0})) (s : ManagedTargetSession C)
      (ids : List String) (m : SenderManager World Capture C)
      → IsSound id (active s)
      → IsSoundManager m
      → IsSoundManager (note_push backend flume to_string id (r, s) (ids, m)).1
  note_push-IsSoundManager id (ok u) s ids m p h = insert-IsSoundManager id (active s) m p h
  note_push-IsSoundManager id (err e) s ids m p h =
      let s' = set_error (to_string e) StreamTargetHealth.error s in
      insert-IsSoundManager id (active s') m
        (same_active-IsSound C id s s' (set_error-IsSame (to_string e) StreamTargetHealth.error s)
          p)
        h

  fan_to_target-IsSoundManager :
      (taken : Option String → ℕ × ℕ) (frame : FanoutAudioFrame) (id : String)
      (o : Option (TargetSessionEntry C)) (ids : List String) (m : SenderManager World Capture C)
      → OfFound IsSound id o
      → IsSoundManager m
      → IsSoundManager
          (fan_to_target backend flume to_string taken frame id (active_of o) (ids, m)).1
  unfolding fan_to_target
  fan_to_target-IsSoundManager taken frame id none ids m p h = h
  fan_to_target-IsSoundManager taken frame id (some (pending s)) ids m p h = h
  fan_to_target-IsSoundManager taken frame id (some (failed s)) ids m p h = h
  fan_to_target-IsSoundManager taken frame id (some (active s)) ids m p h =
      let (sooner, later) = taken (some id) in
      let r = push_frame flume to_string sooner later frame s in
      note_push-IsSoundManager id r.0 r.1 ids m
        (same_active-IsSound C id s r.1 (push_frame-IsSame flume to_string sooner later frame s) p)
        h

  fan_to_each-IsSoundManager :
      (taken : Option String → ℕ × ℕ) (frame : FanoutAudioFrame) (ids noted : List String)
      (m : SenderManager World Capture C)
      → IsSoundManager m
      → IsSoundManager (fan_to_each backend flume to_string taken frame ids (noted, m)).1
  unfolding fan_to_each
  fan_to_each-IsSoundManager taken frame [] noted m h = h
  fan_to_each-IsSoundManager taken frame (id ∷ ids) noted m h =
      let found = get id m.targets in
      let r = fan_to_target backend flume to_string taken frame id (active_of found) (noted, m) in
      fan_to_each-IsSoundManager taken frame ids r.0 r.1 (
        fan_to_target-IsSoundManager taken frame id found noted m
          (OfFound-get IsSound id m.targets h.targets) h)

  fan_to_mirror-IsSoundManager :
      (taken : ℕ × ℕ) (frame : FanoutAudioFrame) (m : SenderManager World Capture C)
      → IsSoundManager m
      → IsSoundManager (fan_to_mirror backend flume to_string taken frame m)
  unfolding fan_to_mirror
  fan_to_mirror-IsSoundManager (a, b) frame m h =
      keeps-IsSoundManager (ground arith) (ground arith) h

  fan_out-IsSoundManager :
      (taken : Option String → ℕ × ℕ) (frame : FanoutAudioFrame) (m : SenderManager World Capture C)
      → IsSoundManager m
      → IsSoundManager (fan_out backend flume to_string taken frame m)
  unfolding fan_out
  fan_out-IsSoundManager taken frame m h =
      let m' = fan_to_mirror backend flume to_string (taken none) frame m in
      let r = fan_to_each backend flume to_string taken frame (active_ids m.targets) ([], m') in
      drop_targets-IsSoundManager (in_order backend flume to_string r.0 []) r.1 (
        fan_to_each-IsSoundManager taken frame (active_ids m.targets) [] m'
          (fan_to_mirror-IsSoundManager (taken none) frame m h))

  on_received-IsSoundManager :
      (taken : Option String → ℕ × ℕ) (now_unix_ms : ℕ)
      (r : Result CaptureError (Option AudioFrame)) (world : World)
      (m : SenderManager World Capture C)
      → IsSoundManager m
      → IsSoundManager (on_received backend flume to_string taken now_unix_ms (r, world) m)
  on_received-IsSoundManager taken now_unix_ms (ok none) world m h =
      keeps-IsSoundManager refl refl h
  on_received-IsSoundManager taken now_unix_ms (ok (some f)) world m h =
      fan_out-IsSoundManager taken
        (fan_frame backend flume to_string now_unix_ms m.capture_started_unix_ms f)
        (record m { world = world }) (keeps-IsSoundManager refl refl h)
  on_received-IsSoundManager taken now_unix_ms (err capture_ended) world m h =
      fail_all_active_targets-IsSoundManager backend to_string _ _
        (keeps-IsSoundManager refl refl h)
  on_received-IsSoundManager taken now_unix_ms (err (other e)) world m h =
      fail_all_active_targets-IsSoundManager backend to_string _ _
        (keeps-IsSoundManager refl refl h)

  on_capture_frame-IsSoundManager :
      (taken : Option String → ℕ × ℕ) (now_unix_ms : ℕ) (capture : Option Capture)
      (m : SenderManager World Capture C)
      → IsSoundManager m
      → IsSoundManager (on_capture_frame backend flume to_string taken now_unix_ms capture m)
  on_capture_frame-IsSoundManager taken now_unix_ms none m h = h
  on_capture_frame-IsSoundManager taken now_unix_ms (some capture) m h =
      let (r, world) = backend.try_recv_frame capture m.world in
      on_received-IsSoundManager taken now_unix_ms r world m h

  pub capture_and_fan_out-IsSoundManager :
      (taken : Option String → ℕ × ℕ) (now_unix_ms : ℕ) (m : SenderManager World Capture C)
      → IsSoundManager m
      → IsSoundManager (capture_and_fan_out backend flume to_string taken now_unix_ms m)
  unfolding capture_and_fan_out
  capture_and_fan_out-IsSoundManager taken now_unix_ms m h =
      on_capture_frame-IsSoundManager taken now_unix_ms m.capture m h

  stop_mirror-IsSoundManager :
      (up : Bool) (m : SenderManager World Capture C)
      → IsSoundManager m
      → IsSoundManager (stop_mirror backend flume to_string up m)
  stop_mirror-IsSoundManager true m h = keeps-IsSoundManager refl refl h
  stop_mirror-IsSoundManager false m h = h

  pub stop_capture_if_idle-IsSoundManager :
      (m : SenderManager World Capture C)
      → IsSoundManager m
      → IsSoundManager (stop_capture_if_idle backend flume to_string m)
  unfolding stop_capture_if_idle
  stop_capture_if_idle-IsSoundManager m h =
      elim (Bool-cases (has_active_targets m.targets || has_pending_targets m.targets)) [
        | inl e ↦ rw e h
        | inr e ↦ rw e (
            stop_mirror-IsSoundManager (is_up m.shared_snapshot.local_mirror.state) _
              (keeps-IsSoundManager refl refl h))
      ]
