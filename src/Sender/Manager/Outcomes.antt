-- ===== src/Sender/Manager/Outcomes.antt =====
-- Lemmas about `process_connect_results` of crates/synchrosonic-transport/src/sender.rs: what it
-- leaves of the targets.
use audio_share.Base.{
  ℕ, ◌≤◌, ◌<◌, ◌≡◌, refl, Bool, List, [], ◌∷◌, Option, none, some, String, Result, ok, err, ltb,
  All, Bool-cases, inl, inr, ◌&&◌, is_some, arith,
}
use audio_share.Session.{StreamTargetSnapshot, StreamTargetHealth}
use audio_share.Protocol.{TransportError}
use audio_share.Fanout.Mirror.{LocalMirrorEvent, started, played, state_changed}
use audio_share.Sender.Policy.{TargetConnectFailure, max_connect_attempts}
use audio_share.Sender.Target.{ManagedTargetSession, set_error}
use audio_share.Sender.Identity.{IsSame, set_error-IsSame}
use audio_share.Sender.Targets.{
  TargetSessionEntry, pending, active, failed, PendingTargetSession, schedule_retry, get,
  insert_active, insert_failed, active_of, pending_of, contains, active_ids,
}
use audio_share.Sender.Manager.{SenderManager, TargetConnectResult, connected, Backend}
use audio_share.Sender.Manager.Commands.{order_mirror}
use audio_share.Sender.Manager.Every.{OfFound, OfFound-get}
use audio_share.Sender.Manager.Attempts.{
  IsSound, IsSoundManager, keeps-IsSoundManager, insert-IsSoundManager, detach-IsSoundManager,
}
use audio_share.Sender.Manager.Results.{
  fail_target, fail_targets, fail_all_active_targets, start_mirror, on_capture,
  ensure_capture_running, on_started, on_connected, retry, on_failed, on_result,
  process_connect_results, on_mirror_event, process_local_mirror_events, set_last_error,
}

-- What an attempt that counts at most three brings.
abbrev pub IsSoundResult : {C : Type 0} → TargetConnectResult C → Type 0
IsSoundResult (connected s) =
    (s.snapshot.receiver_id ≡ s.target.receiver_id)
    × (s.snapshot.attempt_count ≤ max_connect_attempts)
IsSoundResult (TargetConnectResult.failed f) = f.snapshot.attempt_count ≤ max_connect_attempts

pub same_active-IsSound :
    (C : Type 0) (id : String) (s s' : ManagedTargetSession C)
    → IsSame s s'
    → IsSound id (active s)
    → IsSound id (active s')
unfolding IsSound
same_active-IsSound C id s s' e (a, b, c) =
    let t = e.target in let i = e.snapshot.0 in let n = e.snapshot.1 in (rw t a, rw i b, rw n c)

scheduled-IsSound :
    (C : Type 0) (now now_unix_ms : ℕ) (snapshot : StreamTargetSnapshot) (backoff : ℕ)
    (p : PendingTargetSession)
    → IsSound {C = C} snapshot.receiver_id (pending p)
    → snapshot.attempt_count < max_connect_attempts
    → IsSound {C = C} snapshot.receiver_id
        (pending (schedule_retry now now_unix_ms snapshot backoff p))
unfolding IsSound schedule_retry
scheduled-IsSound C now now_unix_ms snapshot backoff p (a, b, c) lt = (a, refl, lt)

connected-IsSound :
    (C : Type 0) (s : ManagedTargetSession C)
    → IsSoundResult (connected s)
    → IsSound s.target.receiver_id (active s)
unfolding IsSound
connected-IsSound C s (i, n) = (refl, i, n)

pub failed-IsSound :
    (C : Type 0) (s : StreamTargetSnapshot)
    → s.attempt_count ≤ max_connect_attempts
    → IsSound {C = C} s.receiver_id (failed s)
unfolding IsSound
failed-IsSound C s n = (refl, n)

module _ {World Capture C : Type 0} (backend : Backend World Capture)
    (to_string : TransportError → String) where
  fail_target-IsSoundManager :
      (message id : String) (o : Option (TargetSessionEntry C)) (m : SenderManager World Capture C)
      → OfFound IsSound id o
      → IsSoundManager m
      → IsSoundManager (fail_target backend to_string message id (active_of o) m)
  unfolding fail_target
  fail_target-IsSoundManager message id none m p h = h
  fail_target-IsSoundManager message id (some (pending s)) m p h = h
  fail_target-IsSoundManager message id (some (failed s)) m p h = h
  fail_target-IsSoundManager message id (some (active s)) m p h =
      let s' = set_error message StreamTargetHealth.error s in
      insert-IsSoundManager id (active s') m
        (same_active-IsSound C id s s' (set_error-IsSame message StreamTargetHealth.error s) p) h

  fail_targets-IsSoundManager :
      (message : String) (ids : List String) (m : SenderManager World Capture C)
      → IsSoundManager m
      → IsSoundManager (fail_targets backend to_string message ids m)
  unfolding fail_targets
  fail_targets-IsSoundManager message [] m h = h
  fail_targets-IsSoundManager message (id ∷ ids) m h =
      let found = get id m.targets in
      fail_targets-IsSoundManager message ids
        (fail_target backend to_string message id (active_of found) m)
        (fail_target-IsSoundManager message id found m (OfFound-get IsSound id m.targets h.targets)
          h)

  pub fail_all_active_targets-IsSoundManager :
      (message : String) (m : SenderManager World Capture C)
      → IsSoundManager m
      → IsSoundManager (fail_all_active_targets backend to_string message m)
  unfolding fail_all_active_targets
  fail_all_active_targets-IsSoundManager message m h =
      fail_targets-IsSoundManager message (active_ids m.targets) m h

  start_mirror-IsSoundManager :
      (runs : Bool) (m : SenderManager World Capture C)
      → IsSoundManager m
      → IsSoundManager (start_mirror backend to_string runs m).1
  unfolding start_mirror order_mirror
  start_mirror-IsSoundManager runs m h = keeps-IsSoundManager (ground arith) (ground arith) h

  on_capture-IsSoundManager :
      (runs : Bool) (now_unix_ms : ℕ) (r : Result String Capture × World)
      (m : SenderManager World Capture C)
      → IsSoundManager m
      → IsSoundManager (on_capture backend to_string runs now_unix_ms r m).1
  on_capture-IsSoundManager runs now_unix_ms (err e, world) m h = keeps-IsSoundManager refl refl h
  on_capture-IsSoundManager runs now_unix_ms (ok capture, world) m h =
      start_mirror-IsSoundManager runs
        (record m {
          world = world;
          capture = some capture;
          capture_started_unix_ms = some now_unix_ms;
        })
        (keeps-IsSoundManager refl refl h)

  ensure_capture_running-IsSoundManager :
      (runs : Bool) (now_unix_ms : ℕ) (m : SenderManager World Capture C)
      → IsSoundManager m
      → IsSoundManager (ensure_capture_running backend to_string runs now_unix_ms m).1
  unfolding ensure_capture_running
  ensure_capture_running-IsSoundManager runs now_unix_ms m h =
      elim (Bool-cases (is_some m.capture)) [
        | inl e ↦ rw e h
        | inr e ↦ rw e (
            on_capture-IsSoundManager runs now_unix_ms
              (backend.start_capture m.capture_settings m.world) m h)
      ]

  on_started-IsSoundManager :
      (r : Result TransportError (Unit {0})) (m : SenderManager World Capture C)
      → IsSoundManager m
      → IsSoundManager (on_started backend to_string (r, m))
  on_started-IsSoundManager (ok u) m h = h
  on_started-IsSoundManager (err e) m h =
      fail_all_active_targets-IsSoundManager (to_string e)
        (set_last_error backend to_string (some (to_string e)) m) (keeps-IsSoundManager refl refl h)

  on_connected-IsSoundManager :
      (runs : Bool) (now_unix_ms : ℕ) (s : ManagedTargetSession C)
      (m : SenderManager World Capture C)
      → IsSoundResult (connected s)
      → IsSoundManager m
      → IsSoundManager (on_connected backend to_string runs now_unix_ms s m)
  unfolding on_connected insert_active
  on_connected-IsSoundManager runs now_unix_ms s m p h =
      elim (Bool-cases (contains s.target.receiver_id m.targets)) [
        | inl e ↦ rw e (
            let inserted =
              insert-IsSoundManager s.target.receiver_id (active s) m (connected-IsSound C s p) h in
            let r =
              ensure_capture_running backend to_string runs now_unix_ms
                (record m { targets = insert_active s m.targets }) in
            on_started-IsSoundManager r.0 r.1
              (ensure_capture_running-IsSoundManager runs now_unix_ms _ inserted))
        | inr e ↦ rw e (detach-IsSoundManager to_string _ (some s) m h)
      ]

  retry-IsSoundManager :
      (now now_unix_ms : ℕ) (snapshot : StreamTargetSnapshot) (o : Option (TargetSessionEntry C))
      (m : SenderManager World Capture C)
      → OfFound IsSound snapshot.receiver_id o
      → snapshot.attempt_count < max_connect_attempts
      → IsSoundManager m
      → IsSoundManager (retry backend to_string now now_unix_ms snapshot (pending_of o) m)
  unfolding retry
  retry-IsSoundManager now now_unix_ms snapshot none m p lt h = h
  retry-IsSoundManager now now_unix_ms snapshot (some (active s)) m p lt h = h
  retry-IsSoundManager now now_unix_ms snapshot (some (failed s)) m p lt h = h
  retry-IsSoundManager now now_unix_ms snapshot (some (pending s)) m p lt h =
      insert-IsSoundManager snapshot.receiver_id _ m
        (scheduled-IsSound C now now_unix_ms snapshot _ s p lt) h

  on_failed-IsSoundManager :
      (now now_unix_ms : ℕ) (f : TargetConnectFailure) (m : SenderManager World Capture C)
      → f.snapshot.attempt_count ≤ max_connect_attempts
      → IsSoundManager m
      → IsSoundManager (on_failed backend to_string now now_unix_ms f m)
  unfolding on_failed insert_failed
  on_failed-IsSoundManager now now_unix_ms f m p h =
      let m' = set_last_error backend to_string f.snapshot.last_error m in
      let h' : IsSoundManager m' = keeps-IsSoundManager refl refl h in
      let found = get f.snapshot.receiver_id m.targets in
      elim (Bool-cases (contains f.snapshot.receiver_id m.targets)) [
        | inr e ↦ rw e h
        | inl e ↦
            elim (Bool-cases (f.retryable && ltb f.snapshot.attempt_count max_connect_attempts)) [
              | inl g ↦
                  rw (e, g)
                    (retry-IsSoundManager now now_unix_ms f.snapshot found m'
                      (OfFound-get IsSound f.snapshot.receiver_id m.targets h.targets)
                      (ground arith) h')
              | inr g ↦
                  rw (e, g)
                    (insert-IsSoundManager f.snapshot.receiver_id (failed f.snapshot) m'
                      (failed-IsSound C f.snapshot p) h')
            ]
      ]

  pub process_connect_results-IsSoundManager :
      (runs : Bool) (now now_unix_ms : ℕ) (rs : List (TargetConnectResult C))
      (m : SenderManager World Capture C)
      → All IsSoundResult rs
      → IsSoundManager m
      → IsSoundManager (process_connect_results backend to_string runs now now_unix_ms rs m)
  unfolding process_connect_results on_result
  process_connect_results-IsSoundManager runs now now_unix_ms [] m p h = h
  process_connect_results-IsSoundManager runs now now_unix_ms (connected s ∷ rs) m p h =
      process_connect_results-IsSoundManager runs now now_unix_ms rs _ p.1
        (on_connected-IsSoundManager runs now_unix_ms s m p.0 h)
  process_connect_results-IsSoundManager runs now now_unix_ms (TargetConnectResult.failed f ∷ rs) m
        p h =
      process_connect_results-IsSoundManager runs now now_unix_ms rs _ p.1
        (on_failed-IsSoundManager now now_unix_ms f m p.0 h)

  on_mirror_event-IsSoundManager :
      (e : LocalMirrorEvent) (m : SenderManager World Capture C)
      → IsSoundManager m
      → IsSoundManager (on_mirror_event backend to_string e m)
  unfolding on_mirror_event
  on_mirror_event-IsSoundManager (started b t) m h = keeps-IsSoundManager refl refl h
  on_mirror_event-IsSoundManager (played n) m h = keeps-IsSoundManager refl refl h
  on_mirror_event-IsSoundManager (state_changed s) m h = keeps-IsSoundManager refl refl h
  on_mirror_event-IsSoundManager (LocalMirrorEvent.error e) m h = keeps-IsSoundManager refl refl h

  pub process_local_mirror_events-IsSoundManager :
      (es : List LocalMirrorEvent) (m : SenderManager World Capture C)
      → IsSoundManager m
      → IsSoundManager (process_local_mirror_events backend to_string es m)
  unfolding process_local_mirror_events
  process_local_mirror_events-IsSoundManager [] m h = h
  process_local_mirror_events-IsSoundManager (e ∷ es) m h =
      process_local_mirror_events-IsSoundManager es (on_mirror_event backend to_string e m)
        (on_mirror_event-IsSoundManager e m h)
