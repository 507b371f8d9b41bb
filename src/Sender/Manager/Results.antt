-- ===== src/Sender/Manager/Results.antt =====
-- crates/synchrosonic-transport/src/sender.rs: `process_connect_results`,
-- `process_local_mirror_events`, `ensure_capture_running` and `fail_all_active_targets`.
use audio_share.Base.{
  ℕ, ◌+◌, Bool, true, ◌&&◌, List, [], ◌∷◌, Option, none, some, String, Result, ok, err, ltb,
  is_some, if◌then◌else◌,
}
use audio_share.Stream.{u64}
use audio_share.Session.{StreamTargetHealth, StreamTargetSnapshot, LocalMirrorState}
use audio_share.Protocol.{TransportError, audio_failed, channel_closed}
use audio_share.Fanout.Mirror.{LocalMirrorControl, LocalMirrorEvent, started, played, state_changed}
use audio_share.Sender.Policy.{TargetConnectFailure, retry_backoff, max_connect_attempts}
use audio_share.Sender.Target.{ManagedTargetSession, set_error}
use audio_share.Sender.Targets.{
  active, pending, PendingTargetSession, contains, get, insert, insert_active, insert_failed,
  schedule_retry, active_ids, active_of, pending_of,
}
use audio_share.Sender.Manager.{SenderManager, TargetConnectResult, connected, failed, Backend}
use audio_share.Sender.Manager.Commands.{detach, order_mirror}

module _ {World Capture C : Type 0} (backend : Backend World Capture)
    (to_string : TransportError → String) where
  unfoldable pub fail_target :
      String
      → String
      → Option (ManagedTargetSession C)
      → SenderManager World Capture C
      → SenderManager World Capture C
  unfolding set_error insert
  fail_target message id none m = m
  fail_target message id (some session) m = record m {
    targets = insert id (active (set_error message StreamTargetHealth.error session)) m.targets;
  }

  unfoldable pub fail_targets :
      String → List String → SenderManager World Capture C → SenderManager World Capture C
  unfolding fail_target
  fail_targets message [] m = m
  fail_targets message (id ∷ ids) m =
      fail_targets message ids (fail_target message id (active_of (get id m.targets)) m)

  unfoldable pub fail_all_active_targets :
      String → SenderManager World Capture C → SenderManager World Capture C
  unfolding fail_targets active_ids
  fail_all_active_targets message m = fail_targets message (active_ids m.targets) m

  abbrev pub set_last_error :
      Option String → SenderManager World Capture C → SenderManager World Capture C
  set_last_error e m = record m { shared_snapshot = record m.shared_snapshot { last_error = e } }

  -- `local_mirror_branch.start(…)?` once the capture runs.
  unfoldable pub start_mirror :
      Bool
      → SenderManager World Capture C
      → Result TransportError (Unit {0}) × SenderManager World Capture C
  unfolding order_mirror
  start_mirror runs m =
      if m.shared_snapshot.local_mirror.desired_enabled
      then (if runs
          then (
            ok tt,
            order_mirror to_string true LocalMirrorState.starting
                (LocalMirrorControl.start m.local_mirror_request) m,
          )
          else (
            err channel_closed,
            record m {
              shared_snapshot = record m.shared_snapshot {
                local_mirror = record m.shared_snapshot.local_mirror {
                  state = LocalMirrorState.starting;
                };
              };
            },
          ))
      else (ok tt, m)

  abbrev pub on_capture :
      Bool
      → ℕ
      → Result String Capture × World
      → SenderManager World Capture C
      → Result TransportError (Unit {0}) × SenderManager World Capture C
  on_capture runs now_unix_ms (err e, world) m = (err (audio_failed e), record m { world = world })
  on_capture runs now_unix_ms (ok capture, world) m = start_mirror runs (record m {
    world = world;
    capture = some capture;
    capture_started_unix_ms = some now_unix_ms;
  })

  unfoldable pub ensure_capture_running :
      Bool
      → ℕ
      → SenderManager World Capture C
      → Result TransportError (Unit {0}) × SenderManager World Capture C
  unfolding start_mirror
  ensure_capture_running runs now_unix_ms m =
      if is_some m.capture
      then (ok tt, m)
      else on_capture runs now_unix_ms (backend.start_capture m.capture_settings m.world) m

  abbrev pub on_started :
      Result TransportError (Unit {0}) × SenderManager World Capture C
      → SenderManager World Capture C
  on_started (ok u, m) = m
  on_started (err e, m) =
      fail_all_active_targets (to_string e) (set_last_error (some (to_string e)) m)

  unfoldable pub on_connected :
      Bool
      → ℕ
      → ManagedTargetSession C
      → SenderManager World Capture C
      → SenderManager World Capture C
  unfolding detach insert_active ensure_capture_running fail_all_active_targets contains
  on_connected runs now_unix_ms session m =
      if contains session.target.receiver_id m.targets
      then on_started (
          ensure_capture_running runs now_unix_ms
            (record m { targets = insert_active session m.targets }))
      else detach to_string "sender target was removed before activation" (some session) m

  unfoldable pub retry :
      ℕ
      → ℕ
      → StreamTargetSnapshot
      → Option PendingTargetSession
      → SenderManager World Capture C
      → SenderManager World Capture C
  unfolding schedule_retry insert retry_backoff
  retry now now_unix_ms snapshot none m = m
  retry now now_unix_ms snapshot (some p) m = record m {
    targets =
        insert snapshot.receiver_id
          (pending
            (schedule_retry now now_unix_ms snapshot (retry_backoff snapshot.attempt_count) p))
          m.targets;
  }

  unfoldable pub on_failed :
      ℕ → ℕ → TargetConnectFailure → SenderManager World Capture C → SenderManager World Capture C
  unfolding contains retry insert_failed
  on_failed now now_unix_ms failure m =
      let snapshot = failure.snapshot in
      let m' = set_last_error snapshot.last_error m in
      if contains snapshot.receiver_id m.targets
      then (if failure.retryable && ltb snapshot.attempt_count max_connect_attempts
          then retry now now_unix_ms snapshot (pending_of (get snapshot.receiver_id m'.targets)) m'
          else record m' { targets = insert_failed snapshot m'.targets })
      else m

  unfoldable pub on_result :
      Bool
      → ℕ
      → ℕ
      → TargetConnectResult C
      → SenderManager World Capture C
      → SenderManager World Capture C
  unfolding on_connected on_failed
  on_result runs now now_unix_ms (connected session) m = on_connected runs now_unix_ms session m
  on_result runs now now_unix_ms (failed failure) m = on_failed now now_unix_ms failure m

  unfoldable pub process_connect_results :
      Bool
      → ℕ
      → ℕ
      → List (TargetConnectResult C)
      → SenderManager World Capture C
      → SenderManager World Capture C
  unfolding on_result
  process_connect_results runs now now_unix_ms [] m = m
  process_connect_results runs now now_unix_ms (r ∷ rs) m =
      process_connect_results runs now now_unix_ms rs (on_result runs now now_unix_ms r m)

  unfoldable pub on_mirror_event :
      LocalMirrorEvent → SenderManager World Capture C → SenderManager World Capture C
  on_mirror_event (started backend_name target_id) m = record m {
    shared_snapshot = record m.shared_snapshot {
      local_mirror = record m.shared_snapshot.local_mirror {
        playback_backend = some backend_name;
        playback_target_id = target_id;
        state = LocalMirrorState.mirroring;
        last_error = none;
      };
    };
  }
  on_mirror_event (played bytes) m = record m {
    shared_snapshot = record m.shared_snapshot {
      local_mirror = record m.shared_snapshot.local_mirror {
        packets_played = u64 (m.shared_snapshot.local_mirror.packets_played + 1);
        bytes_played = u64 (m.shared_snapshot.local_mirror.bytes_played + bytes);
      };
    };
  }
  on_mirror_event (state_changed state) m = record m {
    shared_snapshot = record m.shared_snapshot {
      local_mirror = record m.shared_snapshot.local_mirror { state = state };
    };
  }
  on_mirror_event (LocalMirrorEvent.error message) m = record m {
    shared_snapshot = record m.shared_snapshot {
      local_mirror = record m.shared_snapshot.local_mirror {
        last_error = some message;
        state = LocalMirrorState.error;
      };
    };
  }

  unfoldable pub process_local_mirror_events :
      List LocalMirrorEvent → SenderManager World Capture C → SenderManager World Capture C
  unfolding on_mirror_event
  process_local_mirror_events [] m = m
  process_local_mirror_events (e ∷ es) m = process_local_mirror_events es (on_mirror_event e m)
