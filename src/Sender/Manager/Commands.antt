-- ===== src/Sender/Manager/Commands.antt =====
-- crates/synchrosonic-transport/src/sender.rs: `process_commands` and `process_pending_targets`.
use audio_share.Base.{
  ℕ, Bool, true, false, List, [], ◌∷◌, Option, none, some, String, is_some, if◌then◌else◌,
}
use audio_share.Session.{StreamSessionState, LocalMirrorState}
use audio_share.Protocol.{TransportError, channel_closed}
use audio_share.Fanout.Mirror.{LocalMirrorControl}
use audio_share.Sender.Policy.{SenderTarget, is_opening, is_streaming}
use audio_share.Sender.Target.{ManagedTargetSession}
use audio_share.Sender.Targets.{
  PendingTargetSession, new_pending, mark_in_flight, state_for, insert_pending, get, insert, remove,
  due_pending_targets, pending_of, active_of, pending,
}
use audio_share.Sender.Manager.{
  SenderManager, SenderCommand, add_target, remove_target, set_local_mirror_enabled,
  set_local_mirror_target, set_local_device_id, set_quality_preset, shutdown,
}

-- `Connecting | Negotiating | Streaming`
abbrev pub is_busy : Option StreamSessionState → Bool
is_busy none = false
is_busy (some state) = if is_opening state then true else is_streaming state

abbrev pub is_shutdown : SenderCommand → Bool
is_shutdown shutdown = true
is_shutdown _ = false

module _ {World Capture C : Type 0} (to_string : TransportError → String) where
  unfoldable pub queue_target_connect :
      ℕ → SenderTarget → SenderManager World Capture C → SenderManager World Capture C
  unfolding insert_pending new_pending
  queue_target_connect now target m =
      if is_busy (state_for target.receiver_id m.targets)
      then m
      else record m { targets = insert_pending (new_pending target now) m.targets }

  unfoldable pub detach :
      String
      → Option (ManagedTargetSession C)
      → SenderManager World Capture C
      → SenderManager World Capture C
  detach reason none m = m
  detach reason (some session) m = record m { detached = (session, reason) ∷ m.detached }

  abbrev pub set_mirror :
      LocalMirrorState
      → Option String
      → SenderManager World Capture C
      → SenderManager World Capture C
  set_mirror state last_error m = record m {
    shared_snapshot = record m.shared_snapshot {
      local_mirror = record m.shared_snapshot.local_mirror {
        state = state;
        last_error = last_error;
      };
    };
  }

  -- A control for the mirror's worker, and the state while it is under way.
  unfoldable pub order_mirror :
      Bool
      → LocalMirrorState
      → LocalMirrorControl
      → SenderManager World Capture C
      → SenderManager World Capture C
  order_mirror true state control m =
      set_mirror state m.shared_snapshot.local_mirror.last_error (record m {
        local_mirror_branch = record m.local_mirror_branch {
          controls = control ∷ m.local_mirror_branch.controls;
        };
      })
  order_mirror false state control m =
      set_mirror LocalMirrorState.error (some (to_string channel_closed)) m

  unfoldable pub enable_mirror :
      Bool → Bool → SenderManager World Capture C → SenderManager World Capture C
  unfolding order_mirror
  enable_mirror runs true m =
      order_mirror runs LocalMirrorState.starting (LocalMirrorControl.start m.local_mirror_request)
        m
  enable_mirror runs false m = order_mirror runs LocalMirrorState.stopping LocalMirrorControl.stop m

  -- A command other than `Shutdown`.
  unfoldable pub on_command :
      Bool → ℕ → SenderCommand → SenderManager World Capture C → SenderManager World Capture C
  unfolding queue_target_connect detach enable_mirror
  on_command runs now (add_target target) m = queue_target_connect now target m
  on_command runs now (remove_target id) m =
      detach "sender removed target" (active_of (get id m.targets))
        (record m { targets = remove id m.targets })
  on_command runs now (set_local_mirror_enabled enabled) m =
      let m' : SenderManager World Capture C = record m {
        shared_snapshot = record m.shared_snapshot {
          local_mirror = record m.shared_snapshot.local_mirror {
            desired_enabled = enabled;
            last_error = none;
          };
        };
      } in
      if is_some m.capture then enable_mirror runs enabled m' else m'
  on_command runs now (set_local_mirror_target target_id) m =
      let m' : SenderManager World Capture C = record m {
        local_mirror_request = record m.local_mirror_request { target_id = target_id };
        shared_snapshot = record m.shared_snapshot {
          local_mirror = record m.shared_snapshot.local_mirror {
            playback_target_id = target_id;
            last_error = none;
          };
        };
      } in
      if is_some m.capture
      then (if m.shared_snapshot.local_mirror.desired_enabled
          then enable_mirror runs true m'
          else m')
      else m'
  on_command runs now (set_local_device_id id) m = record m {
    connect_request = record m.connect_request { local_device_id = some id };
  }
  on_command runs now (set_quality_preset quality) m = record m {
    config = record m.config { quality = quality };
    connect_request = record m.connect_request { quality = quality };
  }
  on_command runs now shutdown m = m

  -- Whether the manager stops, and how it is then.
  unfoldable pub process_commands :
      Bool
      → ℕ
      → List SenderCommand
      → SenderManager World Capture C
      → Bool × SenderManager World Capture C
  unfolding on_command
  process_commands runs now [] m = (false, m)
  process_commands runs now (command ∷ rest) m =
      let served = process_commands runs now rest (on_command runs now command m) in
      if is_shutdown command
      then (
        true,
        record m {
          shared_snapshot = record m.shared_snapshot { state = StreamSessionState.stopping };
        },
      )
      else served

  unfoldable pub spawn :
      String
      → Option PendingTargetSession
      → SenderManager World Capture C
      → SenderManager World Capture C
  unfolding mark_in_flight insert
  spawn id none m = m
  spawn id (some p) m =
      let p' = mark_in_flight p in
      record m {
        targets = insert id (pending p') m.targets;
        spawned =
            (record {
              target = p.target;
              attempt_count = p'.snapshot.attempt_count;
              request = m.connect_request;
            })
            ∷ m.spawned;
      }

  unfoldable pub spawn_all :
      List String → SenderManager World Capture C → SenderManager World Capture C
  unfolding spawn
  spawn_all [] m = m
  spawn_all (id ∷ ids) m = spawn_all ids (spawn id (pending_of (get id m.targets)) m)

  unfoldable pub process_pending_targets :
      ℕ → SenderManager World Capture C → SenderManager World Capture C
  unfolding spawn_all
  process_pending_targets now m = spawn_all (due_pending_targets now m.targets) m
