-- ===== src/Sender/Manager/Streaming.antt =====
-- crates/synchrosonic-transport/src/sender.rs: `tick_targets`, `capture_and_fan_out` and
-- `stop_capture_if_idle`.
use audio_share.Base.{
  ℕ, ◌+◌, ◌-◌, ◌/◌, min, max, Bool, true, false, ◌&&◌, ◌||◌, List, [], ◌∷◌, Option, none, some,
  String, Result, ok, err, if◌then◌else◌,
}
use audio_share.Stream.{u64, u64_mod, millis}
use audio_share.Session.{StreamTargetHealth, LocalMirrorState}
use audio_share.Protocol.{TransportError}
use audio_share.Fanout.Channel.{Flume}
use audio_share.Fanout.Queue
use audio_share.Fanout.Mirror.{FanoutAudioFrame, LocalMirrorControl}
use audio_share.Sender.Target.{
  ManagedTargetSession, Arrived, tick, push_frame, set_error, shutdown_immediate,
}
use audio_share.Sender.Targets.{
  active, get, insert, insert_failed, remove, active_ids, active_of, has_active_targets,
  has_pending_targets,
}
use audio_share.Sender.Manager.{
  SenderManager, Backend, AudioFrame, CaptureError, capture_ended, other,
}
use audio_share.Sender.Manager.Results.{fail_all_active_targets, set_last_error}

-- `Starting | Mirroring`
abbrev pub takes_frames : LocalMirrorState → Bool
takes_frames LocalMirrorState.starting = true
takes_frames LocalMirrorState.mirroring = true
takes_frames _ = false

-- `Starting | Mirroring | Stopping`
abbrev pub is_up : LocalMirrorState → Bool
is_up LocalMirrorState.starting = true
is_up LocalMirrorState.mirroring = true
is_up LocalMirrorState.stopping = true
is_up _ = false

abbrev pub or_now : Option ℕ → ℕ → ℕ
or_now none now = now
or_now (some t) now = t

module _ {World Capture C : Type 0} (backend : Backend World Capture)
    (flume : Flume C FanoutAudioFrame) (to_string : TransportError → String) where
  abbrev pub note_tick :
      String
      → Bool × ManagedTargetSession C
      → List String × SenderManager World Capture C
      → List String × SenderManager World Capture C
  note_tick id (true, session) (ids, m) =
      (ids, record m { targets = insert id (active session) m.targets })
  note_tick id (false, session) (ids, m) =
      (id ∷ ids, record m { targets = insert id (active session) m.targets })

  unfoldable pub tick_target :
      (String → Arrived)
      → ℕ
      → String
      → Option (ManagedTargetSession C)
      → List String × SenderManager World Capture C
      → List String × SenderManager World Capture C
  unfolding tick insert
  tick_target arrived now id none r = r
  tick_target arrived now id (some session) (ids, m) =
      note_tick id
        (tick flume to_string (arrived id) now (millis (max m.config.heartbeat_interval_ms 250))
          session)
        (ids, m)

  -- The targets that no longer stream, the last one first.
  unfoldable pub tick_each :
      (String → Arrived)
      → ℕ
      → List String
      → List String × SenderManager World Capture C
      → List String × SenderManager World Capture C
  unfolding tick_target
  tick_each arrived now [] r = r
  tick_each arrived now (id ∷ ids) (failed, m) =
      tick_each arrived now ids
        (tick_target arrived now id (active_of (get id m.targets)) (failed, m))

  unfoldable pub drop_target :
      String
      → Option (ManagedTargetSession C)
      → SenderManager World Capture C
      → SenderManager World Capture C
  unfolding shutdown_immediate insert_failed remove
  drop_target id none m = record m { targets = remove id m.targets }
  drop_target id (some session) m =
      let snapshot = shutdown_immediate flume to_string session in
      set_last_error backend to_string snapshot.last_error
        (record m { targets = insert_failed snapshot (remove id m.targets) })

  unfoldable pub drop_targets :
      List String → SenderManager World Capture C → SenderManager World Capture C
  unfolding drop_target
  drop_targets [] m = m
  drop_targets (id ∷ ids) m = drop_targets ids (drop_target id (active_of (get id m.targets)) m)

  abbrev pub in_order : List String → List String → List String
  in_order [] acc = acc
  in_order (id ∷ ids) acc = in_order ids (id ∷ acc)

  abbrev pub drop_noted :
      List String × SenderManager World Capture C → SenderManager World Capture C
  drop_noted (ids, m) = drop_targets (in_order ids []) m

  unfoldable pub tick_targets :
      (String → Arrived) → ℕ → SenderManager World Capture C → SenderManager World Capture C
  unfolding tick_each active_ids drop_targets
  tick_targets arrived now m = drop_noted (tick_each arrived now (active_ids m.targets) ([], m))

  unfoldable pub fan_frame : ℕ → Option ℕ → AudioFrame → FanoutAudioFrame
  fan_frame now_unix_ms started_unix_ms frame =
      let captured_at_ms = u64 (frame.captured_at / 1000000) in
      record {
        sequence = frame.sequence;
        captured_at_ms = captured_at_ms;
        captured_at_unix_ms =
            min (or_now started_unix_ms now_unix_ms + captured_at_ms) (u64_mod - 1);
        payload = frame.payload;
      }

  -- What the push makes of the mirror's buffer is read again by `refresh_snapshot`.
  unfoldable pub fan_to_mirror :
      ℕ × ℕ → FanoutAudioFrame → SenderManager World Capture C → SenderManager World Capture C
  fan_to_mirror (sooner, later) frame m =
      let mirror = m.shared_snapshot.local_mirror in
      if mirror.desired_enabled && takes_frames mirror.state
      then record m {
        local_mirror_branch = record m.local_mirror_branch {
          queue = (Queue.push flume sooner later frame m.local_mirror_branch.queue).1;
        };
      }
      else m

  abbrev pub note_push :
      String
      → Result TransportError (Unit {0}) × ManagedTargetSession C
      → List String × SenderManager World Capture C
      → List String × SenderManager World Capture C
  note_push id (ok u, session) (ids, m) =
      (ids, record m { targets = insert id (active session) m.targets })
  note_push id (err e, session) (ids, m) = (
    id ∷ ids,
    record m {
      targets =
          insert id (active (set_error (to_string e) StreamTargetHealth.error session)) m.targets;
    },
  )

  unfoldable pub fan_to_target :
      (Option String → ℕ × ℕ)
      → FanoutAudioFrame
      → String
      → Option (ManagedTargetSession C)
      → List String × SenderManager World Capture C
      → List String × SenderManager World Capture C
  unfolding push_frame insert set_error
  fan_to_target taken frame id none r = r
  fan_to_target taken frame id (some session) r =
      note_push id
        (push_frame flume to_string (taken (some id)).0 (taken (some id)).1 frame session) r

  unfoldable pub fan_to_each :
      (Option String → ℕ × ℕ)
      → FanoutAudioFrame
      → List String
      → List String × SenderManager World Capture C
      → List String × SenderManager World Capture C
  unfolding fan_to_target
  fan_to_each taken frame [] r = r
  fan_to_each taken frame (id ∷ ids) (failed, m) =
      fan_to_each taken frame ids
        (fan_to_target taken frame id (active_of (get id m.targets)) (failed, m))

  unfoldable pub fan_out :
      (Option String → ℕ × ℕ)
      → FanoutAudioFrame
      → SenderManager World Capture C
      → SenderManager World Capture C
  unfolding fan_to_mirror fan_to_each active_ids drop_targets
  fan_out taken frame m =
      drop_noted
        (fan_to_each taken frame (active_ids m.targets) ([], fan_to_mirror (taken none) frame m))

  abbrev pub on_received :
      (Option String → ℕ × ℕ)
      → ℕ
      → Result CaptureError (Option AudioFrame) × World
      → SenderManager World Capture C
      → SenderManager World Capture C
  on_received taken now_unix_ms (ok none, world) m = record m { world = world }
  on_received taken now_unix_ms (ok (some frame), world) m =
      fan_out taken (fan_frame now_unix_ms m.capture_started_unix_ms frame)
        (record m { world = world })
  on_received taken now_unix_ms (err capture_ended, world) m =
      fail_all_active_targets backend to_string "capture stream ended" (
        set_last_error backend to_string (some "capture stream ended") (record m { world = world }))
  on_received taken now_unix_ms (err (other e), world) m =
      fail_all_active_targets backend to_string e
        (set_last_error backend to_string (some e) (record m { world = world }))

  abbrev pub on_capture_frame :
      (Option String → ℕ × ℕ)
      → ℕ
      → Option Capture
      → SenderManager World Capture C
      → SenderManager World Capture C
  on_capture_frame taken now_unix_ms none m = m
  on_capture_frame taken now_unix_ms (some capture) m =
      on_received taken now_unix_ms (backend.try_recv_frame capture m.world) m

  unfoldable pub capture_and_fan_out :
      (Option String → ℕ × ℕ) → ℕ → SenderManager World Capture C → SenderManager World Capture C
  unfolding fan_out fan_frame fail_all_active_targets
  capture_and_fan_out taken now_unix_ms m = on_capture_frame taken now_unix_ms m.capture m

  abbrev pub stop_capture : Option Capture → World → World
  stop_capture none world = world
  stop_capture (some capture) world = backend.stop_capture capture world

  -- A control that cannot be sent is let go.
  abbrev pub stop_mirror : Bool → SenderManager World Capture C → SenderManager World Capture C
  stop_mirror false m = m
  stop_mirror true m = record m {
    local_mirror_branch = record m.local_mirror_branch {
      controls = LocalMirrorControl.stop ∷ m.local_mirror_branch.controls;
    };
  }

  unfoldable pub stop_capture_if_idle :
      SenderManager World Capture C → SenderManager World Capture C
  unfolding has_active_targets has_pending_targets
  stop_capture_if_idle m =
      if has_active_targets m.targets || has_pending_targets m.targets
      then m
      else stop_mirror (is_up m.shared_snapshot.local_mirror.state) (record m {
        world = stop_capture m.capture m.world;
        capture = none;
        capture_started_unix_ms = none;
      })
