-- ===== src/Sender/Manager.antt =====
-- crates/synchrosonic-transport/src/sender.rs: `SenderManager`. What reaches it in a round of `run`
-- from other threads, and the clock, is a `Round`; the capture backend is a parameter, each call of
-- which may change the world. An attempt to connect is spawned as a request; its result comes in a
-- later round. Log output is left out.
pub mod Commands
pub mod Results
pub mod Streaming
pub mod Run
pub mod Every
pub mod Due
pub mod Attempts
pub mod Outcomes
pub mod Rounds
pub mod Lifetime
use audio_share.Base.{
  ℕ, ◌+◌, ◌*◌, max, Bool, true, false, List, [], ◌∷◌, Option, none, some, String, Result, ok, err,
  is_some, if◌then◌else◌,
}
use audio_share.Stream.{Ratio, packet_duration, millis}
use audio_share.Config.{TransportConfig}
use audio_share.Receiver.State.{PlaybackStartRequest}
use audio_share.Session.{
  StreamSessionSnapshot, StreamSessionState, LocalMirrorState, LocalMirrorSnapshot, no_session,
  no_mirror,
}
use audio_share.Config.{QualityPreset}
use audio_share.Protocol.{TransportError, channel_closed}
use audio_share.Fanout.Channel.{Flume}
use audio_share.Fanout.Queue
use audio_share.Fanout.Queue.{BufferedBranchQueue}
use audio_share.Fanout.Mirror.{FanoutAudioFrame, LocalMirrorControl, LocalMirrorEvent}
use audio_share.Sender.Policy.{
  SenderTarget, CaptureSettings, TargetConnectFailure, receiver_stream_config,
  branch_queue_capacity,
}
use audio_share.Sender.Target.{ManagedTargetSession, Arrived}
use audio_share.Sender.Connect.{TargetConnectRequest}
use audio_share.Sender.Targets.{Entries}

pub data SenderCommand : Type 0 where
  add_target : SenderTarget → SenderCommand
  remove_target : String → SenderCommand
  set_local_mirror_enabled : Bool → SenderCommand
  set_local_mirror_target : Option String → SenderCommand
  set_local_device_id : String → SenderCommand
  set_quality_preset : QualityPreset → SenderCommand
  shutdown : SenderCommand

pub data TargetConnectResult (C : Type 0) : Type 0 where
  connected : ManagedTargetSession C → TargetConnectResult C
  failed : TargetConnectFailure → TargetConnectResult C

-- `AudioFrame` of crates/synchrosonic-core/src/audio.rs, as far as the sender reads it.
pub record AudioFrame : Type 0 where
  pub sequence : ℕ
  pub captured_at : ℕ
  pub payload : List ℕ

-- `AudioError`, with the text of every other variant.
pub data CaptureError : Type 0 where
  capture_ended : CaptureError
  other : String → CaptureError

-- `AudioBackend` and `AudioCapture`.
pub record Backend (World Capture : Type 0) : Type 0 where
  pub start_capture : CaptureSettings → World → Result String Capture × World
  pub try_recv_frame : Capture → World → Result CaptureError (Option AudioFrame) × World
  pub stop_capture : Capture → World → World

-- `controls` are those sent to the mirror's worker, the last one first.
pub record LocalMirrorBranch (C : Type 0) : Type 0 where
  pub queue : BufferedBranchQueue C
  pub controls : List LocalMirrorControl

-- An attempt to connect that runs in a thread of its own.
pub record Spawned : Type 0 where
  pub target : SenderTarget
  pub attempt_count : ℕ
  pub request : TargetConnectRequest

pub record SenderManager (World Capture C : Type 0) : Type 0 where
  pub world : World
  pub config : TransportConfig
  pub capture_settings : CaptureSettings
  pub local_mirror_request : PlaybackStartRequest
  pub local_mirror_branch : LocalMirrorBranch C
  pub capture : Option Capture
  pub capture_started_unix_ms : Option ℕ
  pub snapshot : StreamSessionSnapshot
  pub shared_snapshot : StreamSessionSnapshot
  pub connect_request : TargetConnectRequest
  pub targets : Entries C
  -- Those spawned, and the sessions shut down in threads of their own, the last one first.
  pub spawned : List Spawned
  pub detached : List (ManagedTargetSession C × String)

pub record Round (C : Type 0) : Type 0 where
  pub commands : List SenderCommand
  pub results : List (TargetConnectResult C)
  pub mirror_events : List LocalMirrorEvent
  -- Whether the mirror's worker still takes controls.
  pub mirror_runs : Bool
  pub arrived : String → Arrived
  -- The frames that a branch's worker takes while one is pushed; `none` is the mirror.
  pub taken : Option String → ℕ × ℕ
  pub now : ℕ
  pub now_unix_ms : ℕ

abbrev pub mirror_state : Bool → LocalMirrorState
mirror_state true = LocalMirrorState.idle
mirror_state false = LocalMirrorState.disabled

module _ {World Capture C : Type 0} (flume : Flume C FanoutAudioFrame) (ratio : Ratio) where
  -- `SenderManager::new`; the published snapshot is what the caller has stored.
  unfoldable pub new :
      World
      → String
      → TransportConfig
      → CaptureSettings
      → String
      → String
      → Option String
      → Option String
      → StreamSessionSnapshot
      → SenderManager World Capture C
  unfolding receiver_stream_config
  new world backend_name config settings sender_name session_id mirror_target local_device_id
        snapshot =
      let stream = receiver_stream_config settings in
      let monitoring = settings.outputs.local_monitoring in
      record {
        world = world;
        config = config;
        capture_settings = settings;
        local_mirror_request = record {
          stream = stream;
          target_id = mirror_target;
          latency_ms = settings.target_latency_ms;
        };
        local_mirror_branch = record {
          queue =
              Queue.new flume
                (branch_queue_capacity (packet_duration ratio stream) settings.target_latency_ms);
          controls = [];
        };
        capture = none;
        capture_started_unix_ms = none;
        snapshot = snapshot;
        shared_snapshot = record no_session {
          session_id = some session_id;
          stream = some stream;
          local_mirror = record no_mirror {
            desired_enabled = monitoring;
            playback_target_id = mirror_target;
            state = mirror_state monitoring;
            playback_backend = some backend_name;
          };
        };
        connect_request = record {
          manager_session_id = session_id;
          sender_name = sender_name;
          stream_config = stream;
          connect_timeout = millis (max config.connect_timeout_ms 250);
          quality = config.quality;
          target_latency_ms = config.target_latency_ms;
          heartbeat_interval_ms = config.heartbeat_interval_ms;
          local_device_id = local_device_id;
        };
        targets = [];
        spawned = [];
        detached = [];
      }
