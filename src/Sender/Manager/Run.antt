-- ===== src/Sender/Manager/Run.antt =====
-- crates/synchrosonic-transport/src/sender.rs: `refresh_snapshot`, `shutdown_all` and `run`.
use audio_share.Base.{Bool, true, false, List, [], ◌∷◌, none, String, is_some}
use audio_share.Session.{StreamSessionState, aggregate_metrics, no_metrics}
use audio_share.Protocol.{TransportError}
use audio_share.Fanout.Channel.{Flume}
use audio_share.Fanout.Queue
use audio_share.Fanout.Mirror.{FanoutAudioFrame, LocalMirrorControl}
use audio_share.Sender.Policy.{derive_manager_state, finalize_local_mirror_state}
use audio_share.Sender.Targets.{active_ids, active_of, get, remove, collect_snapshots}
use audio_share.Sender.Manager.{SenderManager, Backend, Round}
use audio_share.Sender.Manager.Commands.{process_commands, process_pending_targets, detach}
use audio_share.Sender.Manager.Results.{process_connect_results, process_local_mirror_events}
use audio_share.Sender.Manager.Streaming.{
  tick_targets, capture_and_fan_out, stop_capture_if_idle, stop_capture,
}

module _ {World Capture C : Type 0} (backend : Backend World Capture)
    (flume : Flume C FanoutAudioFrame) (to_string : TransportError → String) where
  unfoldable pub refresh_snapshot : SenderManager World Capture C → SenderManager World Capture C
  unfolding collect_snapshots derive_manager_state finalize_local_mirror_state aggregate_metrics
  refresh_snapshot m =
      let targets = collect_snapshots m.targets in
      let shared = record m.shared_snapshot {
        targets = targets;
        metrics = aggregate_metrics targets;
        state = derive_manager_state targets;
        local_mirror =
            finalize_local_mirror_state
              (record m.shared_snapshot.local_mirror {
                buffer = Queue.snapshot flume m.local_mirror_branch.queue;
              })
              (is_some m.capture);
      } in
      record m { shared_snapshot = shared; snapshot = shared }

  -- `shutdown_with_stop`, which here is waited for.
  unfoldable pub stop_targets :
      List String → SenderManager World Capture C → SenderManager World Capture C
  unfolding detach remove
  stop_targets [] m = m
  stop_targets (id ∷ ids) m = stop_targets ids (
      detach to_string "sender session manager stopping" (active_of (get id m.targets))
        (record m { targets = remove id m.targets }))

  unfoldable pub shutdown_all : SenderManager World Capture C → SenderManager World Capture C
  unfolding stop_targets active_ids finalize_local_mirror_state
  shutdown_all m =
      let world = stop_capture backend flume to_string m.capture m.world in
      let m' = stop_targets (active_ids m.targets) (record m { world = world; capture = none }) in
      let shared = record m'.shared_snapshot {
        targets = [];
        metrics = no_metrics;
        state = StreamSessionState.idle;
        last_error = none;
        local_mirror = finalize_local_mirror_state m'.shared_snapshot.local_mirror false;
      } in
      record m' {
        targets = [];
        local_mirror_branch = record m'.local_mirror_branch {
          controls = LocalMirrorControl.shutdown ∷ m'.local_mirror_branch.controls;
          queue = Queue.clear flume m'.local_mirror_branch.queue;
        };
        shared_snapshot = shared;
        snapshot = shared;
      }

  -- The round after the commands.
  unfoldable pub serve : Round C → SenderManager World Capture C → SenderManager World Capture C
  unfolding process_pending_targets process_connect_results process_local_mirror_events tick_targets
      capture_and_fan_out stop_capture_if_idle refresh_snapshot
  serve round m =
      let m1 = process_pending_targets to_string round.now m in
      let m2 =
        process_connect_results backend to_string round.mirror_runs round.now round.now_unix_ms
          round.results m1 in
      let m3 = process_local_mirror_events backend to_string round.mirror_events m2 in
      let m4 = tick_targets backend flume to_string round.arrived round.now m3 in
      let m5 = capture_and_fan_out backend flume to_string round.taken round.now_unix_ms m4 in
      refresh_snapshot (stop_capture_if_idle backend flume to_string m5)

  abbrev pub go_on :
      (SenderManager World Capture C → SenderManager World Capture C)
      → Round C
      → Bool × SenderManager World Capture C
      → SenderManager World Capture C
  go_on rest round (true, m) = shutdown_all m
  go_on rest round (false, m) = rest (serve round m)

  -- The rounds that the manager lives through.
  unfoldable pub run :
      List (Round C) → SenderManager World Capture C → SenderManager World Capture C
  unfolding process_commands serve shutdown_all
  run [] m = m
  run (round ∷ rounds) m =
      go_on (run rounds) round
        (process_commands to_string round.mirror_runs round.now round.commands m)
