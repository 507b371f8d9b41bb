-- ===== src/Sender/Manager/Lifetime.antt =====
-- Lemmas about the rounds of `SenderManager::run` of crates/synchrosonic-transport/src/sender.rs: what
-- holds of the targets from the first round on.
use audio_share.Base.{ℕ, ◌≤◌, refl, List, [], ◌∷◌, Option, String, Result, ok, err, All}
use audio_share.Stream.{Ratio}
use audio_share.Session.{StreamSessionSnapshot}
use audio_share.Config.{TransportConfig}
use audio_share.Protocol.{TransportError}
use audio_share.Protocol.Messages.{Codecs}
use audio_share.Fanout.Channel.{Flume}
use audio_share.Fanout.Mirror.{FanoutAudioFrame}
use audio_share.Sender.Policy.{CaptureSettings, TargetConnectFailure, max_connect_attempts}
use audio_share.Sender.Target.{ManagedTargetSession}
use audio_share.Sender.Connect.{Attempt, connect_target}
use audio_share.Sender.ConnectLaws.{IsOutcome, connect_target-IsOutcome}
use audio_share.Sender.Manager.{
  SenderManager, TargetConnectResult, connected, failed, Backend, Round, Spawned, new,
}
use audio_share.Sender.Manager.Commands.{process_commands, process_pending_targets}
use audio_share.Sender.Manager.Results.{process_connect_results, process_local_mirror_events}
use audio_share.Sender.Manager.Attempts.{
  IsSoundManager, IsSoundAttempt, keeps-IsSoundManager, process_commands-IsSoundManager,
  process_pending_targets-IsSoundManager,
}
use audio_share.Sender.Manager.Outcomes.{
  IsSoundResult, process_connect_results-IsSoundManager, process_local_mirror_events-IsSoundManager,
}
use audio_share.Sender.Manager.Rounds.{
  tick_targets-IsSoundManager, capture_and_fan_out-IsSoundManager,
  stop_capture_if_idle-IsSoundManager,
}
use audio_share.Sender.Manager.Streaming.{tick_targets, capture_and_fan_out, stop_capture_if_idle}
use audio_share.Sender.Manager.Run.{refresh_snapshot, serve}

abbrev pub result_of :
    {C : Type 0} → Result TargetConnectFailure (ManagedTargetSession C) → TargetConnectResult C
result_of (ok s) = connected s
result_of (err f) = failed f

module _ {World Capture C : Type 0} (backend : Backend World Capture)
    (flume : Flume C FanoutAudioFrame) (codecs : Codecs) (ratio : Ratio)
    (to_string : TransportError → String) (show : ℕ → String) where
  -- A result is what `connect` returned for one of the attempts that were spawned.
  pub data IsAnswer : List Spawned → TargetConnectResult C → Type 0 where
    answers :
        (a : Spawned) (rest : List Spawned) (attempt : Attempt)
        → IsAnswer (a ∷ rest) (
            result_of (
              connect_target flume codecs ratio to_string show a.target a.attempt_count a.request
                attempt))
    earlier :
        (a : Spawned) (rest : List Spawned) (r : TargetConnectResult C)
        → IsAnswer rest r
        → IsAnswer (a ∷ rest) r

  -- The managers that a sender can have between two rounds: a new one, what a round leaves whose
  -- results answer attempts spawned before it, and what commands leave.
  pub data Lives : SenderManager World Capture C → Type 0 where
    born :
        (world : World) (backend_name : String) (config : TransportConfig)
        (settings : CaptureSettings) (sender_name session_id : String)
        (mirror_target local_device_id : Option String) (snapshot : StreamSessionSnapshot)
        → Lives (
            new flume ratio world backend_name config settings sender_name session_id mirror_target
              local_device_id snapshot)
    commanded :
        (round : Round C) (m : SenderManager World Capture C)
        → Lives m
        → Lives (process_commands to_string round.mirror_runs round.now round.commands m).1
    served :
        (round : Round C) (m : SenderManager World Capture C)
        → Lives m
        → All (IsAnswer m.spawned) round.results
        → Lives (serve backend flume to_string round m)

  outcome-IsSoundResult :
      (a : Spawned) (attempt : Attempt) (r : Result TargetConnectFailure (ManagedTargetSession C))
      → IsOutcome flume codecs ratio to_string show a.target a.attempt_count a.request attempt r
      → a.attempt_count ≤ max_connect_attempts
      → IsSoundResult (result_of r)
  unfolding IsOutcome
  outcome-IsSoundResult a attempt (ok s) o le =
      let t = o.of_target in let (i, n) = o.of_attempt in (rw (i, t) refl, rw n le)
  outcome-IsSoundResult a attempt (err f) o le = let (i, n) = o.of_attempt in rw n le

  IsAnswer-IsSoundResult :
      {spawned : List Spawned} {r : TargetConnectResult C}
      → IsAnswer spawned r
      → All IsSoundAttempt spawned
      → IsSoundResult r
  IsAnswer-IsSoundResult (answers a rest attempt) h =
      outcome-IsSoundResult a attempt _
        (connect_target-IsOutcome flume codecs ratio to_string show a.target a.attempt_count
          a.request attempt)
        h.0.1
  IsAnswer-IsSoundResult (earlier a rest r i) h = IsAnswer-IsSoundResult i h.1

  answers-IsSoundResult :
      (spawned : List Spawned) (rs : List (TargetConnectResult C))
      → All (IsAnswer spawned) rs
      → All IsSoundAttempt spawned
      → All IsSoundResult rs
  answers-IsSoundResult spawned [] i h = tt
  answers-IsSoundResult spawned (r ∷ rs) i h =
      (IsAnswer-IsSoundResult i.0 h, answers-IsSoundResult spawned rs i.1 h)

  refresh_snapshot-IsSoundManager :
      (m : SenderManager World Capture C)
      → IsSoundManager m
      → IsSoundManager (refresh_snapshot backend flume to_string m)
  unfolding refresh_snapshot
  refresh_snapshot-IsSoundManager m h = keeps-IsSoundManager refl refl h

  serve-IsSoundManager :
      (round : Round C) (m : SenderManager World Capture C)
      → All IsSoundResult round.results
      → IsSoundManager m
      → IsSoundManager (serve backend flume to_string round m)
  unfolding serve
  serve-IsSoundManager round m p h =
      let m1 = process_pending_targets to_string round.now m in
      let m2 =
        process_connect_results backend to_string round.mirror_runs round.now round.now_unix_ms
          round.results m1 in
      let m3 = process_local_mirror_events backend to_string round.mirror_events m2 in
      let m4 = tick_targets backend flume to_string round.arrived round.now m3 in
      let m5 = capture_and_fan_out backend flume to_string round.taken round.now_unix_ms m4 in
      let h1 = process_pending_targets-IsSoundManager to_string round.now m h in
      let h2 =
        process_connect_results-IsSoundManager backend to_string round.mirror_runs round.now
          round.now_unix_ms round.results m1 p h1 in
      let h3 =
        process_local_mirror_events-IsSoundManager backend to_string round.mirror_events m2 h2 in
      let h4 = tick_targets-IsSoundManager backend flume to_string round.arrived round.now m3 h3 in
      let h5 =
        capture_and_fan_out-IsSoundManager backend flume to_string round.taken round.now_unix_ms m4
          h4 in
      refresh_snapshot-IsSoundManager (stop_capture_if_idle backend flume to_string m5)
        (stop_capture_if_idle-IsSoundManager backend flume to_string m5 h5)

  -- At any time of a sender's life, whatever the receivers, the network, the capture and the
  -- user do, each target stands once and under its receiver's id, counts at most three attempts
  -- to connect, and no attempt is spawned as more than the third of its target.
  pub Lives-IsSoundManager : {m : SenderManager World Capture C} → Lives m → IsSoundManager m
  unfolding new
  Lives-IsSoundManager (born world b config settings s i t l snapshot) = record {
    targets = tt;
    distinct = tt;
    spawned = tt;
  }
  Lives-IsSoundManager (commanded round m l) =
      process_commands-IsSoundManager to_string round.mirror_runs round.now round.commands m
        (Lives-IsSoundManager l)
  Lives-IsSoundManager (served round m l answered) =
      let h = Lives-IsSoundManager l in
      serve-IsSoundManager round m
        (answers-IsSoundResult m.spawned round.results answered h.spawned) h
