-- ===== src/Fanout/Mirror.antt =====
-- crates/synchrosonic-transport/src/fanout.rs: `local_mirror_worker_loop`. The playback engine is a
-- parameter, each call of which may change the world. What the worker meets in a round of its loop
-- is a `Round`: the controls that `try_recv` gives, and what its wait on the controls ends with.
use audio_share.Base.{
  ℕ, suc, Bool, true, false, List, [], ◌∷◌, Option, none, some, String, Result, ok, err, length,
}
use audio_share.Receiver.State.{PlaybackStartRequest}
use audio_share.Session.{LocalMirrorState}
use audio_share.Fanout.Channel.{Flume}
use audio_share.Fanout.Queue.{drain}

pub record FanoutAudioFrame : Type 0 where
  pub sequence : ℕ
  pub captured_at_ms : ℕ
  pub captured_at_unix_ms : ℕ
  pub payload : List ℕ

pub data LocalMirrorControl : Type 0 where
  start : PlaybackStartRequest → LocalMirrorControl
  stop shutdown : LocalMirrorControl

pub data LocalMirrorEvent : Type 0 where
  started : String → Option String → LocalMirrorEvent
  played : ℕ → LocalMirrorEvent
  state_changed : LocalMirrorState → LocalMirrorEvent
  error : String → LocalMirrorEvent

-- `PlaybackEngine` and `PlaybackSink`; an error is its text.
pub record Engine (World Sink : Type 0) : Type 0 where
  pub backend_name : String
  pub start_stream : PlaybackStartRequest → World → Result String Sink × World
  pub write : Sink → List ℕ → World → Result String (Unit {0}) × World
  pub stop_sink : Sink → World → Result String (Unit {0}) × World

-- `recv_timeout`
pub data Wait (A : Type 0) : Type 0 where
  arrived : A → Wait A
  timeout closed : Wait A

pub record Round : Type 0 where
  pub controls : List LocalMirrorControl
  pub control_wait : Wait LocalMirrorControl
  -- Whether all senders of frames are gone.
  pub frames_closed : Bool

-- `events` are those sent, the last one first.
pub record MirrorWorker (World Sink C : Type 0) : Type 0 where
  pub world : World
  pub enabled : Bool
  pub sink : Option Sink
  pub frames : C
  pub events : List LocalMirrorEvent

-- The loop goes on, or the function has returned.
pub data Flow (A : Type 0) : Type 0 where
  running : A → Flow A
  returned : A → Flow A

module _ {World Sink C : Type 0} (engine : Engine World Sink)
    (flume : Flume C FanoutAudioFrame) where
  abbrev Worker : Type 0
  Worker = MirrorWorker World Sink C

  abbrev pub send : LocalMirrorEvent → Worker → Worker
  send event w = record w { events = event ∷ w.events }

  unfoldable pub clear_stale_frames : Worker → Worker
  clear_stale_frames w = record w { frames = drain flume (suc (flume.len w.frames)) w.frames }

  unfoldable pub send_error : Result String (Unit {0}) → Worker → Worker
  send_error (ok u) w = w
  send_error (err e) w = send (error e) w

  -- `if let Some(mut sink) = sink.take() { let _ = sink.stop(); }`
  unfoldable pub take_and_stop : Option Sink → Worker → Worker
  take_and_stop none w = w
  take_and_stop (some sink) w = record w { sink = none; world = (engine.stop_sink sink w.world).1 }

  -- The same, with the error reported.
  unfoldable pub take_and_report : Option Sink → Worker → Worker
  unfolding send_error
  take_and_report none w = w
  take_and_report (some sink) w =
      let (r, world) = engine.stop_sink sink w.world in
      send_error r (record w { sink = none; world = world })

  -- `engine.start_stream`, and what follows from its result. `enabled = false` after a failure
  -- stands in one of the two places where this is done; in the other it is `false` already.
  unfoldable pub start_mirror : PlaybackStartRequest → Worker → Worker
  unfolding clear_stale_frames
  start_mirror request w =
      let (r, world) = engine.start_stream request w.world in
      elim r [
        | ok sink ↦ send (state_changed LocalMirrorState.mirroring) (
            send (started engine.backend_name request.target_id)
              (record w { world = world; sink = some sink; enabled = true }))
        | err e ↦ send (error e) (clear_stale_frames (record w { world = world; enabled = false }))
      ]

  -- A control that `try_recv` gives.
  unfoldable pub on_control : LocalMirrorControl → Worker → Flow Worker
  unfolding take_and_stop start_mirror take_and_report clear_stale_frames
  on_control (start request) w = running (start_mirror request (take_and_stop w.sink w))
  on_control stop w = running (
      send (state_changed LocalMirrorState.disabled)
        (take_and_report w.sink (clear_stale_frames (record w { enabled = false }))))
  on_control shutdown w = returned (take_and_stop w.sink w)

  abbrev pub and_then : (Worker → Flow Worker) → Flow Worker → Flow Worker
  and_then f (running w) = f w
  and_then f (returned w) = returned w

  unfoldable pub on_controls : List LocalMirrorControl → Worker → Flow Worker
  unfolding on_control
  on_controls [] w = running w
  on_controls (c ∷ cs) w = and_then (on_controls cs) (on_control c w)

  -- The wait while the mirror is not enabled.
  unfoldable pub on_idle : Wait LocalMirrorControl → Worker → Flow Worker
  unfolding start_mirror
  on_idle (arrived (start request)) w = running (start_mirror request w)
  on_idle (arrived stop) w = running (send (state_changed LocalMirrorState.disabled) w)
  on_idle (arrived shutdown) w = returned w
  on_idle timeout w = running w
  on_idle closed w = returned w

  unfoldable pub play : Option Sink → FanoutAudioFrame → Worker → Worker
  unfolding clear_stale_frames
  play none frame w =
      send (error "local mirror sink was unavailable during playback")
        (clear_stale_frames (record w { enabled = false }))
  play (some sink) frame w =
      let (r, world) = engine.write sink frame.payload w.world in
      elim r [
        | ok u ↦ send (played (length frame.payload)) (record w { world = world })
        | err e ↦
            send (error e)
              (record (clear_stale_frames (record w { world = world; enabled = false })) {
                sink = none;
              })
      ]

  -- `frame_rx.recv_timeout`
  unfoldable pub on_frame : Bool → Option FanoutAudioFrame × C → Worker → Flow Worker
  unfolding play
  on_frame gone (some frame, c) w = running (play w.sink frame (record w { frames = c }))
  on_frame true (none, c) w = returned (record w { frames = c })
  on_frame false (none, c) w = running (record w { frames = c })

  abbrev pub wait : Bool → Round → Worker → Flow Worker
  wait false round w = on_idle round.control_wait w
  wait true round w = on_frame round.frames_closed (flume.try_recv w.frames) w

  unfoldable pub step : Round → Worker → Flow Worker
  unfolding on_controls on_idle on_frame
  step round w = and_then (λ w'. wait w'.enabled round w') (on_controls round.controls w)

  unfoldable pub local_mirror_worker_loop : List Round → Worker → Flow Worker
  unfolding step
  local_mirror_worker_loop [] w = running w
  local_mirror_worker_loop (round ∷ rounds) w =
      and_then (local_mirror_worker_loop rounds) (step round w)

unfoldable pub new_worker : {World Sink C : Type 0} → World → C → MirrorWorker World Sink C
new_worker world frames = record {
  world = world;
  enabled = false;
  sink = none;
  frames = frames;
  events = [];
}
