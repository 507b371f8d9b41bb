-- ===== src/Fanout/MirrorLaws.antt =====
-- Lemmas about `local_mirror_worker_loop` of crates/synchrosonic-transport/src/fanout.rs.
use audio_share.Base.{
  ◌≡◌, refl, ◌∙◌, Bool, true, false, List, [], ◌∷◌, Option, none, some, is_some, arith,
}
use audio_share.Receiver.State.{PlaybackStartRequest}
use audio_share.Fanout.Channel.{Flume}
use audio_share.Fanout.Mirror.{
  FanoutAudioFrame, LocalMirrorControl, start, stop, shutdown, Engine, Wait, arrived, timeout,
  closed, Round, MirrorWorker, Flow, running, returned, clear_stale_frames, send_error,
  take_and_stop, take_and_report, start_mirror, on_control, and_then, on_controls, on_idle, play,
  on_frame, wait, step, local_mirror_worker_loop,
}

module _ {World Sink C : Type 0} (engine : Engine World Sink)
    (flume : Flume C FanoutAudioFrame) where
  -- A sink is open exactly while the mirror is enabled.
  abbrev pub IsPaired : MirrorWorker World Sink C → Type 0
  IsPaired w = is_some w.sink ≡ w.enabled

  -- The worker that runs on after a round.
  abbrev pub IsSettled : Flow (MirrorWorker World Sink C) → Type 0
  IsSettled (running w) = IsPaired w
  IsSettled (returned w) = Unit

  start_mirror-IsPaired :
      (request : PlaybackStartRequest) (w : MirrorWorker World Sink C)
      → w.sink ≡ none
      → IsPaired (start_mirror engine flume request w)
  unfolding start_mirror clear_stale_frames
  start_mirror-IsPaired request w h = ground arith

  take_and_stop-none :
      (s : Option Sink) (w : MirrorWorker World Sink C)
      → w.sink ≡ s
      → (take_and_stop engine flume s w).sink ≡ none
  unfolding take_and_stop
  take_and_stop-none none w h = h
  take_and_stop-none (some s) w h = refl

  take_and_report-IsPaired :
      (s : Option Sink) (w : MirrorWorker World Sink C)
      → w.sink ≡ s
      → w.enabled ≡ false
      → IsPaired (take_and_report engine flume s w)
  unfolding take_and_report send_error
  take_and_report-IsPaired none w h e = rw (h, e) refl
  take_and_report-IsPaired (some s) w h e = ground arith

  cleared :
      (w : MirrorWorker World Sink C)
      → (clear_stale_frames engine flume (record w { enabled = false })).sink ≡ w.sink
  unfolding clear_stale_frames
  cleared w = refl

  is_some-none : (s : Option Sink) → is_some s ≡ false → s ≡ none
  is_some-none none h = refl
  is_some-none (some s) h = absurd (ground arith)

  and_then-IsSettled :
      (f : MirrorWorker World Sink C → Flow (MirrorWorker World Sink C))
      → ((w : MirrorWorker World Sink C) → IsPaired w → IsSettled (f w))
      → (r : Flow (MirrorWorker World Sink C)) → IsSettled r
      → IsSettled (and_then engine flume f r)
  and_then-IsSettled f all (running w) h = all w h
  and_then-IsSettled f all (returned w) h = tt

  on_control-IsSettled :
      (c : LocalMirrorControl) (w : MirrorWorker World Sink C)
      → IsPaired w
      → IsSettled (on_control engine flume c w)
  unfolding on_control
  on_control-IsSettled (start request) w h =
      start_mirror-IsPaired request (take_and_stop engine flume w.sink w)
        (take_and_stop-none w.sink w refl)
  on_control-IsSettled stop w h =
      take_and_report-IsPaired w.sink
        (clear_stale_frames engine flume (record w { enabled = false })) (cleared w) refl
  on_control-IsSettled shutdown w h = tt

  on_controls-IsSettled :
      (cs : List LocalMirrorControl) (w : MirrorWorker World Sink C)
      → IsPaired w
      → IsSettled (on_controls engine flume cs w)
  unfolding on_controls
  on_controls-IsSettled [] w h = h
  on_controls-IsSettled (c ∷ cs) w h =
      and_then-IsSettled (on_controls engine flume cs) (on_controls-IsSettled cs)
        (on_control engine flume c w) (on_control-IsSettled c w h)

  on_idle-IsSettled :
      (r : Wait LocalMirrorControl) (w : MirrorWorker World Sink C)
      → IsPaired w
      → w.enabled ≡ false
      → IsSettled (on_idle engine flume r w)
  unfolding on_idle
  on_idle-IsSettled (arrived (start request)) w h e =
      start_mirror-IsPaired request w (is_some-none w.sink (h ∙ e))
  on_idle-IsSettled (arrived stop) w h e = h
  on_idle-IsSettled (arrived shutdown) w h e = tt
  on_idle-IsSettled timeout w h e = h
  on_idle-IsSettled closed w h e = tt

  play-IsPaired :
      (s : Option Sink) (f : FanoutAudioFrame) (w : MirrorWorker World Sink C)
      → w.sink ≡ s
      → IsPaired w
      → IsPaired (play engine flume s f w)
  unfolding play clear_stale_frames
  play-IsPaired none f w e h = rw e refl
  play-IsPaired (some s) f w e h = ground arith

  on_frame-IsSettled :
      (gone : Bool) (r : Option FanoutAudioFrame × C) (w : MirrorWorker World Sink C)
      → IsPaired w
      → IsSettled (on_frame engine flume gone r w)
  unfolding on_frame
  on_frame-IsSettled gone (some f, c) w h = play-IsPaired w.sink f (record w { frames = c }) refl h
  on_frame-IsSettled true (none, c) w h = tt
  on_frame-IsSettled false (none, c) w h = h

  wait-IsSettled :
      (b : Bool) (r : Round) (w : MirrorWorker World Sink C)
      → w.enabled ≡ b
      → IsPaired w
      → IsSettled (wait engine flume b r w)
  wait-IsSettled true r w e h = on_frame-IsSettled r.frames_closed (flume.try_recv w.frames) w h
  wait-IsSettled false r w e h = on_idle-IsSettled r.control_wait w h e

  step-IsSettled :
      (r : Round) (w : MirrorWorker World Sink C) → IsPaired w → IsSettled (step engine flume r w)
  unfolding step
  step-IsSettled r w h =
      and_then-IsSettled (λ w'. wait engine flume w'.enabled r w')
        (λ w' g. wait-IsSettled w'.enabled r w' refl g) (on_controls engine flume r.controls w)
        (on_controls-IsSettled r.controls w h)

  -- The local mirror that starts with a sink exactly where it is enabled keeps it so as long as
  -- it runs, whatever controls and frames come and whatever the playback engine answers.
  pub local_mirror_worker_loop-IsSettled :
      (rounds : List Round) (w : MirrorWorker World Sink C)
      → IsPaired w
      → IsSettled (local_mirror_worker_loop engine flume rounds w)
  unfolding local_mirror_worker_loop
  local_mirror_worker_loop-IsSettled [] w h = h
  local_mirror_worker_loop-IsSettled (r ∷ rs) w h =
      and_then-IsSettled (local_mirror_worker_loop engine flume rs)
        (local_mirror_worker_loop-IsSettled rs) (step engine flume r w) (step-IsSettled r w h)
