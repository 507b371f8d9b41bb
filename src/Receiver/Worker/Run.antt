-- ===== src/Receiver/Worker/Run.antt =====
-- crates/synchrosonic-receiver/src/service.rs: `ReceiverWorker::new`, `next_wait_duration`,
-- `shutdown` and `receiver_worker_loop`. The commands that the channel hands over, and the waits
-- that run out, are a list: what the other threads do is arbitrary.
use audio_share.Base.{ℕ, ◌-◌, min, max, false, Option, none, some, String, List, [], ◌∷◌}
use audio_share.Stream.{profile, default_stream, millis}
use audio_share.Receiver.Buffer
use audio_share.Receiver.State.{
  Environment, ReceiverConfig, ReceiverSnapshot, idle, listening, ReceiverTransportEvent,
  no_metrics, from_profile,
}
use audio_share.Receiver.Worker.{Worker, sync_snapshot, stop_playback_sink, reset_sync_timeline}
use audio_share.Receiver.Worker.Packets.{handle_transport_event, handle_playback_target_change}
use audio_share.Receiver.Worker.Playout.{on_tick}

-- What `recv_timeout` returns.
pub data Received : Type 0 where
  transport : ReceiverTransportEvent → Received
  set_playback_target : Option String → Received
  timeout shutdown disconnected : Received

module _ (env : Environment) where
  open env use {World, Sink, ratio, now}

  unfoldable pub new : ReceiverConfig → ReceiverSnapshot → World → Worker env
  new config snapshot world =
      let p = profile config.latency_preset in
      sync_snapshot env (record {
        config = config;
        playback_sink = none;
        buffer = Buffer.new ratio p default_stream;
        buffer_profile = p;
        published = snapshot;
        metrics = no_metrics;
        sync = from_profile p;
        sync_clock = none;
        connection = none;
        state = listening;
        next_playback_deadline = none;
        last_transport_activity = none;
        last_error = none;
        world = world;
      })

  -- `wait.min(deadline.saturating_duration_since(Instant::now()))`
  unfoldable pub wait_for_deadline : Option ℕ → ℕ × World → ℕ × World
  wait_for_deadline none (wait, world) = (wait, world)
  wait_for_deadline (some deadline) (wait, world) =
      let (t, world') = now world in (min wait (deadline - t), world')

  -- `wait.min(grace.saturating_sub(last_activity.elapsed()))`
  unfoldable pub wait_for_timeout : ℕ → Option ℕ → ℕ × World → ℕ × World
  wait_for_timeout grace none (wait, world) = (wait, world)
  wait_for_timeout grace (some last_activity) (wait, world) =
      let (t, world') = now world in (min wait (grace - (t - last_activity)), world')

  unfoldable pub next_wait_duration : Worker env → ℕ × Worker env
  unfolding wait_for_deadline wait_for_timeout
  next_wait_duration w =
      let (wait, world) =
        wait_for_timeout w.buffer_profile.reconnect_grace_period w.last_transport_activity
          (wait_for_deadline w.next_playback_deadline (millis 200, w.world)) in
      (max wait (millis 5), record w { world = world })

  unfoldable pub shut_down : Worker env → Worker env
  shut_down w0 =
      let w = stop_playback_sink env w0 in
      let r = reset_sync_timeline env false (record w {
        buffer = Buffer.clear w.buffer;
        connection = none;
        state = idle;
        metrics = record w.metrics { buffer_fill_percent = 0 };
      }) in
      sync_snapshot env (record r { sync = from_profile r.buffer_profile })

  -- The `match` on what was received, for the commands that keep the loop going.
  unfoldable pub react : Received → Worker env → Worker env
  react (transport event) w = handle_transport_event env event w
  react (set_playback_target target_id) w = handle_playback_target_change env target_id w
  react timeout w = on_tick env w
  react shutdown w = w
  react disconnected w = w

  -- The loop up to the end of the list, or to the `break`.
  unfoldable pub run : List Received → Worker env → Worker env
  run [] w = w
  run (shutdown ∷ rest) w = shut_down (next_wait_duration w).1
  run (disconnected ∷ rest) w = shut_down (next_wait_duration w).1
  run (received ∷ rest) w = run rest (react received (next_wait_duration w).1)
