-- ===== src/Receiver/Worker/RunLaws.antt =====
-- Lemmas about the loop of the worker in crates/synchrosonic-receiver/src/service.rs.
use audio_share.Base.{
  ℕ, ◌≤◌, ◌≡◌, refl, ap, ◌∙◌, true, ◌&&◌, not, List, [], ◌∷◌, arith, is_some, is_none, Option-cases,
  inl, inr, Bool-cases, leb, ◌-◌,
}
use audio_share.Stream.{
  profile, ReceiverLatencyPreset, low_latency, balanced, stable, millis, default_stream, Ratio,
  ReceiverLatencyProfile, ReceiverStreamConfig,
}
use audio_share.Receiver.Buffer
use audio_share.Receiver.Buffer.{ReceiverPacketBuffer}
use audio_share.Receiver.Buffer.Invariant.{new-IsWellFormed}
use audio_share.Receiver.State.{Environment, ReceiverConfig, ReceiverSnapshot}
use audio_share.Receiver.Worker.{Worker, sync_snapshot, reset_sync_timeline}
use audio_share.Receiver.Worker.Playout.{
  await_buffer, drain_ready_packets, timeout_since, check_transport_timeout, on_tick,
}
use audio_share.Receiver.Worker.Run.{
  Received, transport, set_playback_target, timeout, shutdown, disconnected, new,
  next_wait_duration, shut_down, react, run,
}
use audio_share.Receiver.Worker.Packets.{handle_transport_event, handle_playback_target_change}
use audio_share.Receiver.Worker.Invariant.{IsConsistent, FitsProfile, is_empty}
use audio_share.Receiver.Worker.Preservation.{
  sync_snapshot-IsConsistent, stop_playback_sink_kept, IsClosed-IsConsistent,
  handle_disconnect-IsConsistent,
}
use audio_share.Receiver.Worker.PacketLaws.{
  refresh-IsConsistent, handle_transport_event-IsConsistent,
  handle_playback_target_change-IsConsistent,
}
use audio_share.Receiver.Worker.PlayoutLaws.{
  playout-IsConsistent, live-IsConsistent, still_streaming,
}

profile-FitsProfile : (p : ReceiverLatencyPreset) → FitsProfile (profile p)
unfolding profile
profile-FitsProfile low_latency = omega arith
profile-FitsProfile balanced = omega arith
profile-FitsProfile stable = omega arith

new-empty :
    (r : Ratio) (p : ReceiverLatencyProfile) (s : ReceiverStreamConfig)
    → is_empty (Buffer.new r p s).packets ≡ true
unfolding Buffer.new
new-empty r p s = refl

module _ (env : Environment) where
  open env use {World, Sink, now}

  drain-IsConsistent :
      (w : Worker env) → IsConsistent env w → IsConsistent env (drain_ready_packets env w)
  unfolding drain_ready_packets await_buffer
  drain-IsConsistent w h = elim (Bool-cases (is_none w.connection)) [
    | inl e ↦ rw (e, drain_ready_packets) h
    | inr e ↦
        let live : is_some w.connection ≡ true = ground arith in
        elim (Bool-cases (is_none w.sync_clock)) [
          | inl e1 ↦
              rw (e, e1, drain_ready_packets)
                (live-IsConsistent env _ h.well_formed h.profile (h.sink_open ∙ live) live
                  (ground (arith, h.streaming, live)) h.clocked)
          | inr e1 ↦
              elim (Bool-cases
                (is_none w.next_playback_deadline && not (Buffer.is_ready w.buffer))) [
                  | inl e2 ↦
                      rw (e, e1, e2, drain_ready_packets)
                        (live-IsConsistent env _ h.well_formed h.profile (h.sink_open ∙ live) live
                          (still_streaming w.state) h.clocked)
                  | inr e2 ↦
                      rw (e, e1, e2, drain_ready_packets) (playout-IsConsistent env _ w h live)
                ]
        ]
  ]

  timeout-IsConsistent :
      (w : Worker env) → IsConsistent env w → IsConsistent env (check_transport_timeout env w)
  unfolding check_transport_timeout timeout_since
  timeout-IsConsistent w h = elim (Option-cases w.last_transport_activity) [
    | inl e ↦ rw (e, check_transport_timeout) h
    | inr (t, e) ↦ rw (e, check_transport_timeout) (timeout_since-IsConsistent t)
  ]
    where
      timeout_since-IsConsistent : (t : ℕ) → IsConsistent env (timeout_since env t w)
      timeout_since-IsConsistent t =
          let v : Worker env = record w { world = (now w.world).1 } in
          let hv : IsConsistent env v = ground arith in
          elim (Bool-cases (is_some w.connection)) [
            | inr e ↦ rw (e, timeout_since) h
            | inl e ↦
                elim (Bool-cases
                  (leb w.buffer_profile.reconnect_grace_period ((now w.world).0 - t))) [
                    | inl e2 ↦
                        rw (e, e2, timeout_since) (handle_disconnect-IsConsistent env _ _ v hv)
                    | inr e2 ↦ rw (e, e2, timeout_since) hv
                  ]
          ]

  on_tick-IsConsistent : (w : Worker env) → IsConsistent env w → IsConsistent env (on_tick env w)
  unfolding on_tick
  on_tick-IsConsistent w h =
      sync_snapshot-IsConsistent env _
        (refresh-IsConsistent env _ (timeout-IsConsistent _ (drain-IsConsistent w h)))

  -- A new worker is consistent, for each latency preset.
  pub new-IsConsistent :
      (c : ReceiverConfig) (s : ReceiverSnapshot) (world : World)
      → IsConsistent env (new env c s world)
  unfolding new
  new-IsConsistent c s world =
      let p = profile-FitsProfile c.latency_preset in
      let b =
        new-IsWellFormed env.ratio (profile c.latency_preset) default_stream p.target p.limit in
      let e = new-empty env.ratio (profile c.latency_preset) default_stream in
      sync_snapshot-IsConsistent env _ (record {
        well_formed = b;
        profile = p;
        sink_open = refl;
        streaming = refl;
        clocked = λ x. absurd (ground (arith, e, x));
        drained = λ _. e;
      })

  react-IsConsistent :
      (r : Received) (w : Worker env) → IsConsistent env w → IsConsistent env (react env r w)
  unfolding react
  react-IsConsistent (transport e) w h = handle_transport_event-IsConsistent env e w h
  react-IsConsistent (set_playback_target t) w h =
      handle_playback_target_change-IsConsistent env t w h
  react-IsConsistent timeout w h = on_tick-IsConsistent w h
  react-IsConsistent shutdown w h = h
  react-IsConsistent disconnected w h = h

  next_wait-IsConsistent :
      (w : Worker env) → IsConsistent env w → IsConsistent env (next_wait_duration env w).1
  unfolding next_wait_duration
  next_wait-IsConsistent w h = ground arith

  shut_down-IsConsistent :
      (w : Worker env) → IsConsistent env w → IsConsistent env (shut_down env w)
  unfolding shut_down reset_sync_timeline
  shut_down-IsConsistent w h =
      let (sink, buffer, profile) = stop_playback_sink_kept env w in
      sync_snapshot-IsConsistent env _ (
        IsClosed-IsConsistent env w _
          (record {
            sink = sink;
            connection = refl;
            buffer = ap Buffer.clear buffer;
            profile = profile;
            clock = refl;
          })
          h.well_formed h.profile refl)

  -- From a consistent worker, after any sequence of transport events, changes of the playback
  -- target, waits that run out and shutdowns, and for any clock and playback engine, the worker
  -- is consistent: its buffer is well-formed, a sink is open exactly while a sender is
  -- connected, its state tells whether one is, and audio is queued only for a connected sender
  -- with an anchored clock.
  pub run-IsConsistent :
      (rs : List Received) (w : Worker env) → IsConsistent env w → IsConsistent env (run env rs w)
  unfolding run
  run-IsConsistent [] w h = h
  run-IsConsistent (shutdown ∷ rs) w h = shut_down-IsConsistent _ (next_wait-IsConsistent w h)
  run-IsConsistent (disconnected ∷ rs) w h = shut_down-IsConsistent _ (next_wait-IsConsistent w h)
  run-IsConsistent (r ∷ rs) w h =
      run-IsConsistent rs _ (react-IsConsistent r _ (next_wait-IsConsistent w h))

  -- The worker waits at least 5 ms and at most 200 ms for the next command.
  pub next_wait_bounds :
      (w : Worker env)
      → (millis 5 ≤ (next_wait_duration env w).0) × ((next_wait_duration env w).0 ≤ millis 200)
  unfolding next_wait_duration
  next_wait_bounds w = ground arith

  -- What other threads see of the worker: the snapshot behind the mutex.
  pub record IsPublished (w : Worker env) : Type 0 where
    pub state : w.published.state ≡ w.state
    pub connection : w.published.connection ≡ w.connection
    pub buffer : w.published.buffer ≡ Buffer.snapshot w.buffer
    pub sync : w.published.sync ≡ w.sync
    pub last_error : w.published.last_error ≡ w.last_error

  sync_snapshot-IsPublished : (w : Worker env) → IsPublished (sync_snapshot env w)
  unfolding sync_snapshot
  sync_snapshot-IsPublished w = record {
    state = refl;
    connection = refl;
    buffer = refl;
    sync = refl;
    last_error = refl;
  }

  react-IsPublished : (r : Received) (w : Worker env) → IsPublished w → IsPublished (react env r w)
  unfolding react handle_transport_event handle_playback_target_change on_tick
  react-IsPublished (transport e) w h = sync_snapshot-IsPublished _
  react-IsPublished (set_playback_target t) w h = sync_snapshot-IsPublished _
  react-IsPublished timeout w h = sync_snapshot-IsPublished _
  react-IsPublished shutdown w h = h
  react-IsPublished disconnected w h = h

  next_wait-IsPublished :
      (w : Worker env) → IsPublished w → IsPublished (next_wait_duration env w).1
  unfolding next_wait_duration
  next_wait-IsPublished w h = ground arith

  shut_down-IsPublished : (w : Worker env) → IsPublished (shut_down env w)
  unfolding shut_down
  shut_down-IsPublished w = sync_snapshot-IsPublished _

  -- From a worker whose published snapshot shows its state, connection, buffer, synchronization
  -- and last error, the snapshot still shows them after any sequence of commands.
  pub run-IsPublished :
      (rs : List Received) (w : Worker env) → IsPublished w → IsPublished (run env rs w)
  unfolding run
  run-IsPublished [] w h = h
  run-IsPublished (shutdown ∷ rs) w h = shut_down-IsPublished _
  run-IsPublished (disconnected ∷ rs) w h = shut_down-IsPublished _
  run-IsPublished (r ∷ rs) w h =
      run-IsPublished rs _ (react-IsPublished r _ (next_wait-IsPublished w h))

  pub new-IsPublished :
      (c : ReceiverConfig) (s : ReceiverSnapshot) (world : World) → IsPublished (new env c s world)
  unfolding new
  new-IsPublished c s world = sync_snapshot-IsPublished _
