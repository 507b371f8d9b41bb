-- ===== src/Receiver/Worker/Timing.antt =====
-- Lemmas about the rounds of the playout loop and the transport timeout in crates/synchrosonic-
-- receiver/src/service.rs.
use audio_share.Base.{
  ℕ, zero, suc, ◌+◌, ◌-◌, ◌≤◌, ◌<◌, ◌≡◌, refl, ◌∙◌, some, String, arith, Result, ok, err,
  Option-cases, inl, inr, Bool-cases, length, ltb, min, ◌/◌,
}
use audio_share.Base.Int.{ℤ, exceeds}
use audio_share.Stream.{u64}
use audio_share.Receiver.Buffer
use audio_share.Receiver.Buffer.{ReceiverPacketBuffer, BufferedPacket}
use audio_share.Receiver.State.{Environment}
use audio_share.Receiver.Worker.{Worker, refresh_sync_buffer_metrics}
use audio_share.Receiver.Worker.Packets.{write_deadline_for}
use audio_share.Receiver.Worker.Playout.{
  Flow, stopped, again, signed_instant_delta_ms, on_late, on_written, after_write, on_due,
  at_deadline, playout_step, playout,
}
use audio_share.Receiver.Worker.PlayoutLaws.{pop-shorter}

-- The whole milliseconds by which an instant is past the deadline, at most `i32::MAX`.
abbrev pub late_ms : ℕ → ℕ → ℕ
late_ms t deadline = min ((t - deadline) / 1000000) 2147483647

-- The instant is too late by the clamped difference exactly where its `late_ms` are above the
-- bound.
exceeds-signed_instant_delta :
    (t d n : ℕ) → exceeds (signed_instant_delta_ms t d) n ≡ ltb n (late_ms t d)
unfolding signed_instant_delta_ms
exceeds-signed_instant_delta t d n = ground arith

module _ (env : Environment) where
  open env use {World, Sink, now, write}

  -- A round that goes on has dropped or played the packet at the front.
  pub data Round (w v : Worker env) : Type 0 where
    dropped :
        (p : BufferedPacket) (deadline : ℕ)
        → Buffer.front w.buffer ≡ some p
        → write_deadline_for env w p.packet.captured_at_ms ≡ some deadline
        → w.buffer_profile.late_packet_drop_ms < late_ms (now w.world).0 deadline
        → v.world ≡ (now w.world).1
        → v.playback_sink ≡ w.playback_sink
        → v.buffer ≡ (Buffer.pop w.buffer).1
        → v.sync.late_packet_drops ≡ u64 (w.sync.late_packet_drops + 1)
        → v.metrics.packets_played ≡ w.metrics.packets_played
        → Round w v
    played :
        (p : BufferedPacket) (deadline : ℕ) (sink : Sink)
        → Buffer.front w.buffer ≡ some p
        → write_deadline_for env w p.packet.captured_at_ms ≡ some deadline
        → deadline ≤ (now w.world).0
        → late_ms (now w.world).0 deadline ≤ w.buffer_profile.late_packet_drop_ms
        → w.playback_sink ≡ some sink
        → write sink p.packet.payload (now w.world).1 ≡ (ok tt, v.world)
        → v.playback_sink ≡ some sink
        → v.buffer ≡ (Buffer.pop w.buffer).1
        → v.sync.late_packet_drops ≡ w.sync.late_packet_drops
        → v.metrics.packets_played ≡ u64 (w.metrics.packets_played + 1)
        → Round w v

  on_late-again :
      (w : Worker env) {v : Worker env}
      → on_late env w ≡ again v
      → (v.world ≡ w.world)
        × (v.playback_sink ≡ w.playback_sink)
        × (v.buffer ≡ (Buffer.pop w.buffer).1)
        × (v.sync.late_packet_drops ≡ u64 (w.sync.late_packet_drops + 1))
        × (v.metrics.packets_played ≡ w.metrics.packets_played)
  unfolding on_late refresh_sync_buffer_metrics
  on_late-again w h = ground arith

  after_write-again :
      (p : BufferedPacket) (x : ℤ) (w : Worker env) (r : Result String (Unit {0}) × World)
      {v : Worker env}
      → after_write env p x w r ≡ again v
      → (r ≡ (ok tt, v.world))
        × (v.playback_sink ≡ w.playback_sink)
        × (v.buffer ≡ w.buffer)
        × (v.sync.late_packet_drops ≡ w.sync.late_packet_drops)
        × (v.metrics.packets_played ≡ u64 (w.metrics.packets_played + 1))
  unfolding after_write on_written refresh_sync_buffer_metrics
  after_write-again p x w (ok u, world) h = ground arith
  after_write-again p x w (err e, world) h = absurd (ground arith)

  on_due-again :
      (p : BufferedPacket) (x : ℤ) (w : Worker env) {v : Worker env}
      → on_due env p x w ≡ again v
      → (sink : Sink) × (w.playback_sink ≡ some sink)
        × (write sink p.packet.payload w.world ≡ (ok tt, v.world))
        × (v.playback_sink ≡ some sink)
        × (v.buffer ≡ (Buffer.pop w.buffer).1)
        × (v.sync.late_packet_drops ≡ w.sync.late_packet_drops)
        × (v.metrics.packets_played ≡ u64 (w.metrics.packets_played + 1))
  unfolding on_due
  on_due-again p x w {v} h = elim (Option-cases w.playback_sink) [
    | inl e ↦ absurd (ground (arith, h, e))
    | inr (s, e) ↦
        let (r, q, b, n, m) =
          after_write-again p x
            (record w { buffer = (Buffer.pop w.buffer).1; playback_sink = some s })
            (write s p.packet.payload w.world) {v = v} (simp (e, on_due) at h) in
        (s, e, r, q, b, n, m)
  ]

  -- A late packet is dropped; a due one is played; before its deadline a packet stays.
  at_deadline-Round :
      (p : BufferedPacket) (d : ℕ) (w : Worker env) {v : Worker env}
      → Buffer.front w.buffer ≡ some p
      → write_deadline_for env w p.packet.captured_at_ms ≡ some d
      → at_deadline env p d w ≡ again v
      → Round w v
  unfolding at_deadline
  at_deadline-Round p d w {v} f k h =
      let t = (now w.world).0 in
      let x = signed_instant_delta_ms t d in
      let late = exceeds-signed_instant_delta t d w.buffer_profile.late_packet_drop_ms in
      let w1 : Worker env = record w {
        next_playback_deadline = some d;
        sync = record w.sync { schedule_error_ms = x };
        world = (now w.world).1;
      } in
      elim (Bool-cases (exceeds x w.buffer_profile.late_packet_drop_ms)) [
        | inl e ↦
            let (a, s, b, n, m) = on_late-again w1 {v = v} (simp (e, at_deadline) at h) in
            dropped p d f k (ground (arith, e, late)) a s b n m
        | inr e ↦ elim (Bool-cases (ltb t d)) [
          | inl e2 ↦ absurd (ground (arith, h, e, e2))
          | inr e2 ↦
              let (s, i, o, q, b, n, m) =
                on_due-again p x w1 {v = v} (simp (e, e2, at_deadline) at h) in
              played p d s f k (ground (arith, e2)) (ground (arith, e, late)) i o q b n m
        ]
      ]

  -- A round of the playout loop that goes on has taken the front packet off the buffer and left
  -- the sink in place. Either the packet was late by more than `late_packet_drop_ms`, in whole
  -- milliseconds of at most `i32::MAX`: then nothing was written and one late drop is counted.
  -- Or it was at or after its deadline and not later than that: then its payload was written to
  -- the sink, which took it, and one packet played is counted.
  pub playout_step-Round :
      (w : Worker env) {v : Worker env} → playout_step env w ≡ again v → Round w v
  unfolding playout_step
  playout_step-Round w {v} h = elim (Option-cases (Buffer.front w.buffer)) [
    | inl e ↦ absurd (ground (arith, h, e))
    | inr (p, e) ↦ elim (Option-cases (write_deadline_for env w p.packet.captured_at_ms)) [
      | inl e2 ↦ absurd (ground (arith, h, e, e2))
      | inr (d, e2) ↦ at_deadline-Round p d w e e2 (simp (e, e2, playout_step) at h)
    ]
  ]

  -- Rounds that go on.
  pub data Rounds (w : Worker env) : Worker env → Type 0 where
    here : Rounds w w
    next : {u v : Worker env} → Rounds w u → playout_step env u ≡ again v → Rounds w v

  abbrev pub queued : Worker env → ℕ
  queued w = length w.buffer.packets

  Round-shorter : (w v : Worker env) → Round w v → suc (queued v) ≡ queued w
  Round-shorter w v (dropped p d f _ _ _ _ b _ _) = rw b (pop-shorter w.buffer p f)
  Round-shorter w v (played p d _ f _ _ _ _ _ _ b _ _) = rw b (pop-shorter w.buffer p f)

  from_next :
      {u v : Worker env} (w : Worker env) → playout_step env w ≡ again u → Rounds u v → Rounds w v
  from_next w e here = next here e
  from_next w e (next r e2) = next (from_next w e r) e2

  -- The playout loop ends by its own `break`, with a fuel greater than the number of queued
  -- packets: the result is where a round stopped after rounds that went on.
  pub playout_ends :
      (fuel : ℕ) (w : Worker env)
      → queued w < fuel
      → (v : Worker env) × Rounds w v × (playout_step env v ≡ stopped (playout env fuel w))
  unfolding playout
  playout_ends zero w h = absurd (omega arith)
  playout_ends (suc fuel) w h = go (playout_step env w) refl (playout_ends fuel)
    where
      go :
          (f : Flow (Worker env))
          → playout_step env w ≡ f
          → ((u : Worker env)
              → queued u < fuel
              → (v : Worker env) × Rounds u v × (playout_step env v ≡ stopped (playout env fuel u)))
          → (v : Worker env) × Rounds w v
            × (playout_step env v ≡ stopped (playout env (suc fuel) w))
      go (stopped u) e ih = (w, here, rw (e, playout) refl)
      go (again u) e ih =
          let short = Round-shorter w u (playout_step-Round w {v = u} e) in
          let (v, r, last) = ih u (omega (arith, short)) in
          (v, from_next w e r, rw (e, playout) last)

  -- Over rounds of the playout loop that go on, the packets played, the late drops and the
  -- packets queued add up to the same number, modulo 2^64: none is lost or counted twice.
  pub Rounds-account :
      {w v : Worker env}
      → Rounds w v
      → u64 (v.metrics.packets_played + v.sync.late_packet_drops + queued v)
        ≡ u64 (w.metrics.packets_played + w.sync.late_packet_drops + queued w)
  Rounds-account here = refl
  Rounds-account {w} (next {u = u} {v = v} r e) =
      Round-account (playout_step-Round u {v = v} e) ∙ Rounds-account r
    where
      Round-account :
          Round u v
          → u64 (v.metrics.packets_played + v.sync.late_packet_drops + queued v)
            ≡ u64 (u.metrics.packets_played + u.sync.late_packet_drops + queued u)
      Round-account (dropped p d f k x a s b n m) =
          omega (arith, Round-shorter u v (dropped p d f k x a s b n m), n, m)
      Round-account (played p d c f k t x i o q b n m) =
          omega (arith, Round-shorter u v (played p d c f k t x i o q b n m), n, m)
