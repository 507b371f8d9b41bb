-- ===== src/Receiver/Worker/PlayoutLaws.antt =====
-- Lemmas about the branches of the playout loop in crates/synchrosonic-receiver/src/service.rs.
use audio_share.Base.{
  ℕ, zero, suc, ◌≡◌, refl, sym, ◌∙◌, true, false, none, some, String, List, [], ◌∷◌, arith, is_some,
  Result, ok, err, Option-cases, inl, inr, Bool-cases, length, head?, ltb, if◌then◌else◌,
}
use audio_share.Base.Int.{ℤ, exceeds}
use audio_share.Receiver.Buffer
use audio_share.Receiver.Buffer.{ReceiverPacketBuffer, BufferedPacket}
use audio_share.Receiver.Buffer.Invariant.{IsWellFormed, pop-IsWellFormed}
use audio_share.Receiver.State.{Environment, ReceiverServiceState, buffering}
use audio_share.Receiver.Worker.{
  Worker, is_playing, refresh_sync_buffer_metrics, reset_sync_timeline,
}
use audio_share.Receiver.Worker.Playout.{
  Flow, stopped, again, signed_instant_delta_ms, on_empty, on_late, on_written, after_write, on_due,
  at_deadline, playout_step, playout,
}
use audio_share.Receiver.Worker.Invariant.{IsConsistent, FitsProfile, is_empty, is_streaming}
use audio_share.Receiver.Worker.Preservation.{set_error-IsConsistent}

front_none : (ps : List BufferedPacket) → head? ps ≡ none → is_empty ps ≡ true
front_none [] h = refl
front_none (p ∷ ps) h = absurd (ground arith)

-- With a packet at the front, `pop` takes one away.
pub pop-shorter :
    (b : ReceiverPacketBuffer) (p : BufferedPacket)
    → Buffer.front b ≡ some p
    → suc (length (Buffer.pop b).1.packets) ≡ length b.packets
unfolding Buffer.pop
pop-shorter b p h = ground arith

pub still_streaming :
    (s : ReceiverServiceState) → is_streaming (if is_playing s then s else buffering) ≡ true
still_streaming s = ground arith

module _ (env : Environment) where
  open env use {World, Sink, now, write}

  -- What a round leaves behind.
  abbrev Sound : ℕ → Flow (Worker env) → Type 0
  Sound n (stopped w) = IsConsistent env w
  Sound n (again w) =
      IsConsistent env w × (is_some w.connection ≡ true) × (suc (length w.buffer.packets) ≡ n)

  -- Consistency of a worker whose sender is connected.
  pub live-IsConsistent :
      (v : Worker env)
      → IsWellFormed v.buffer
      → FitsProfile v.buffer_profile
      → is_some v.playback_sink ≡ true
      → is_some v.connection ≡ true
      → is_streaming v.state ≡ true
      → (is_empty v.buffer.packets ≡ false → is_some v.sync_clock ≡ true)
      → IsConsistent env v
  live-IsConsistent v b p s c t k = record {
    well_formed = b;
    profile = p;
    sink_open = s ∙ sym c;
    streaming = t ∙ sym c;
    clocked = k;
    drained = λ e. absurd (ground (arith, c, e));
  }

  on_empty-IsConsistent :
      (w : Worker env)
      → IsConsistent env w
      → is_empty w.buffer.packets ≡ true
      → is_some w.connection ≡ true
      → IsConsistent env (on_empty env w)
  unfolding on_empty reset_sync_timeline
  on_empty-IsConsistent w h e c = ground arith

  on_late-Sound :
      (w : Worker env) (p : BufferedPacket)
      → IsConsistent env w
      → is_some w.connection ≡ true
      → is_some w.sync_clock ≡ true
      → Buffer.front w.buffer ≡ some p
      → Sound (length w.buffer.packets) (on_late env w)
  unfolding on_late reset_sync_timeline refresh_sync_buffer_metrics
  on_late-Sound w p h c k f =
      let hb = pop-IsWellFormed w.buffer h.well_formed in
      let n = pop-shorter w.buffer p f in
      elim (Option-cases (Buffer.front (Buffer.pop w.buffer).1)) [
        | inl e ↦
            rw (e, on_late)
              (live-IsConsistent _ hb h.profile (h.sink_open ∙ c) c (h.streaming ∙ c)
                (λ x. absurd (ground (arith, front_none (Buffer.pop w.buffer).1.packets e, x))))
        | inr (q, e) ↦
            rw (e, on_late)
              (
                live-IsConsistent _ hb h.profile (h.sink_open ∙ c) c (h.streaming ∙ c) (λ _. k),
                c,
                n,
              )
      ]

  after_write-Sound :
      (w : Worker env) (p : BufferedPacket) (x : ℤ) (n : ℕ) (r : Result String (Unit {0}) × World)
      → IsConsistent env w
      → is_some w.connection ≡ true
      → is_some w.sync_clock ≡ true
      → suc (length w.buffer.packets) ≡ n
      → Sound n (after_write env p x w r)
  unfolding after_write on_written refresh_sync_buffer_metrics
  after_write-Sound w p x n (ok u, world) h c k e =
      (live-IsConsistent _ h.well_formed h.profile (h.sink_open ∙ c) c refl (λ _. k), c, e)
  after_write-Sound w p x n (err m, world) h c k e =
      set_error-IsConsistent env _ _ h.well_formed h.profile

  on_due-Sound :
      (w : Worker env) (p : BufferedPacket) (x : ℤ)
      → IsConsistent env w
      → is_some w.connection ≡ true
      → is_some w.sync_clock ≡ true
      → Buffer.front w.buffer ≡ some p
      → Sound (length w.buffer.packets) (on_due env p x w)
  unfolding on_due
  on_due-Sound w p x h c k f =
      let hb = pop-IsWellFormed w.buffer h.well_formed in
      elim (Option-cases w.playback_sink) [
        | inl e ↦ absurd (ground (arith, h.sink_open, c, e))
        | inr (sink, e) ↦
            rw (e, on_due)
              (after_write-Sound _ p x (length w.buffer.packets) _
                (live-IsConsistent _ hb h.profile (h.sink_open ∙ c) c (h.streaming ∙ c) (λ _. k)) c
                k (pop-shorter w.buffer p f))
      ]

  at_deadline-Sound :
      (w : Worker env) (p : BufferedPacket) (d : ℕ)
      → IsConsistent env w
      → is_some w.connection ≡ true
      → is_some w.sync_clock ≡ true
      → Buffer.front w.buffer ≡ some p
      → Sound (length w.buffer.packets) (at_deadline env p d w)
  unfolding at_deadline
  at_deadline-Sound w p d h c k f =
      let t = (now w.world).0 in
      let v : Worker env = record w {
        next_playback_deadline = some d;
        sync = record w.sync { schedule_error_ms = signed_instant_delta_ms t d };
        world = (now w.world).1;
      } in
      let hv : IsConsistent env v = ground arith in
      elim (Bool-cases
        (exceeds (signed_instant_delta_ms t d) w.buffer_profile.late_packet_drop_ms)) [
          | inl e ↦ rw (e, at_deadline) (on_late-Sound v p hv c k f)
          | inr e ↦ elim (Bool-cases (ltb t d)) [
            | inl e2 ↦
                rw (e, e2, at_deadline)
                  (live-IsConsistent _ h.well_formed h.profile (h.sink_open ∙ c) c
                    (still_streaming w.state) (λ _. k))
            | inr e2 ↦ rw (e, e2, at_deadline) (on_due-Sound v p _ hv c k f)
          ]
        ]

  -- A connected worker with queued audio has an anchored clock, so each packet has a deadline.
  playout_step-Sound :
      (w : Worker env)
      → IsConsistent env w
      → is_some w.connection ≡ true
      → Sound (length w.buffer.packets) (playout_step env w)
  unfolding playout_step
  playout_step-Sound w h c = elim (Option-cases (Buffer.front w.buffer)) [
    | inl e ↦ rw (e, playout_step) (on_empty-IsConsistent w h (front_none w.buffer.packets e) c)
    | inr (p, e) ↦ elim (Option-cases w.sync_clock) [
      | inl e2 ↦ absurd (ground (arith, h.clocked, e, e2))
      | inr (k, e2) ↦ rw (e, e2, playout_step) (at_deadline-Sound w p _ h c (rw e2 refl) e)
    ]
  ]

  pub playout-IsConsistent :
      (fuel : ℕ) (w : Worker env)
      → IsConsistent env w
      → is_some w.connection ≡ true
      → IsConsistent env (playout env fuel w)
  unfolding playout
  playout-IsConsistent zero w h c = h
  playout-IsConsistent (suc fuel) w h c =
      go (playout_step env w) refl (playout_step-Sound w h c) (playout-IsConsistent fuel)
    where
      go :
          (f : Flow (Worker env))
          → playout_step env w ≡ f
          → Sound (length w.buffer.packets) f
          → ((v : Worker env)
              → IsConsistent env v
              → is_some v.connection ≡ true
              → IsConsistent env (playout env fuel v))
          → IsConsistent env (playout env (suc fuel) w)
      go (stopped v) e s ih = rw (e, playout) s
      go (again v) e s ih = rw (e, playout) (ih v s.0 s.1)
