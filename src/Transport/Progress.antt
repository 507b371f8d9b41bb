-- ===== src/Transport/Progress.antt =====
-- Lemmas about `handle_receiver_session` of crates/synchrosonic-transport/src/receiver.rs: the end
-- of its loop.
use audio_share.Base.{
  ℕ, zero, suc, ◌≤◌, ◌<◌, ◌≡◌, refl, Bool, true, false, List, [], ◌∷◌, Result, ok, err, length,
  arith,
}
use audio_share.Protocol.{FrameKind, Frame, TransportError, io, read_frame}
use audio_share.Protocol.Wire.{Source, IoKind, unexpected_eof, timed_out, connection_reset}
use audio_share.Protocol.Shrinks.{read_frame_takes, read_frame_end}
use audio_share.Transport.Session.{
  ReceiverSide, Conversation, Turn, proceed, leave, emit, send, send_protocol_error, on_frame,
  on_failure, on_read, on_disconnect, on_read_failure, refuse_turn, note_sequence, stop_session,
  read_turn, turn_by, turn, after_turn, session_loop,
}

module _ (side : ReceiverSide) where
  on_frame-source :
      (k : FrameKind) (f : Frame) (c : Conversation) → (on_frame side k f c).1.source ≡ c.source
  unfolding on_frame emit note_sequence send refuse_turn send_protocol_error
  on_frame-source FrameKind.audio f c = ground arith
  on_frame-source FrameKind.heartbeat f c = ground arith
  on_frame-source FrameKind.stop f c = ground arith
  on_frame-source FrameKind.error f c = ground arith
  on_frame-source FrameKind.hello f c = ground arith
  on_frame-source FrameKind.accept f c = ground arith
  on_frame-source FrameKind.heartbeat_ack f c = ground arith

  on_failure-source :
      (e : TransportError) (c : Conversation) → (on_failure side e c).1.source ≡ c.source
  unfolding on_failure on_disconnect on_read_failure emit send_protocol_error send
  on_failure-source (io unexpected_eof) c = ground arith
  on_failure-source (io connection_reset) c = ground arith
  on_failure-source (io timed_out) c = refl
  on_failure-source (io IoKind.connection_refused) c = ground arith
  on_failure-source (io IoKind.other_failure) c = ground arith
  on_failure-source e c = ground arith

  on_read-source :
      (r : Result TransportError Frame) (c : Conversation) → (on_read side r c).1.source ≡ c.source
  on_read-source (ok f) c = on_frame-source f.kind f c
  on_read-source (err e) c = on_failure-source e c

  read_turn_source : (c : Conversation) → (read_turn side c).1.source ≡ (read_frame c.source).1
  unfolding read_turn
  read_turn_source c =
      let (r, s) = read_frame c.source in on_read-source r (record c { source = s })

  -- A round that goes on has taken something off the stream.
  Shrinks : ℕ → Result TransportError Turn × Conversation → Type 0
  Shrinks n (ok proceed, c) = length c.source < n
  Shrinks n (ok leave, c) = Unit
  Shrinks n (err e, c) = Unit

  Shrinks-any :
      (n : ℕ) (r : Result TransportError Turn) (c : Conversation)
      → length c.source < n
      → Shrinks n (r, c)
  unfolding Shrinks
  Shrinks-any n (ok proceed) c h = h
  Shrinks-any n (ok leave) c h = tt
  Shrinks-any n (err e) c h = tt

  on_disconnect-Shrinks : (n : ℕ) (c : Conversation) → Shrinks n (on_disconnect side c)
  unfolding on_disconnect emit Shrinks
  on_disconnect-Shrinks n c = ground arith

  on_end-Shrinks : (c : Conversation) → c.source ≡ [] → Shrinks 0 (read_turn side c)
  unfolding read_turn on_failure
  on_end-Shrinks c h = rw (h, read_frame_end) (on_disconnect-Shrinks 0 (record c { source = [] }))

  read_turn-Shrinks :
      (s : Source) (c : Conversation) → c.source ≡ s → Shrinks (length s) (read_turn side c)
  read_turn-Shrinks [] c h = on_end-Shrinks c h
  read_turn-Shrinks (a ∷ s) c h =
      let e = read_turn_source c in
      let t : length (read_frame c.source).1 ≤ length s = rw h (read_frame_takes a s) in
      Shrinks-any (suc (length s)) (read_turn side c).0 (read_turn side c).1
        (rw e (omega (arith, t)))

  stop_session-Shrinks : (n : ℕ) (c : Conversation) → Shrinks n (stop_session side c)
  unfolding stop_session send Shrinks
  stop_session-Shrinks n c = tt

  turn_by-Shrinks :
      (stops : List Bool) (c : Conversation) → Shrinks (length c.source) (turn_by side stops c)
  unfolding turn_by
  turn_by-Shrinks [] c = read_turn-Shrinks c.source c refl
  turn_by-Shrinks (true ∷ stops) c =
      stop_session-Shrinks (length c.source) (record c { stops = stops })
  turn_by-Shrinks (false ∷ stops) c = read_turn-Shrinks c.source (record c { stops = stops }) refl

  turn-Shrinks : (c : Conversation) → Shrinks (length c.source) (turn side c)
  unfolding turn
  turn-Shrinks c = turn_by-Shrinks c.stops c

  -- The loop as the source has it, with no fuel: it goes on after a round that goes on, and ends
  -- with the first that leaves or fails.
  pub data Ends : Conversation → Result TransportError (Unit {0}) × Conversation → Type 0 where
    leaves : (c c' : Conversation) → turn side c ≡ (ok leave, c') → Ends c (ok tt, c')
    fails :
        (c c' : Conversation) (e : TransportError) → turn side c ≡ (err e, c') → Ends c (err e, c')
    goes_on :
        (c c' : Conversation) (r : Result TransportError (Unit {0}) × Conversation)
        → turn side c ≡ (ok proceed, c')
        → Ends c' r
        → Ends c r

  after_turn-Ends :
      (fuel : ℕ)
      → ((c : Conversation) → length c.source < fuel → Ends c (session_loop side fuel c))
      → (c : Conversation) → length c.source < suc fuel
      → (r : Result TransportError Turn) (c' : Conversation) → turn side c ≡ (r, c')
      → Shrinks (length c.source) (r, c')
      → Ends c (after_turn side (session_loop side fuel) (r, c'))
  unfolding Shrinks
  after_turn-Ends fuel all c h (ok proceed) c' e s = goes_on c c' _ e (all c' (omega arith))
  after_turn-Ends fuel all c h (ok leave) c' e s = leaves c c' e
  after_turn-Ends fuel all c h (err x) c' e s = fails c c' x e

  -- With more fuel than there is on the stream the session's loop ends as the loop of the source
  -- does: with the first round that leaves or fails, after rounds that go on.
  pub session_loop-Ends :
      (fuel : ℕ) (c : Conversation) → length c.source < fuel → Ends c (session_loop side fuel c)
  unfolding session_loop
  session_loop-Ends zero c h = absurd (omega arith)
  session_loop-Ends (suc fuel) c h =
      after_turn-Ends fuel (session_loop-Ends fuel) c h (turn side c).0 (turn side c).1 refl
        (turn-Shrinks c)
