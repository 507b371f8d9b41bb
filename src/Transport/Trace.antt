-- ===== src/Transport/Trace.antt =====
-- Lemmas about `handle_receiver_session` of crates/synchrosonic-transport/src/receiver.rs: the order
-- of the events that a session gives to its callback.
use audio_share.Base.{
  ℕ, zero, suc, ◌≡◌, refl, sym, subst, Bool, true, false, List, [], ◌∷◌, String, Result, ok, err,
  arith, length,
}
use audio_share.Receiver.State.{
  ReceiverTransportEvent, connected, audio_packet, keep_alive, disconnected, error,
}
use audio_share.Protocol.{FrameKind, Frame, TransportError, io, read_frame}
use audio_share.Protocol.Wire.{IoKind, unexpected_eof, timed_out, connection_reset}
use audio_share.Transport.Session.{
  ReceiverSide, Conversation, Turn, proceed, leave, M, emit, send, send_protocol_error, on_frame,
  on_failure, on_read, on_disconnect, on_read_failure, refuse_turn, note_sequence, stop_session,
  read_turn, turn_by, turn, after_turn, session_loop, handshake, first_frame, refuse_frame, receive,
  set_session, clear_session, handle_receiver_session, continue_with,
}

-- The events of a connection that is open, the last one first: the connection, and packets and
-- signs of life after it.
abbrev pub IsOpen : List ReceiverTransportEvent → Type 0
IsOpen [] = ⊥
IsOpen (connected info ∷ es) = es ≡ []
IsOpen (audio_packet p ∷ es) = IsOpen es
IsOpen (keep_alive ∷ es) = IsOpen es
IsOpen (disconnected reason again ∷ es) = ⊥
IsOpen (error message ∷ es) = ⊥

-- Those of a whole session: none, or an open connection that one last event may close.
abbrev pub IsTrace : List ReceiverTransportEvent → Type 0
IsTrace [] = Unit
IsTrace (disconnected reason again ∷ es) = IsOpen es
IsTrace (error message ∷ es) = IsOpen es
IsTrace (connected info ∷ es) = es ≡ []
IsTrace (audio_packet p ∷ es) = IsOpen es
IsTrace (keep_alive ∷ es) = IsOpen es

IsOpen-IsTrace : (es : List ReceiverTransportEvent) → IsOpen es → IsTrace es
IsOpen-IsTrace [] h = tt
IsOpen-IsTrace (connected info ∷ es) h = h
IsOpen-IsTrace (audio_packet p ∷ es) h = h
IsOpen-IsTrace (keep_alive ∷ es) h = h
IsOpen-IsTrace (disconnected reason again ∷ es) h = absurd h
IsOpen-IsTrace (error message ∷ es) h = absurd h

-- After a round that goes on the connection is open.
abbrev Follows : Result TransportError Turn × Conversation → Type 0
Follows (ok proceed, c) = IsOpen c.events
Follows (ok leave, c) = IsTrace c.events
Follows (err e, c) = IsTrace c.events

continue_with-Follows :
    {A : Type 0} (r : Result TransportError A) (k : A → M Turn) (c : Conversation)
    → IsTrace c.events
    → ((a : A) → Follows (k a c))
    → Follows (continue_with k (r, c))
continue_with-Follows (ok a) k c h on = on a
continue_with-Follows (err e) k c h on = h

module _ (side : ReceiverSide) where
  refuse_turn-Follows :
      (kind : FrameKind) (c : Conversation) → IsTrace c.events → Follows (refuse_turn side kind c)
  unfolding refuse_turn send_protocol_error send
  refuse_turn-Follows kind c h = ground arith

  on_frame-Follows :
      (k : FrameKind) (f : Frame) (c : Conversation)
      → IsOpen c.events
      → Follows (on_frame side k f c)
  unfolding on_frame emit send note_sequence
  on_frame-Follows FrameKind.audio f c h = let g = IsOpen-IsTrace c.events h in ground arith
  on_frame-Follows FrameKind.heartbeat f c h = let g = IsOpen-IsTrace c.events h in ground arith
  on_frame-Follows FrameKind.stop f c h = let g = IsOpen-IsTrace c.events h in ground arith
  on_frame-Follows FrameKind.error f c h = let g = IsOpen-IsTrace c.events h in ground arith
  on_frame-Follows FrameKind.hello f c h =
      refuse_turn-Follows FrameKind.hello c (IsOpen-IsTrace c.events h)
  on_frame-Follows FrameKind.accept f c h =
      refuse_turn-Follows FrameKind.accept c (IsOpen-IsTrace c.events h)
  on_frame-Follows FrameKind.heartbeat_ack f c h =
      refuse_turn-Follows FrameKind.heartbeat_ack c (IsOpen-IsTrace c.events h)

  on_disconnect-Follows : (c : Conversation) → IsOpen c.events → Follows (on_disconnect side c)
  unfolding on_disconnect emit
  on_disconnect-Follows c h = ground arith

  on_read_failure-Follows :
      (e : TransportError) (c : Conversation) → IsOpen c.events → Follows (on_read_failure side e c)
  unfolding on_read_failure emit send_protocol_error send
  on_read_failure-Follows e c h = h

  on_failure-Follows :
      (e : TransportError) (c : Conversation) → IsOpen c.events → Follows (on_failure side e c)
  unfolding on_failure
  on_failure-Follows (io unexpected_eof) c h = on_disconnect-Follows c h
  on_failure-Follows (io connection_reset) c h = on_disconnect-Follows c h
  on_failure-Follows (io timed_out) c h = h
  on_failure-Follows (io IoKind.connection_refused) c h =
      on_read_failure-Follows (io IoKind.connection_refused) c h
  on_failure-Follows (io IoKind.other_failure) c h =
      on_read_failure-Follows (io IoKind.other_failure) c h
  on_failure-Follows e c h = on_read_failure-Follows e c h

  on_read-Follows :
      (r : Result TransportError Frame) (c : Conversation)
      → IsOpen c.events
      → Follows (on_read side r c)
  on_read-Follows (ok frame) c h = on_frame-Follows frame.kind frame c h
  on_read-Follows (err e) c h = on_failure-Follows e c h

  stop_session-Follows : (c : Conversation) → IsOpen c.events → Follows (stop_session side c)
  unfolding stop_session send
  stop_session-Follows c h = IsOpen-IsTrace c.events h

  read_turn-Follows : (c : Conversation) → IsOpen c.events → Follows (read_turn side c)
  unfolding read_turn
  read_turn-Follows c h =
      let (r, s) = read_frame c.source in on_read-Follows r (record c { source = s }) h

  turn_by-Follows :
      (stops : List Bool) (c : Conversation) → IsOpen c.events → Follows (turn_by side stops c)
  unfolding turn_by
  turn_by-Follows [] c h = read_turn-Follows c h
  turn_by-Follows (true ∷ stops) c h = stop_session-Follows (record c { stops = stops }) h
  turn_by-Follows (false ∷ stops) c h = read_turn-Follows (record c { stops = stops }) h

  turn-Follows : (c : Conversation) → IsOpen c.events → Follows (turn side c)
  unfolding turn
  turn-Follows c h = turn_by-Follows c.stops c h

  after_turn-IsTrace :
      (rest : M (Unit {0}))
      → ((c : Conversation) → IsOpen c.events → IsTrace (rest c).1.events)
      → (r : Result TransportError Turn) (c : Conversation) → Follows (r, c)
      → IsTrace (after_turn side rest (r, c)).1.events
  after_turn-IsTrace rest all (ok proceed) c h = all c h
  after_turn-IsTrace rest all (ok leave) c h = h
  after_turn-IsTrace rest all (err e) c h = h

  session_loop-IsTrace :
      (fuel : ℕ) (c : Conversation) → IsOpen c.events → IsTrace (session_loop side fuel c).1.events
  unfolding session_loop
  session_loop-IsTrace zero c h = IsOpen-IsTrace c.events h
  session_loop-IsTrace (suc fuel) c h =
      after_turn-IsTrace (session_loop side fuel) (session_loop-IsTrace fuel) (turn side c).0
        (turn side c).1 (turn-Follows c h)

  -- After the handshake the connection is open; a handshake that fails has said nothing.
  unfoldable Opens : Result TransportError (Unit {0}) × Conversation → Type 0
  Opens (ok u, c) = IsOpen c.events
  Opens (err e, c) = IsTrace c.events

  first_frame-events :
      (kind : FrameKind) (f : Frame) (c : Conversation)
      → (first_frame side kind f c).1.events ≡ c.events
  unfolding first_frame refuse_frame send_protocol_error send
  first_frame-events FrameKind.hello f c = refl
  first_frame-events FrameKind.accept f c = ground arith
  first_frame-events FrameKind.audio f c = ground arith
  first_frame-events FrameKind.heartbeat f c = ground arith
  first_frame-events FrameKind.heartbeat_ack f c = ground arith
  first_frame-events FrameKind.stop f c = ground arith
  first_frame-events FrameKind.error f c = ground arith

  handshake-Opens :
      (peer : String) (c : Conversation) → c.events ≡ [] → Opens (handshake side peer c)
  unfolding handshake receive send emit set_session Opens
  handshake-Opens peer c h = ground arith

  after_handshake-IsTrace :
      (k : M (Unit {0}))
      → ((c : Conversation) → IsOpen c.events → IsTrace (k c).1.events)
      → (r : Result TransportError (Unit {0})) (c : Conversation) → Opens (r, c)
      → IsTrace (continue_with (λ _. k) (r, c)).1.events
  unfolding Opens
  after_handshake-IsTrace k all (ok u) c h = all c h
  after_handshake-IsTrace k all (err e) c h = h

  clear_session-events :
      (r : Result TransportError (Unit {0})) (c : Conversation)
      → (continue_with (λ _. clear_session side) (r, c)).1.events ≡ c.events
  unfolding clear_session
  clear_session-events (ok u) c = refl
  clear_session-events (err e) c = refl

  -- The callback of a session that has said nothing yet is given nothing at all, or first and
  -- only once that the sender is connected, then packets and signs of life, and after these at
  -- most one event that ends the connection and is the last.
  pub handle_receiver_session-IsTrace :
      (peer : String) (c : Conversation)
      → c.events ≡ []
      → IsTrace (handle_receiver_session side peer c).1.events
  unfolding handle_receiver_session handshake
  handle_receiver_session-IsTrace peer c h =
      let loop : M (Unit {0}) = λ c'. session_loop side (suc (length c'.source)) c' in
      let opened = handshake side peer c in
      after_handshake-IsTrace (λ c'. continue_with (λ _. clear_session side) (loop c'))
        (λ c' o.
          subst IsTrace (sym (clear_session-events (loop c').0 (loop c').1))
            (session_loop-IsTrace (suc (length c'.source)) c' o))
        opened.0 opened.1 (handshake-Opens peer c h)
