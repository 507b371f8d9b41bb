-- ===== src/Sender/ReaderLaws.antt =====
-- Lemmas about `sender_reader_loop` of crates/synchrosonic-transport/src/sender.rs.
use audio_share.Base.{◌≡◌, Bool, true, false, List, ◌∷◌, String, ok, err}
use audio_share.Protocol.{Frame, TransportError, io, read_frame}
use audio_share.Protocol.Wire.{Source, unexpected_eof, connection_reset}
use audio_share.Protocol.Messages.{Codecs}
use audio_share.Sender.Target.{InboundControl, disconnected}
use audio_share.Sender.Loops.{inbound_of}

-- The receiver has closed the connection.
abbrev pub IsClosed : TransportError → Type 0
IsClosed (io unexpected_eof) = Unit
IsClosed (io connection_reset) = Unit
IsClosed e = ⊥

module _ (codecs : Codecs) (to_string : TransportError → String) where
  -- The event that a failure to read is told as.
  pub data Failure (e : TransportError) : InboundControl → Type 0 where
    closed : IsClosed e → Failure e disconnected
    broken : ¬ IsClosed e → Failure e (InboundControl.error (to_string e) 0)

  module _ (listens : List InboundControl → Bool) where
    -- The reader as the source has it, with no fuel, from what was sent before to all that is
    -- sent: it ends when the session no longer receives, with a frame that does not decode, and
    -- with the first failure to read; else it reads on behind the frame.
    pub data Reads : Source → List InboundControl → List InboundControl → Type 0 where
      deaf :
          (source : Source) (sent : List InboundControl)
          → listens sent ≡ false
          → Reads source sent sent
      fails :
          (source : Source) (sent : List InboundControl) (e : TransportError)
          (event : InboundControl)
          → listens sent ≡ true
          → (read_frame source).0 ≡ err e
          → Failure e event
          → Reads source sent (event ∷ sent)
      unreadable :
          (source : Source) (sent : List InboundControl) (frame : Frame) (event : InboundControl)
          → listens sent ≡ true
          → (read_frame source).0 ≡ ok frame
          → inbound_of codecs to_string frame.kind frame ≡ (event, false)
          → Reads source sent (event ∷ sent)
      next :
          (source : Source) (sent : List InboundControl) (frame : Frame) (event : InboundControl)
          (all : List InboundControl)
          → listens sent ≡ true
          → (read_frame source).0 ≡ ok frame
          → inbound_of codecs to_string frame.kind frame ≡ (event, true)
          → Reads (read_frame source).1 (event ∷ sent) all
          → Reads source sent all
