-- ===== src/Protocol/Tests.antt =====
-- Frames read and written at concrete inputs.
use audio_share.Base.{ℕ, suc, ◌≡◌, refl, List, [], ◌∷◌, ◌++◌, ok, err, take, arith}
use audio_share.Protocol.{audio, heartbeat, io, bad_magic, read_frame, write_frame, header}
use audio_share.Protocol.Wire.{Source, byte, timeout, timed_out, bytes, read_exact}
use audio_share.Protocol.Laws.{encode, frame, write_frame-ok, read_frame-encode}
use audio_share.Protocol.Inversion.{WasEncoded, read_frame-WasEncoded, read_frame-cut}

abbrev metadata : List ℕ
metadata = 123 ∷ 125 ∷ []

abbrev payload : List ℕ
payload = 1 ∷ 2 ∷ 3 ∷ []

abbrev next_frame : Source
next_frame = byte 83 ∷ []

read_frame-encode_example :
    read_frame (bytes (encode audio metadata payload) ++ next_frame)
    ≡ (ok (frame audio metadata payload), next_frame)
read_frame-encode_example =
    read_frame-encode audio metadata payload next_frame (omega arith) (omega arith)

write_frame-ok_example :
    write_frame audio metadata payload (record { written = []; budget = 20 })
    ≡ (ok 18, record { written = encode audio metadata payload; budget = 2 })
write_frame-ok_example =
    write_frame-ok audio metadata payload (record { written = []; budget = 20 }) (omega arith)
      (omega arith) (omega arith)

abbrev beat : Source
beat = bytes (83 ∷ 83 ∷ 78 ∷ 49 ∷ 4 ∷ 0 ∷ 0 ∷ 0 ∷ 1 ∷ 0 ∷ 0 ∷ 0 ∷ 0 ∷ 48 ∷ [])

beat_read : read_frame beat ≡ (ok (frame heartbeat (48 ∷ []) []), [])
unfolding read_frame read_exact header
beat_read = refl

read_frame-WasEncoded_example : WasEncoded beat (frame heartbeat (48 ∷ []) []) []
read_frame-WasEncoded_example = read_frame-WasEncoded beat (ground arith) beat_read

-- A read timeout, and then what comes after it.
abbrev pause : Source
pause = timeout ∷ bytes (2 ∷ 3 ∷ [])

pause_times_out : (n : ℕ) → read_exact (suc n) pause ≡ (err timed_out, bytes (2 ∷ 3 ∷ []))
unfolding read_exact
pause_times_out n = refl

-- The first byte of the payload has come when the read times out.
read_frame-cut_example :
    read_frame (bytes (take 16 (encode audio metadata payload)) ++ pause)
    ≡ (err (io timed_out), bytes (2 ∷ 3 ∷ []))
unfolding header
read_frame-cut_example =
    read_frame-cut audio metadata payload (take 16 (encode audio metadata payload)) (2 ∷ 3 ∷ [])
      pause (omega arith) (omega arith) cut (omega arith) pause_times_out
  where
    cut : take 16 (encode audio metadata payload) ++ (2 ∷ 3 ∷ []) ≡ encode audio metadata payload
    cut = refl

-- What is left of the frame is no frame.
rest_refused :
    read_frame (bytes (2 ∷ 3 ∷ (encode heartbeat [] []))) ≡ (err bad_magic, bytes (0 ∷ 0 ∷ []))
unfolding read_frame read_exact header
rest_refused = refl
