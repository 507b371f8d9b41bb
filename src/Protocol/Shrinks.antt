-- ===== src/Protocol/Shrinks.antt =====
-- Lemmas about `read_frame` of crates/synchrosonic-transport/src/protocol.rs: what a read leaves on
-- the stream.
use audio_share.Base.{ℕ, zero, suc, ◌≤◌, ◌≡◌, refl, List, [], ◌∷◌, Result, ok, err, length, arith}
use audio_share.Protocol.{
  TransportError, io, Announced, read_frame, read_header, read_body, read_metadata, read_payload,
  parse_header,
}
use audio_share.Protocol.Wire.{
  Source, Arrival, IoKind, unexpected_eof, byte, timeout, reset, read_exact, keep_byte,
}

keep_byte-source : (b : ℕ) (r : Result IoKind (List ℕ) × Source) → (keep_byte b r).1 ≡ r.1
keep_byte-source b (ok xs, s) = refl
keep_byte-source b (err e, s) = refl

read_exact_shrinks : (n : ℕ) (s : Source) → length (read_exact n s).1 ≤ length s
unfolding read_exact
read_exact_shrinks zero s = omega arith
read_exact_shrinks (suc n) [] = omega arith
read_exact_shrinks (suc n) (timeout ∷ s) = omega arith
read_exact_shrinks (suc n) (reset ∷ s) = omega arith
read_exact_shrinks (suc n) (byte b ∷ s) =
    rw (keep_byte-source b (read_exact n s)) (let ih = read_exact_shrinks n s in omega (arith, ih))

read_exact_takes :
    (n : ℕ) (a : Arrival) (s : Source) → length (read_exact (suc n) (a ∷ s)).1 ≤ length s
unfolding read_exact
read_exact_takes n timeout s = omega arith
read_exact_takes n reset s = omega arith
read_exact_takes n (byte b) s = rw (keep_byte-source b (read_exact n s)) (read_exact_shrinks n s)

read_payload-source :
    (a : Announced) (m : List ℕ) (r : Result IoKind (List ℕ) × Source)
    → (read_payload a m r).1 ≡ r.1
unfolding read_payload
read_payload-source a m (ok p, s) = refl
read_payload-source a m (err e, s) = refl

read_metadata_shrinks :
    (a : Announced) (r : Result IoKind (List ℕ) × Source)
    → length (read_metadata a r).1 ≤ length r.1
unfolding read_metadata
read_metadata_shrinks a (ok m, s) =
    rw (read_payload-source a m (read_exact a.payload_len s)) (read_exact_shrinks a.payload_len s)
read_metadata_shrinks a (err e, s) = omega arith

read_body_shrinks :
    (r : Result TransportError Announced) (s : Source) → length (read_body r s).1 ≤ length s
unfolding read_body
read_body_shrinks (ok a) s =
    let h = read_metadata_shrinks a (read_exact a.metadata_len s) in
    let g = read_exact_shrinks a.metadata_len s in omega (arith, h, g)
read_body_shrinks (err e) s = omega arith

read_header_shrinks : (r : Result IoKind (List ℕ) × Source) → length (read_header r).1 ≤ length r.1
unfolding read_header
read_header_shrinks (ok h, s) = read_body_shrinks (parse_header h) s
read_header_shrinks (err e, s) = omega arith

-- A read of a frame takes something off a stream that has something left.
pub read_frame_takes : (a : Arrival) (s : Source) → length (read_frame (a ∷ s)).1 ≤ length s
unfolding read_frame
read_frame_takes a s =
    let h = read_header_shrinks (read_exact 13 (a ∷ s)) in
    let g = read_exact_takes 12 a s in omega (arith, h, g)

pub read_frame_end : read_frame [] ≡ (err (io unexpected_eof), [])
unfolding read_frame read_header read_exact
read_frame_end = refl
