-- ===== src/Protocol/Laws.antt =====
-- Lemmas about `write_frame` and `read_frame` of crates/synchrosonic-transport/src/protocol.rs.
use audio_share.Base.{ℕ, ◌+◌, ◌-◌, ◌≤◌, ◌≡◌, List, ◌++◌, ok, length, arith}
use mathlib.Core.List.{append_assoc, map-append}
use audio_share.Protocol.{
  FrameKind, Frame, header, max_metadata_bytes, max_payload_bytes, write_frame, read_frame,
  read_body,
}
use audio_share.Protocol.Wire.{Source, Writer, bytes, write_all-ok, read_exact, read_exact-bytes}
use audio_share.Protocol.Header.{parse_header-header, length-header}

-- The bytes of a frame on the wire.
abbrev pub encode : FrameKind → List ℕ → List ℕ → List ℕ
encode k metadata payload = header k (length metadata) (length payload) ++ (metadata ++ payload)

abbrev pub frame : FrameKind → List ℕ → List ℕ → Frame
frame k metadata payload = record {
  kind = k;
  metadata = metadata;
  payload = payload;
  wire_bytes = 13 + length metadata + length payload;
}

-- A frame within both limits, on a connection that takes all its bytes, is written as its
-- encoding after what was written before, and the number of bytes is returned.
pub write_frame-ok :
    (k : FrameKind) (m p : List ℕ) (w : Writer)
    → length m ≤ max_metadata_bytes
    → length p ≤ max_payload_bytes
    → 13 + length m + length p ≤ w.budget
    → write_frame k m p w ≡ (
      ok (13 + length m + length p),
      record {
        written = w.written ++ encode k m p;
        budget = w.budget - (13 + length m + length p);
      },
    )
unfolding write_frame
write_frame-ok k m p w hm hp hb =
    let h = header k (length m) (length p) in
    let e = length-header k (length m) (length p) in
    let w1 : Writer = record { written = w.written ++ h; budget = w.budget - length h } in
    let w2 : Writer = record { written = w1.written ++ m; budget = w1.budget - length m } in
    let a1 = write_all-ok h w (omega arith) in
    let a2 = write_all-ok m w1 (omega arith) in
    let a3 = write_all-ok p w2 (omega arith) in
    ground (
      arith,
      a1,
      a2,
      a3,
      e,
      append_assoc w.written h m,
      append_assoc (w.written) h (m ++ p),
      append_assoc (w.written ++ h) m p,
    )

read_body-ok :
    (k : FrameKind) (m p : List ℕ) (rest : Source)
    → read_body
        (ok (record { kind = k; metadata_len = length m; payload_len = length p }))
        (bytes m ++ (bytes p ++ rest))
      ≡ (ok (frame k m p), rest)
unfolding read_body
read_body-ok k m p rest = rw (read_exact-bytes m (bytes p ++ rest), read_exact-bytes p rest)

pub bytes-append :
    (xs ys : List ℕ) (rest : Source) → bytes (xs ++ ys) ++ rest ≡ bytes xs ++ (bytes ys ++ rest)
bytes-append xs ys rest = rw (map-append, append_assoc)

-- A frame whose metadata and payload are within the protocol's limits is read back from its
-- bytes with the same kind, metadata and payload, and reading takes off exactly that frame,
-- whatever follows it on the stream.
pub read_frame-encode :
    (k : FrameKind) (m p : List ℕ) (rest : Source)
    → length m ≤ max_metadata_bytes
    → length p ≤ max_payload_bytes
    → read_frame (bytes (encode k m p) ++ rest) ≡ (ok (frame k m p), rest)
unfolding read_frame
read_frame-encode k m p rest hm hp =
    let h = header k (length m) (length p) in
    rw (bytes-append h (m ++ p) rest, bytes-append m p rest, read_exact-header)
      (rw (parse_header-header k (length m) (length p) hm hp) (read_body-ok k m p rest))
  where
    read_exact-header :
        read_exact 13 (bytes (header k (length m) (length p)) ++ (bytes m ++ (bytes p ++ rest)))
        ≡ (ok (header k (length m) (length p)), bytes m ++ (bytes p ++ rest))
    read_exact-header =
        rw (length-header k (length m) (length p)) at
          (read_exact-bytes (header k (length m) (length p)) (bytes m ++ (bytes p ++ rest)))
