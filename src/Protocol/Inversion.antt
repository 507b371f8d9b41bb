-- ===== src/Protocol/Inversion.antt =====
-- Lemmas about `read_frame` of crates/synchrosonic-transport/src/protocol.rs: the streams it
-- reads, and streams that break.
use audio_share.Base.{
  ℕ, suc, ◌+◌, ◌≤◌, ◌<◌, ◌≡◌, refl, sym, ap, subst, ◌∙◌, dec_lt, List, [], ◌∷◌, ◌++◌, ok, err,
  length, length-append, All, arith, Result,
}
use mathlib.Core.Path.{ap₂}
use audio_share.Protocol.{
  FrameKind, Frame, TransportError, io, header, max_metadata_bytes, max_payload_bytes, parse_header,
  read_frame, read_header, read_body, read_metadata, read_payload, Announced,
}
use audio_share.Protocol.Wire.{
  Source, Arrival, byte, timeout, reset, IoKind, bytes, read_exact, read_exact-bytes,
  read_exact-eq-ok, read_exact-short,
}
use audio_share.Protocol.Header.{parse_header-header, length-header, header_of_parse, IsByte}
use audio_share.Protocol.Laws.{encode, bytes-append}

-- The stream carries octets.
abbrev pub IsByteArrival : Arrival → Type 0
IsByteArrival (byte b) = IsByte b
IsByteArrival timeout = Unit
IsByteArrival reset = Unit

bytes-IsByte : (xs : List ℕ) (rest : Source) → All IsByteArrival (bytes xs ++ rest) → All IsByte xs
bytes-IsByte [] rest h = tt
bytes-IsByte (x ∷ xs) rest h = (h.0, bytes-IsByte xs rest h.1)

read_payload-eq-ok :
    (a : Announced) (m : List ℕ) (r : Result IoKind (List ℕ) × Source) {f : Frame} {rest : Source}
    → read_payload a m r ≡ (ok f, rest)
    → (p : List ℕ) × (r ≡ (ok p, rest))
      × (f ≡ record {
        kind = a.kind;
        metadata = m;
        payload = p;
        wire_bytes = 13 + a.metadata_len + a.payload_len;
      })
unfolding read_payload
read_payload-eq-ok a m (ok p, s) h = (p, ground arith, ground arith)
read_payload-eq-ok a m (err e, s) h = absurd (ground arith)

read_metadata-eq-ok :
    (a : Announced) (r : Result IoKind (List ℕ) × Source) {f : Frame} {rest : Source}
    → read_metadata a r ≡ (ok f, rest)
    → (m : List ℕ) × (s : Source) × (r ≡ (ok m, s))
      × (read_payload a m (read_exact a.payload_len s) ≡ (ok f, rest))
unfolding read_metadata
read_metadata-eq-ok a (ok m, s) h = (m, s, refl, h)
read_metadata-eq-ok a (err e, s) h = absurd (ground arith)

read_body-eq-ok :
    (r : Result TransportError Announced) (s : Source) {f : Frame} {rest : Source}
    → read_body r s ≡ (ok f, rest)
    → (a : Announced) × (r ≡ ok a) × (read_metadata a (read_exact a.metadata_len s) ≡ (ok f, rest))
unfolding read_body
read_body-eq-ok (ok a) s h = (a, refl, h)
read_body-eq-ok (err e) s h = absurd (ground arith)

read_header-eq-ok :
    (r : Result IoKind (List ℕ) × Source) {f : Frame} {rest : Source}
    → read_header r ≡ (ok f, rest)
    → (h : List ℕ) × (s : Source) × (r ≡ (ok h, s)) × (read_body (parse_header h) s ≡ (ok f, rest))
unfolding read_header
read_header-eq-ok (ok h, s) e = (h, s, refl, e)
read_header-eq-ok (err x, s) e = absurd (ground arith)

-- A stream from which a frame was read began with that frame's one encoding.
pub record WasEncoded (s : Source) (f : Frame) (rest : Source) : Type 0 where
  pub stream : s ≡ bytes (encode f.kind f.metadata f.payload) ++ rest
  pub metadata_bound : length f.metadata ≤ max_metadata_bytes
  pub payload_bound : length f.payload ≤ max_payload_bytes
  pub counted : f.wire_bytes ≡ length (encode f.kind f.metadata f.payload)

length-encode : (k : FrameKind) (m p : List ℕ) → length (encode k m p) ≡ 13 + length m + length p
length-encode k m p = omega (
  arith,
  length-header k (length m) (length p),
  length-append (header k (length m) (length p)) (m ++ p),
  length-append m p,
)

assemble :
    (a : Announced) (h m p : List ℕ) (s s1 s2 rest : Source)
    → s ≡ bytes h ++ s1
    → s1 ≡ bytes m ++ s2
    → s2 ≡ bytes p ++ rest
    → length m ≡ a.metadata_len
    → length p ≡ a.payload_len
    → (h ≡ header a.kind a.metadata_len a.payload_len)
      × (a.metadata_len ≤ max_metadata_bytes)
      × (a.payload_len ≤ max_payload_bytes)
    → WasEncoded s
        (record {
          kind = a.kind;
          metadata = m;
          payload = p;
          wire_bytes = 13 + a.metadata_len + a.payload_len;
        })
        rest
assemble a h m p s s1 s2 rest q1 q2 q3 n2 n3 (hd, mb, pb) =
    let h' = header a.kind (length m) (length p) in
    let e : h ≡ h' = rw (n2, n3) hd in
    record {
      stream =
          q1
          ∙ ap₂ (λ x y. bytes x ++ y) e (q2 ∙ ap (λ y. bytes m ++ y) q3)
          ∙ sym (bytes-append h' (m ++ p) rest ∙ ap (λ y. bytes h' ++ y) (bytes-append m p rest));
      metadata_bound = omega arith;
      payload_bound = omega arith;
      counted = omega (arith, length-encode a.kind m p);
    }

-- When a frame is read off a stream of bytes, timeouts and resets, the stream began with that
-- frame's one encoding, within both limits, the rest is what remains, and `wire_bytes` is the
-- length of the encoding.
pub read_frame-WasEncoded :
    (s : Source) {f : Frame} {rest : Source}
    → All IsByteArrival s
    → read_frame s ≡ (ok f, rest)
    → WasEncoded s f rest
unfolding read_frame
read_frame-WasEncoded s {f} {rest} b e =
    let (h, s1, r1, e1) = read_header-eq-ok (read_exact 13 s) e in
    let (a, r2, e2) = read_body-eq-ok (parse_header h) s1 e1 in
    let (m, s2, r3, e3) = read_metadata-eq-ok a (read_exact a.metadata_len s1) e2 in
    let (p, r4, e4) = read_payload-eq-ok a m (read_exact a.payload_len s2) e3 in
    let (q1, n1) = read_exact-eq-ok 13 s r1 in
    let (q2, n2) = read_exact-eq-ok a.metadata_len s1 r3 in
    let (q3, n3) = read_exact-eq-ok a.payload_len s2 r4 in
    let hd = header_of_parse h n1 (bytes-IsByte h s1 (subst (All IsByteArrival) q1 b)) r2 in
    rw e4 (assemble a h m p s s1 s2 rest q1 q2 q3 n2 n3 hd)

-- Past the header of a valid frame the metadata is read.
read_header_lem :
    (k : FrameKind) (m p : List ℕ) (s : Source)
    → length m ≤ max_metadata_bytes
    → length p ≤ max_payload_bytes
    → read_header (read_exact 13 (bytes (header k (length m) (length p)) ++ s))
      ≡ read_metadata
          (record { kind = k; metadata_len = length m; payload_len = length p })
          (read_exact (length m) s)
unfolding read_header read_body
read_header_lem k m p s hm hp =
    let h = header k (length m) (length p) in
    let e : read_exact 13 (bytes h ++ s) ≡ (ok h, s) =
      rw (length-header k (length m) (length p)) at (read_exact-bytes h s) in
    rw (e, parse_header-header k (length m) (length p) hm hp)

-- A stream that breaks inside a frame's header yields no frame, and the bytes before are gone.
pub read_frame-broken :
    (xs : List ℕ) (rest : Source) (kind : IoKind) (after : Source)
    → length xs < 13
    → ((n : ℕ) → read_exact (suc n) rest ≡ (err kind, after))
    → read_frame (bytes xs ++ rest) ≡ (err (io kind), after)
unfolding read_frame
read_frame-broken xs rest kind after h fails = rw (read_exact-short 13 xs rest kind after h fails)

-- A list cut at two places is cut in three.
split_prefix :
    (hs xs : List ℕ) {ys zs : List ℕ}
    → xs ++ ys ≡ hs ++ zs
    → length hs ≤ length xs
    → (ws : List ℕ) × (xs ≡ hs ++ ws) × (ws ++ ys ≡ zs)
split_prefix [] xs e h = (xs, refl, e)
split_prefix (b ∷ hs) [] e h = absurd (omega arith)
split_prefix (b ∷ hs) (x ∷ xs) {ys} {zs} e h =
    let (ws, e1, e2) = split_prefix hs xs {ys = ys} {zs = zs} (cc) (omega arith) in (ws, cc, e2)

length-cut : (xs ys : List ℕ) {zs : List ℕ} → xs ++ ys ≡ zs → 0 < length ys → length xs < length zs
length-cut xs ys e h = omega (arith, ap length e, length-append xs ys)

-- When a stream fails at a place inside a valid frame, the reader gets that failure and no
-- frame, and the bytes of the frame that came before are gone: the next read starts after the
-- failure.
pub read_frame-cut :
    (k : FrameKind) (m p xs ys : List ℕ) (rest : Source) {kind : IoKind} {after : Source}
    → length m ≤ max_metadata_bytes
    → length p ≤ max_payload_bytes
    → xs ++ ys ≡ encode k m p
    → 0 < length ys
    → ((n : ℕ) → read_exact (suc n) rest ≡ (err kind, after))
    → read_frame (bytes xs ++ rest) ≡ (err (io kind), after)
unfolding read_frame
read_frame-cut k m p xs ys rest hm hp e some fails = elim (dec_lt (length xs) 13) [
  | yes short ↦ read_frame-broken xs rest _ _ short fails
  | no long ↦
      let h = header k (length m) (length p) in
      let hn = length-header k (length m) (length p) in
      let (ws, e1, e2) = split_prefix h xs {ys = ys} e (omega arith) in
      elim (dec_lt (length ws) (length m)) [
        | yes short ↦
            rw
              (
                e1,
                bytes-append h ws rest,
                read_header_lem k m p (bytes ws ++ rest) hm hp,
                read_exact-short (length m) ws rest _ _ short fails,
              )
              refl
        | no long2 ↦
            let (vs, e3, e4) = split_prefix m ws {ys = ys} e2 (omega arith) in
            rw
              (
                e1,
                e3,
                bytes-append h (m ++ vs) rest,
                bytes-append m vs rest,
                read_header_lem k m p (bytes m ++ (bytes vs ++ rest)) hm hp,
                read_exact-bytes m (bytes vs ++ rest),
                read_exact-short (length p) vs rest _ _ (length-cut vs ys e4 some) fails,
              )
              refl
      ]
]
