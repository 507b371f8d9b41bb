-- ===== src/Protocol/Header.antt =====
-- Lemmas about the frame header of crates/synchrosonic-transport/src/protocol.rs.
use audio_share.Base.{
  ℕ, ◌/◌, ◌%◌, ◌≤◌, ◌<◌, ◌≡◌, refl, ap, sym, ◌∙◌, true, List, [], ◌∷◌, ◌++◌, ok, length, All, arith,
  Bool-cases, inl, inr,
}
use mathlib.Core.Path.{ap₂}
use audio_share.Protocol.{
  FrameKind, hello, accept, audio, heartbeat, heartbeat_ack, stop, error, Announced, to_u8, from_u8,
  to_be_bytes, from_be_bytes, header, frame_magic, max_metadata_bytes, max_payload_bytes, bytes_eq,
  check_lengths, parse_kind, parse_header,
}

pub from_be_bytes-to_be_bytes :
    (n : ℕ)
    → n < 4294967296
    → from_be_bytes
        (n % 4294967296 / 16777216 % 256)
        (n % 4294967296 / 65536 % 256)
        (n % 4294967296 / 256 % 256)
        (n % 4294967296 % 256)
      ≡ n
from_be_bytes-to_be_bytes n h = omega arith

parse_header-header_raw :
    (k : FrameKind) (m p : ℕ)
    → parse_header (header k m p)
      ≡ check_lengths k
          (from_be_bytes
            (m % 4294967296 / 16777216 % 256)
            (m % 4294967296 / 65536 % 256)
            (m % 4294967296 / 256 % 256)
            (m % 4294967296 % 256))
          (from_be_bytes
            (p % 4294967296 / 16777216 % 256)
            (p % 4294967296 / 65536 % 256)
            (p % 4294967296 / 256 % 256)
            (p % 4294967296 % 256))
unfolding header parse_header
parse_header-header_raw hello m p = refl
parse_header-header_raw accept m p = refl
parse_header-header_raw audio m p = refl
parse_header-header_raw heartbeat m p = refl
parse_header-header_raw heartbeat_ack m p = refl
parse_header-header_raw stop m p = refl
parse_header-header_raw error m p = refl

check_lengths-ok :
    (k : FrameKind) (m p : ℕ)
    → m ≤ max_metadata_bytes
    → p ≤ max_payload_bytes
    → check_lengths k m p ≡ ok (record { kind = k; metadata_len = m; payload_len = p })
unfolding check_lengths
check_lengths-ok k m p hm hp = ground arith

pub parse_header-header :
    (k : FrameKind) (m p : ℕ)
    → m ≤ max_metadata_bytes
    → p ≤ max_payload_bytes
    → parse_header (header k m p) ≡ ok (record { kind = k; metadata_len = m; payload_len = p })
parse_header-header k m p hm hp =
    parse_header-header_raw k m p
    ∙ ap₂ (check_lengths k) (from_be_bytes-to_be_bytes m (omega arith))
        (from_be_bytes-to_be_bytes p (omega arith))
    ∙ check_lengths-ok k m p hm hp

pub length-header : (k : FrameKind) (m p : ℕ) → length (header k m p) ≡ 13
unfolding header
length-header k m p = refl

-- The other way: a header of bytes that parses is the header of what it announces.
abbrev pub IsByte : ℕ → Type 0
IsByte b = b < 256

to_u8-from_u8 : (v : ℕ) {k : FrameKind} → from_u8 v ≡ ok k → to_u8 k ≡ v
unfolding from_u8 to_u8
to_u8-from_u8 v h = ground arith

bytes_eq_sound : (xs ys : List ℕ) → bytes_eq xs ys ≡ true → xs ≡ ys
unfolding bytes_eq
bytes_eq_sound [] [] h = refl
bytes_eq_sound (x ∷ xs) (y ∷ ys) h = ground (arith, bytes_eq_sound xs ys)
bytes_eq_sound [] (y ∷ ys) h = absurd (ground arith)
bytes_eq_sound (x ∷ xs) [] h = absurd (ground arith)

to_be_bytes-from_be_bytes :
    (a b c d : ℕ)
    → a < 256
    → b < 256
    → c < 256
    → d < 256
    → to_be_bytes (from_be_bytes a b c d % 4294967296) ≡ a ∷ b ∷ c ∷ d ∷ []
to_be_bytes-from_be_bytes a b c d ha hb hc hd =
    ap₂ ◌∷◌ (omega arith)
      (ap₂ ◌∷◌ (omega arith) (ap₂ ◌∷◌ (omega arith) (ap₂ ◌∷◌ (omega arith) refl)))

-- What a header that parses announces, given its kind byte and its two lengths.
pub record Announces (a : Announced) (v m p : ℕ) : Type 0 where
  pub kind_byte : to_u8 a.kind ≡ v
  pub metadata_len : a.metadata_len ≡ m
  pub payload_len : a.payload_len ≡ p
  pub metadata_bound : m ≤ max_metadata_bytes
  pub payload_bound : p ≤ max_payload_bytes

parse_kind-Announces :
    (v m p : ℕ) {a : Announced} → parse_kind (from_u8 v) m p ≡ ok a → Announces a v m p
unfolding parse_kind check_lengths from_u8 to_u8
parse_kind-Announces v m p h = ground arith

-- The clauses of `parse_header` at thirteen bytes.
parse_header-Announces :
    (h0 h1 h2 h3 v m0 m1 m2 m3 p0 p1 p2 p3 : ℕ) {a : Announced}
    → parse_header (h0 ∷ h1 ∷ h2 ∷ h3 ∷ v ∷ m0 ∷ m1 ∷ m2 ∷ m3 ∷ p0 ∷ p1 ∷ p2 ∷ p3 ∷ []) ≡ ok a
    → (h0 ∷ h1 ∷ h2 ∷ h3 ∷ [] ≡ frame_magic)
      × Announces a v (from_be_bytes m0 m1 m2 m3) (from_be_bytes p0 p1 p2 p3)
unfolding parse_header
parse_header-Announces h0 h1 h2 h3 v m0 m1 m2 m3 p0 p1 p2 p3 {a} h =
    elim (Bool-cases (bytes_eq (h0 ∷ h1 ∷ h2 ∷ h3 ∷ []) frame_magic)) [
      | inl same ↦ (
        bytes_eq_sound _ frame_magic same,
        parse_kind-Announces v _ _ (rw (same, parse_header) at h),
      )
      | inr other ↦ absurd (ground (arith, h, other))
    ]

-- A header of bytes that parses is the header of what it announces.
pub header_of_parse :
    (h : List ℕ) {a : Announced}
    → length h ≡ 13
    → All IsByte h
    → parse_header h ≡ ok a
    → (h ≡ header a.kind a.metadata_len a.payload_len)
      × (a.metadata_len ≤ max_metadata_bytes)
      × (a.payload_len ≤ max_payload_bytes)
unfolding header
header_of_parse (h0 ∷ h1 ∷ h2 ∷ h3 ∷ v ∷ m0 ∷ m1 ∷ m2 ∷ m3 ∷ p0 ∷ p1 ∷ p2 ∷ p3 ∷ []) n b e =
    let (magic, f) = parse_header-Announces h0 h1 h2 h3 v m0 m1 m2 m3 p0 p1 p2 p3 e in
    let ms =
      to_be_bytes-from_be_bytes m0 m1 m2 m3 (omega arith) (omega arith) (omega arith)
        (omega arith) in
    let ps =
      to_be_bytes-from_be_bytes p0 p1 p2 p3 (omega arith) (omega arith) (omega arith)
        (omega arith) in
    (
      ap₂ (λ l r. l ++ r) magic
          (ap₂ ◌∷◌ (sym f.kind_byte) (
            ap₂ (λ l r. l ++ r)
              (sym ms ∙ ap (λ n. to_be_bytes (n % 4294967296)) (sym f.metadata_len))
              (sym ps ∙ ap (λ n. to_be_bytes (n % 4294967296)) (sym f.payload_len)))),
      omega arith,
      omega arith,
    )
header_of_parse _ n b e = absurd (omega arith)
