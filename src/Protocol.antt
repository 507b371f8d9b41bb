-- ===== src/Protocol.antt =====
-- crates/synchrosonic-transport/src/protocol.rs: the frames of the LAN protocol. A frame is a
-- header of 13 bytes (magic, kind, two big-endian lengths), the metadata and the payload.
pub mod Wire
pub mod Header
pub mod Laws
pub mod Inversion
pub mod Messages
pub mod Shrinks
mod Tests
use audio_share.Base.{
  ℕ, ◌+◌, ◌*◌, ◌/◌, ◌%◌, ◌≡◌, Bool, true, false, ◌&&◌, List, [], ◌∷◌, ◌++◌, Option, none, some,
  Result, ok, err, String, ltb, ◌==◌, if◌then◌else◌, length, get_or, take,
}
use Wire.{Source, Writer, IoKind, read_exact, write_all}

abbrev pub frame_header_len : ℕ
frame_header_len = 13

abbrev pub max_metadata_bytes : ℕ
max_metadata_bytes = 8 * 1024

abbrev pub max_payload_bytes : ℕ
max_payload_bytes = 256 * 1024

-- b"SSN1"
abbrev pub frame_magic : List ℕ
frame_magic = 83 ∷ 83 ∷ 78 ∷ 49 ∷ []

pub data FrameKind : Type 0 where
  hello accept audio heartbeat heartbeat_ack stop error : FrameKind

-- What a transport operation fails with; a message's text is kept as the values it shows.
pub data TransportError : Type 0 where
  io : IoKind → TransportError
  bad_magic : TransportError
  unknown_frame_kind : ℕ → TransportError
  metadata_too_long : TransportError
  payload_too_long : TransportError
  bad_metadata : String → TransportError
  unexpected_frame : FrameKind → TransportError
  unsupported_version : ℕ → TransportError
  codec_not_advertised codec_unsupported session_id_changed stream_changed : TransportError
  receiver_callback : String → TransportError
  bind connect : IoKind → TransportError
  audio_failed : String → TransportError
  not_running channel_closed thread_join : TransportError

-- `kind as u8`
pub to_u8 : FrameKind → ℕ
to_u8 hello = 1
to_u8 accept = 2
to_u8 audio = 3
to_u8 heartbeat = 4
to_u8 heartbeat_ack = 5
to_u8 stop = 6
to_u8 error = 7

pub from_u8 : ℕ → Result TransportError FrameKind
from_u8 value =
    if value == 1
    then ok hello
    else if value == 2
    then ok accept
    else if value == 3
    then ok audio
    else if value == 4
    then ok heartbeat
    else if value == 5
    then ok heartbeat_ack
    else if value == 6
    then ok stop
    else if value == 7
    then ok error
    else err (unknown_frame_kind value)

pub record Frame : Type 0 where
  pub kind : FrameKind
  pub metadata : List ℕ
  pub payload : List ℕ
  pub wire_bytes : ℕ

-- `u32::to_be_bytes` and `u32::from_be_bytes`.
abbrev pub to_be_bytes : ℕ → List ℕ
to_be_bytes n = (n / 16777216 % 256) ∷ (n / 65536 % 256) ∷ (n / 256 % 256) ∷ (n % 256) ∷ []

abbrev pub from_be_bytes : ℕ → ℕ → ℕ → ℕ → ℕ
from_be_bytes a b c d = a * 16777216 + b * 65536 + c * 256 + d

-- The header that `write_frame` builds. `as u32` wraps.
pub header : FrameKind → ℕ → ℕ → List ℕ
unfolding to_u8
header kind metadata_len payload_len =
    frame_magic
    ++ (to_u8 kind
        ∷ (to_be_bytes (metadata_len % 4294967296) ++ to_be_bytes (payload_len % 4294967296)))

-- Two `write_all` in a row: `and_then`.
pub and_then_write : List ℕ → Result IoKind (Unit {0}) × Writer → Result IoKind (Unit {0}) × Writer
and_then_write bytes (ok u, w) = write_all bytes w
and_then_write bytes (err e, w) = (err e, w)

pub finish_write : ℕ → Result IoKind (Unit {0}) × Writer → Result TransportError ℕ × Writer
finish_write n (ok u, w) = (ok n, w)
finish_write n (err e, w) = (err (io e), w)

pub write_frame : FrameKind → List ℕ → List ℕ → Writer → Result TransportError ℕ × Writer
unfolding and_then_write finish_write
write_frame kind metadata payload w =
    if ltb max_metadata_bytes (length metadata)
    then (err metadata_too_long, w)
    else if ltb max_payload_bytes (length payload)
    then (err payload_too_long, w)
    else (let head = header kind (length metadata) (length payload) in
        finish_write (length head + length metadata + length payload)
          (and_then_write payload (and_then_write metadata (write_all head w))))

-- `header[0..4] != FRAME_MAGIC`
pub bytes_eq : List ℕ → List ℕ → Bool
bytes_eq [] [] = true
bytes_eq (x ∷ xs) (y ∷ ys) = x == y && bytes_eq xs ys
bytes_eq _ _ = false

-- What the header announces, or why it is refused.
pub record Announced : Type 0 where
  pub kind : FrameKind
  pub metadata_len : ℕ
  pub payload_len : ℕ

pub check_lengths : FrameKind → ℕ → ℕ → Result TransportError Announced
check_lengths kind m p =
    if ltb max_metadata_bytes m
    then err metadata_too_long
    else if ltb max_payload_bytes p
    then err payload_too_long
    else ok (record { kind = kind; metadata_len = m; payload_len = p })

pub parse_kind : Result TransportError FrameKind → ℕ → ℕ → Result TransportError Announced
unfolding check_lengths
parse_kind (ok kind) m p = check_lengths kind m p
parse_kind (err e) m p = err e

pub parse_header : List ℕ → Result TransportError Announced
unfolding bytes_eq from_u8 parse_kind
parse_header h =
    if bytes_eq (take 4 h) frame_magic
    then parse_kind (from_u8 (get_or h 4 0))
        (from_be_bytes (get_or h 5 0) (get_or h 6 0) (get_or h 7 0) (get_or h 8 0))
        (from_be_bytes (get_or h 9 0) (get_or h 10 0) (get_or h 11 0) (get_or h 12 0))
    else err bad_magic

pub read_payload :
    Announced → List ℕ → Result IoKind (List ℕ) × Source → Result TransportError Frame × Source
read_payload a metadata (ok payload, s) = (
  ok (record {
    kind = a.kind;
    metadata = metadata;
    payload = payload;
    wire_bytes = frame_header_len + a.metadata_len + a.payload_len;
  }),
  s,
)
read_payload a metadata (err e, s) = (err (io e), s)

pub read_metadata :
    Announced → Result IoKind (List ℕ) × Source → Result TransportError Frame × Source
unfolding read_payload
read_metadata a (ok metadata, s) = read_payload a metadata (read_exact a.payload_len s)
read_metadata a (err e, s) = (err (io e), s)

pub read_body : Result TransportError Announced → Source → Result TransportError Frame × Source
unfolding read_metadata
read_body (ok a) s = read_metadata a (read_exact a.metadata_len s)
read_body (err e) s = (err e, s)

pub read_header : Result IoKind (List ℕ) × Source → Result TransportError Frame × Source
unfolding read_body parse_header
read_header (ok h, s) = read_body (parse_header h) s
read_header (err e, s) = (err (io e), s)

pub read_frame : Source → Result TransportError Frame × Source
unfolding read_header
read_frame s = read_header (read_exact frame_header_len s)
