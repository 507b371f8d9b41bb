-- ===== src/Protocol/Wire.antt =====
-- The byte streams under the frames: what `std::io::Read::read_exact` and `Write::write_all` do
-- with a connection.
use audio_share.Base.{
  ℕ, zero, suc, ◌-◌, ◌≤◌, ◌<◌, ◌≡◌, refl, ap, List, [], ◌∷◌, ◌++◌, map, Result, ok, err, leb,
  if◌then◌else◌, length, take, arith,
}

pub data IoKind : Type 0 where
  unexpected_eof timed_out connection_reset connection_refused broken_pipe other_failure : IoKind

-- What the socket still hands over: a byte, a read that runs into the read timeout (`WouldBlock`
-- or `TimedOut`), or a reset. Past the list's end the peer has closed the connection.
pub data Arrival : Type 0 where
  byte : ℕ → Arrival
  timeout reset : Arrival

abbrev pub Source : Type 0
Source = List Arrival

abbrev pub bytes : List ℕ → Source
bytes = map byte

abbrev pub keep_byte {ℓ} :
    {S : Type ℓ} → ℕ → Result IoKind (List ℕ) × S → Result IoKind (List ℕ) × S
keep_byte b (ok xs, s) = (ok (b ∷ xs), s)
keep_byte b (err e, s) = (err e, s)

-- Fills the whole buffer or fails; what was taken before a failure is gone.
unfoldable pub read_exact : ℕ → Source → Result IoKind (List ℕ) × Source
read_exact zero s = (ok [], s)
read_exact (suc n) [] = (err unexpected_eof, [])
read_exact (suc n) (timeout ∷ s) = (err timed_out, s)
read_exact (suc n) (reset ∷ s) = (err connection_reset, s)
read_exact (suc n) (byte b ∷ s) = keep_byte b (read_exact n s)

-- A connection that takes `budget` more bytes and then breaks.
pub record Writer : Type 0 where
  pub written : List ℕ
  pub budget : ℕ

pub write_all : List ℕ → Writer → Result IoKind (Unit {0}) × Writer
write_all xs w =
    if leb (length xs) w.budget
    then (ok tt, record { written = w.written ++ xs; budget = w.budget - length xs })
    else (err broken_pipe, record { written = w.written ++ take w.budget xs; budget = 0 })

pub write_all-ok :
    (xs : List ℕ) (w : Writer)
    → length xs ≤ w.budget
    → write_all xs w ≡ (ok tt, record { written = w.written ++ xs; budget = w.budget - length xs })
unfolding write_all
write_all-ok xs w h = ground arith

pub read_exact-bytes :
    (xs : List ℕ) (rest : Source) → read_exact (length xs) (bytes xs ++ rest) ≡ (ok xs, rest)
unfolding read_exact
read_exact-bytes [] rest = refl
read_exact-bytes (x ∷ xs) rest = ap (keep_byte x) (read_exact-bytes xs rest)

pub keep_byte-eq-ok :
    (b : ℕ) (r : Result IoKind (List ℕ) × Source) {xs : List ℕ} {s : Source}
    → keep_byte b r ≡ (ok xs, s)
    → (ys : List ℕ) × (xs ≡ b ∷ ys) × (r ≡ (ok ys, s))
keep_byte-eq-ok b (ok ys, s') h = (ys, ground arith, ground arith)
keep_byte-eq-ok b (err e, s') h = absurd (ground arith)

-- A successful read has taken exactly the bytes at the front.
pub read_exact-eq-ok :
    (n : ℕ) (s : Source) {xs : List ℕ} {rest : Source}
    → read_exact n s ≡ (ok xs, rest)
    → (s ≡ bytes xs ++ rest) × (length xs ≡ n)
unfolding read_exact
read_exact-eq-ok zero s {xs} h = let e : xs ≡ [] = ground arith in rw e (ground arith, refl)
read_exact-eq-ok (suc n) [] h = absurd (ground arith)
read_exact-eq-ok (suc n) (timeout ∷ s) h = absurd (ground arith)
read_exact-eq-ok (suc n) (reset ∷ s) h = absurd (ground arith)
read_exact-eq-ok (suc n) (byte b ∷ s) h =
    let (ys, e, r) = keep_byte-eq-ok b (read_exact n s) h in
    let ih = read_exact-eq-ok n s r in rw e (ap (◌∷◌ (byte b)) ih.0, ap suc ih.1)

-- Where fewer bytes come before a failure, they are lost with it.
pub read_exact-short :
    (n : ℕ) (xs : List ℕ) (rest : Source) (kind : IoKind) (after : Source)
    → length xs < n
    → ((k : ℕ) → read_exact (suc k) rest ≡ (err kind, after))
    → read_exact n (bytes xs ++ rest) ≡ (err kind, after)
unfolding read_exact
read_exact-short zero xs rest kind after h fails = absurd (omega arith)
read_exact-short (suc n) [] rest kind after h fails = fails n
read_exact-short (suc n) (x ∷ xs) rest kind after h fails =
    ap (keep_byte x) (read_exact-short n xs rest kind after (omega arith) fails)
