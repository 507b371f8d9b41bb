-- ===== src/Fanout/Channel.antt =====
-- The bounded channel of the crate `flume`, as far as crates/synchrosonic-transport/src/fanout.rs uses
-- it: its operations, and what its documentation says of them.
use audio_share.Base.{ℕ, ◌≤◌, ◌<◌, ◌≡◌, List, [], ◌∷◌, ◌++◌, Option, none, some, length}

pub data TrySend (T : Type 0) : Type 0 where
  sent : TrySend T
  -- `TrySendError`, with the item that was not sent.
  full : T → TrySend T
  disconnected : T → TrySend T

pub record Flume (C T : Type 0) : Type 0 where
  pub bounded : ℕ → C
  pub try_send : T → C → TrySend T × C
  pub try_recv : C → Option T × C
  pub len : C → ℕ

-- A channel with both of its ends alive is a queue of at most `capacity` items.
pub record FlumeLaws {C T : Type 0} (flume : Flume C T) : Type 0 where
  pub contents : C → List T
  pub capacity : C → ℕ
  pub contents-bounded : (n : ℕ) → contents (flume.bounded n) ≡ []
  pub capacity-bounded : (n : ℕ) → capacity (flume.bounded n) ≡ n
  pub try_send_room :
      (x : T) (c : C)
      → length (contents c) < capacity c
      → ((flume.try_send x c).0 ≡ sent) × (contents (flume.try_send x c).1 ≡ contents c ++ (x ∷ []))
  pub try_send_full :
      (x : T) (c : C) → capacity c ≤ length (contents c) → flume.try_send x c ≡ (full x, c)
  pub capacity-try_send : (x : T) (c : C) → capacity (flume.try_send x c).1 ≡ capacity c
  pub try_recv_none : (c : C) → contents c ≡ [] → flume.try_recv c ≡ (none, c)
  pub try_recv_some :
      (c : C) (x : T) (xs : List T)
      → contents c ≡ x ∷ xs
      → ((flume.try_recv c).0 ≡ some x) × (contents (flume.try_recv c).1 ≡ xs)
  pub capacity-try_recv : (c : C) → capacity (flume.try_recv c).1 ≡ capacity c
  pub len_lem : (c : C) → flume.len c ≡ length (contents c)
