-- ===== src/Sender/Targets.antt =====
-- crates/synchrosonic-transport/src/sender.rs: `PendingTargetSession`, `TargetSessionEntry` and
-- `TargetSessionCollection`, whose hash map is an association list with one entry for a key.
use Prim.Native.String.{compare}
use Prim.Native.Nat.{Ordering}
use audio_share.Base.{
  ℕ, ◌+◌, ◌-◌, ◌/◌, min, Bool, true, false, List, [], ◌∷◌, Option, none, some, String, leb, ◌=s=◌,
  any, if◌then◌else◌, map,
}
use audio_share.Stream.{u32_mod, u64_mod}
use audio_share.Session.{StreamTargetSnapshot, StreamTargetHealth, StreamSessionState}
use audio_share.Sender.Policy.{SenderTarget, pending_target_snapshot}
use audio_share.Sender.Target.{ManagedTargetSession}

pub record PendingTargetSession : Type 0 where
  pub target : SenderTarget
  pub snapshot : StreamTargetSnapshot
  pub next_attempt_at : ℕ
  pub in_flight : Bool

unfoldable pub new_pending : SenderTarget → ℕ → PendingTargetSession
unfolding pending_target_snapshot
new_pending target now = record {
  target = target;
  snapshot = pending_target_snapshot target 0;
  next_attempt_at = now;
  in_flight = false;
}

-- `saturating_add` on u64.
unfoldable pub schedule_retry :
    ℕ → ℕ → StreamTargetSnapshot → ℕ → PendingTargetSession → PendingTargetSession
schedule_retry now now_unix_ms snapshot backoff pending = record pending {
  snapshot = record snapshot {
    next_retry_at_unix_ms = some (min (now_unix_ms + backoff / 1000000) (u64_mod - 1));
  };
  next_attempt_at = now + backoff;
  in_flight = false;
}

-- `saturating_add` on u32. The count that is returned is that of the snapshot.
unfoldable pub mark_in_flight : PendingTargetSession → PendingTargetSession
mark_in_flight pending = record pending {
  in_flight = true;
  snapshot = record pending.snapshot {
    state = StreamSessionState.connecting;
    health = StreamTargetHealth.pending;
    next_retry_at_unix_ms = none;
    attempt_count = min (pending.snapshot.attempt_count + 1) (u32_mod - 1);
  };
}

pub data TargetSessionEntry (C : Type 0) : Type 0 where
  pending : PendingTargetSession → TargetSessionEntry C
  active : ManagedTargetSession C → TargetSessionEntry C
  failed : StreamTargetSnapshot → TargetSessionEntry C

abbrev pub Entries : Type 0 → Type 0
Entries C = List (String × TargetSessionEntry C)

-- `sort_by` of `collect_snapshots`: names, and ids where they are equal.
abbrev pub precedes : StreamTargetSnapshot → StreamTargetSnapshot → Bool
precedes left right = elim (compare left.receiver_name right.receiver_name) [
  | Ordering.lt ↦ true
  | Ordering.gt ↦ false
  | Ordering.eq ↦ elim (compare left.receiver_id right.receiver_id) [
    | Ordering.gt ↦ false
    | _ ↦ true
  ]
]

unfoldable pub insert_sorted :
    StreamTargetSnapshot → List StreamTargetSnapshot → List StreamTargetSnapshot
insert_sorted x [] = x ∷ []
insert_sorted x (y ∷ ys) =
    let rest = insert_sorted x ys in if precedes x y then x ∷ (y ∷ ys) else y ∷ rest

unfoldable pub sort_snapshots : List StreamTargetSnapshot → List StreamTargetSnapshot
unfolding insert_sorted
sort_snapshots [] = []
sort_snapshots (x ∷ xs) = insert_sorted x (sort_snapshots xs)

abbrev pub is_due : ℕ → PendingTargetSession → Bool
is_due now p = if p.in_flight then false else leb p.next_attempt_at now

module _ {C : Type 0} where
  unfoldable pub entry_snapshot : TargetSessionEntry C → StreamTargetSnapshot
  entry_snapshot (pending p) = p.snapshot
  entry_snapshot (failed snapshot) = snapshot
  entry_snapshot (active session) = session.snapshot

  unfoldable pub entry_state : TargetSessionEntry C → StreamSessionState
  entry_state (pending p) = p.snapshot.state
  entry_state (failed snapshot) = snapshot.state
  entry_state (active session) = session.snapshot.state

  unfoldable pub get : String → Entries C → Option (TargetSessionEntry C)
  get id [] = none
  get id ((k, entry) ∷ rest) = let later = get id rest in if k =s= id then some entry else later

  -- `HashMap::insert`
  unfoldable pub insert : String → TargetSessionEntry C → Entries C → Entries C
  insert id entry [] = (id, entry) ∷ []
  insert id entry ((k, old) ∷ rest) =
      let later = insert id entry rest in if k =s= id then (k, entry) ∷ rest else (k, old) ∷ later

  unfoldable pub remove : String → Entries C → Entries C
  remove id [] = []
  remove id ((k, entry) ∷ rest) =
      let later = remove id rest in if k =s= id then rest else (k, entry) ∷ later

  unfoldable pub insert_pending : PendingTargetSession → Entries C → Entries C
  unfolding insert
  insert_pending p entries = insert p.target.receiver_id (pending p) entries

  unfoldable pub insert_active : ManagedTargetSession C → Entries C → Entries C
  unfolding insert
  insert_active session entries = insert session.target.receiver_id (active session) entries

  unfoldable pub insert_failed : StreamTargetSnapshot → Entries C → Entries C
  unfolding insert
  insert_failed snapshot entries = insert snapshot.receiver_id (failed snapshot) entries

  abbrev pub has : Option (TargetSessionEntry C) → Bool
  has none = false
  has (some entry) = true

  unfoldable pub contains : String → Entries C → Bool
  unfolding get
  contains id entries = has (get id entries)

  abbrev state_of : Option (TargetSessionEntry C) → Option StreamSessionState
  state_of none = none
  state_of (some entry) = some (entry_state entry)

  unfoldable pub state_for : String → Entries C → Option StreamSessionState
  unfolding get entry_state
  state_for id entries = state_of (get id entries)

  abbrev pub is_active : TargetSessionEntry C → Bool
  is_active (active session) = true
  is_active _ = false

  abbrev pub is_pending : TargetSessionEntry C → Bool
  is_pending (pending p) = true
  is_pending _ = false

  unfoldable pub has_active_targets : Entries C → Bool
  has_active_targets entries = any (λ e. is_active e.1) entries

  unfoldable pub has_pending_targets : Entries C → Bool
  has_pending_targets entries = any (λ e. is_pending e.1) entries

  unfoldable pub active_ids : Entries C → List String
  active_ids [] = []
  active_ids ((id, active session) ∷ rest) = id ∷ active_ids rest
  active_ids (_ ∷ rest) = active_ids rest

  abbrev pub active_of : Option (TargetSessionEntry C) → Option (ManagedTargetSession C)
  active_of (some (active session)) = some session
  active_of _ = none

  abbrev pub pending_of : Option (TargetSessionEntry C) → Option PendingTargetSession
  pending_of (some (pending p)) = some p
  pending_of _ = none

  unfoldable pub due_pending_targets : ℕ → Entries C → List String
  due_pending_targets now [] = []
  due_pending_targets now ((id, pending p) ∷ rest) =
      let later = due_pending_targets now rest in if is_due now p then id ∷ later else later
  due_pending_targets now (_ ∷ rest) = due_pending_targets now rest

  unfoldable pub collect_snapshots : Entries C → List StreamTargetSnapshot
  unfolding sort_snapshots entry_snapshot
  collect_snapshots entries = sort_snapshots (map (λ e. entry_snapshot e.1) entries)
