-- ===== src/Sender/Manager/Attempts.antt =====
-- Lemmas about `SenderManager` of crates/synchrosonic-transport/src/sender.rs: the keys of the targets
-- and the number of attempts to connect to one.
use audio_share.Base.{
  ℕ, ◌≤◌, ◌<◌, ◌≡◌, refl, sym, subst, Bool, true, false, List, [], ◌∷◌, Option, none, some, String,
  All, Bool-cases, inl, inr, ◌=s=◌, arith,
}
use audio_share.Protocol.{TransportError}
use audio_share.Sender.Policy.{SenderTarget, pending_target_snapshot, max_connect_attempts}
use audio_share.Sender.Target.{ManagedTargetSession}
use audio_share.Sender.Targets.{
  TargetSessionEntry, pending, active, failed, PendingTargetSession, new_pending, mark_in_flight,
  get, insert, remove, insert_pending, active_of, pending_of, due_pending_targets, state_for,
}
use audio_share.Sender.Manager.{
  SenderManager, SenderCommand, add_target, remove_target, set_local_mirror_enabled,
  set_local_mirror_target, set_local_device_id, set_quality_preset, shutdown, Spawned,
}
use audio_share.Sender.Manager.Commands.{
  queue_target_connect, detach, order_mirror, enable_mirror, on_command, process_commands, spawn,
  spawn_all, process_pending_targets, is_busy, is_shutdown,
}
use audio_share.Sender.Manager.Due.{
  Distinct, Distinct-insert, Distinct-remove, IsIdle, AreReady, AreReady-insert, due-AreReady,
}
use audio_share.Sender.Manager.Every.{Every, Every-insert, Every-remove, OfFound, OfFound-get}

-- An attempt is under way, or one more is left.
abbrev pub Allowed : Bool → ℕ → Type 0
Allowed true n = (1 ≤ n) × (n ≤ max_connect_attempts)
Allowed false n = n < max_connect_attempts

-- An entry belongs to its key, and counts at most three attempts.
unfoldable pub IsSound : {C : Type 0} → String → TargetSessionEntry C → Type 0
IsSound id (pending p) =
    (p.target.receiver_id ≡ id)
    × (p.snapshot.receiver_id ≡ id)
    × Allowed p.in_flight p.snapshot.attempt_count
IsSound id (active s) =
    (s.target.receiver_id ≡ id)
    × (s.snapshot.receiver_id ≡ id)
    × (s.snapshot.attempt_count ≤ max_connect_attempts)
IsSound id (failed s) = (s.receiver_id ≡ id) × (s.attempt_count ≤ max_connect_attempts)

abbrev pub IsSoundAttempt : Spawned → Type 0
IsSoundAttempt a = (1 ≤ a.attempt_count) × (a.attempt_count ≤ max_connect_attempts)

-- All targets are sound, and all attempts that were spawned.
pub record IsSoundManager {World Capture C : Type 0} (m : SenderManager World Capture C)
    : Type 0 where
  pub targets : Every IsSound m.targets
  pub distinct : Distinct m.targets
  pub spawned : All IsSoundAttempt m.spawned

-- What a step has left alone.
pub keeps-IsSoundManager :
    {World Capture C : Type 0} {m m' : SenderManager World Capture C}
    → m'.targets ≡ m.targets
    → m'.spawned ≡ m.spawned
    → IsSoundManager m
    → IsSoundManager m'
keeps-IsSoundManager t s h = record {
  targets = subst (Every IsSound) (sym t) h.targets;
  distinct = subst Distinct (sym t) h.distinct;
  spawned = subst (All IsSoundAttempt) (sym s) h.spawned;
}

pub insert-IsSoundManager :
    {World Capture C : Type 0} (id : String) (entry : TargetSessionEntry C)
    (m : SenderManager World Capture C)
    → IsSound id entry
    → IsSoundManager m
    → IsSoundManager (record m { targets = insert id entry m.targets })
insert-IsSoundManager id entry m p h = record {
  targets = Every-insert IsSound id entry m.targets p h.targets;
  distinct = Distinct-insert id entry m.targets h.distinct;
  spawned = h.spawned;
}

pub remove-IsSoundManager :
    {World Capture C : Type 0} (id : String) (m : SenderManager World Capture C)
    → IsSoundManager m
    → IsSoundManager (record m { targets = remove id m.targets })
remove-IsSoundManager id m h = record {
  targets = Every-remove IsSound id m.targets h.targets;
  distinct = Distinct-remove id m.targets h.distinct;
  spawned = h.spawned;
}

new_pending-IsSound :
    (C : Type 0) (now : ℕ) (t : SenderTarget)
    → IsSound {C = C} t.receiver_id (pending (new_pending t now))
unfolding IsSound new_pending pending_target_snapshot
new_pending-IsSound C now t = (refl, refl, omega arith)

-- The pending target whose attempt is due.
mark_in_flight-IsSound :
    (C : Type 0) (id : String) (p : PendingTargetSession)
    → IsSound {C = C} id (pending p)
    → p.snapshot.attempt_count < max_connect_attempts
    → IsSound {C = C} id (pending (mark_in_flight p))
      × ((1 ≤ (mark_in_flight p).snapshot.attempt_count)
          × ((mark_in_flight p).snapshot.attempt_count ≤ max_connect_attempts))
unfolding IsSound mark_in_flight
mark_in_flight-IsSound C id p (a, b, c) lt =
    ((a, b, (omega arith, omega arith)), (omega arith, omega arith))

idle_Allowed :
    (C : Type 0) (id : String) (p : PendingTargetSession)
    → IsSound {C = C} id (pending p)
    → p.in_flight ≡ false
    → p.snapshot.attempt_count < max_connect_attempts
unfolding IsSound
idle_Allowed C id p h e = subst (λ b. Allowed b p.snapshot.attempt_count) e h.2

module _ {World Capture C : Type 0} (to_string : TransportError → String) where
  pub detach-IsSoundManager :
      (reason : String) (s : Option (ManagedTargetSession C)) (m : SenderManager World Capture C)
      → IsSoundManager m
      → IsSoundManager (detach to_string reason s m)
  unfolding detach
  detach-IsSoundManager reason none m h = h
  detach-IsSoundManager reason (some s) m h = keeps-IsSoundManager refl refl h

  queue_target_connect-IsSoundManager :
      (now : ℕ) (t : SenderTarget) (m : SenderManager World Capture C)
      → IsSoundManager m
      → IsSoundManager (queue_target_connect to_string now t m)
  unfolding queue_target_connect insert_pending
  queue_target_connect-IsSoundManager now t m h =
      elim (Bool-cases (is_busy (state_for t.receiver_id m.targets))) [
        | inl e ↦ rw e h
        | inr e ↦ rw e (
            insert-IsSoundManager t.receiver_id (pending (new_pending t now)) m
              (new_pending-IsSound C now t) h)
      ]

  on_command-IsSoundManager :
      (runs : Bool) (now : ℕ) (c : SenderCommand) (m : SenderManager World Capture C)
      → IsSoundManager m
      → IsSoundManager (on_command to_string runs now c m)
  unfolding on_command enable_mirror order_mirror
  on_command-IsSoundManager runs now (add_target t) m h =
      queue_target_connect-IsSoundManager now t m h
  on_command-IsSoundManager runs now (remove_target id) m h =
      detach-IsSoundManager _ (active_of (get id m.targets))
        (record m { targets = remove id m.targets }) (remove-IsSoundManager id m h)
  on_command-IsSoundManager runs now (set_local_mirror_enabled b) m h =
      keeps-IsSoundManager (ground arith) (ground arith) h
  on_command-IsSoundManager runs now (set_local_mirror_target t) m h =
      keeps-IsSoundManager (ground arith) (ground arith) h
  on_command-IsSoundManager runs now (set_local_device_id id) m h = keeps-IsSoundManager refl refl h
  on_command-IsSoundManager runs now (set_quality_preset q) m h = keeps-IsSoundManager refl refl h
  on_command-IsSoundManager runs now shutdown m h = h

  pub process_commands-IsSoundManager :
      (runs : Bool) (now : ℕ) (cs : List SenderCommand) (m : SenderManager World Capture C)
      → IsSoundManager m
      → IsSoundManager (process_commands to_string runs now cs m).1
  unfolding process_commands
  process_commands-IsSoundManager runs now [] m h = h
  process_commands-IsSoundManager runs now (c ∷ rest) m h = elim (Bool-cases (is_shutdown c)) [
    | inl e ↦ rw e (keeps-IsSoundManager refl refl h)
    | inr e ↦ rw e (
        process_commands-IsSoundManager runs now rest (on_command to_string runs now c m)
          (on_command-IsSoundManager runs now c m h))
  ]

  spawn-IsSoundManager :
      (id : String) (o : Option (TargetSessionEntry C)) (m : SenderManager World Capture C)
      → OfFound IsSound id o
      → OfFound IsIdle id o
      → IsSoundManager m
      → IsSoundManager (spawn to_string id (pending_of o) m)
  unfolding spawn
  spawn-IsSoundManager id none m p q h = h
  spawn-IsSoundManager id (some (active s)) m p q h = h
  spawn-IsSoundManager id (some (failed s)) m p q h = h
  spawn-IsSoundManager id (some (pending s)) m p q h =
      let (sound, attempt) = mark_in_flight-IsSound C id s p (idle_Allowed C id s p q) in
      let inserted = insert-IsSoundManager id (pending (mark_in_flight s)) m sound h in
      record {
        targets = inserted.targets;
        distinct = inserted.distinct;
        spawned = (attempt, h.spawned);
      }

  spawn-AreReady :
      (id : String) (o : Option (TargetSessionEntry C)) (ids : List String)
      (m : SenderManager World Capture C)
      → All (λ k. (id =s= k) ≡ false) ids
      → AreReady ids m.targets
      → AreReady ids (spawn to_string id (pending_of o) m).targets
  unfolding spawn
  spawn-AreReady id none ids m o h = h
  spawn-AreReady id (some (active s)) ids m o h = h
  spawn-AreReady id (some (failed s)) ids m o h = h
  spawn-AreReady id (some (pending s)) ids m o h =
      AreReady-insert id (pending (mark_in_flight s)) ids m.targets o h

  spawn_all-IsSoundManager :
      (ids : List String) (m : SenderManager World Capture C)
      → AreReady ids m.targets
      → IsSoundManager m
      → IsSoundManager (spawn_all to_string ids m)
  unfolding spawn_all
  spawn_all-IsSoundManager [] m r h = h
  spawn_all-IsSoundManager (id ∷ ids) m r h =
      let found = get id m.targets in
      spawn_all-IsSoundManager ids (spawn to_string id (pending_of found) m)
        (spawn-AreReady id found ids m r.0 r.1.1)
        (spawn-IsSoundManager id found m (OfFound-get IsSound id m.targets h.targets) r.1.0 h)

  pub process_pending_targets-IsSoundManager :
      (now : ℕ) (m : SenderManager World Capture C)
      → IsSoundManager m
      → IsSoundManager (process_pending_targets to_string now m)
  unfolding process_pending_targets
  process_pending_targets-IsSoundManager now m h =
      spawn_all-IsSoundManager (due_pending_targets now m.targets) m
        (due-AreReady now m.targets h.distinct) h
