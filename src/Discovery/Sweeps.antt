-- ===== src/Discovery/Sweeps.antt =====
-- Lemmas about `prune_stale` of crates/synchrosonic-discovery/src/lib.rs, over several sweeps.
use audio_share.Base.{
  ℕ, ◌-◌, ◌≡◌, refl, inl, inr, Bool, true, false, not, ◌&&◌, List, [], ◌∷◌, ◌++◌, leb, any,
  if◌then◌else◌, arith, Bool-cases,
}
use mathlib.Core.List.{Perm}
use mathlib.Core.List.Perm
use audio_share.Discovery.Devices.{DiscoveryEvent, stale, DeviceAvailability, device_expired}
use audio_share.Discovery.Registry.{RegistryEntry, Devices, is_overdue, expire, prune}

-- Sweeps at the instants, one after the other, with all their events.
abbrev pub sweeps : ℕ → List ℕ → Devices → List DiscoveryEvent × Devices
sweeps timeout [] ds = ([], ds)
sweeps timeout (i ∷ is) ds =
    let (now, kept) = prune timeout i ds in
    let (later, last) = sweeps timeout is kept in (now ++ later, last)

-- Not stale yet, and silent for the timeout at one of the instants.
abbrev pub falls_silent : ℕ → List ℕ → RegistryEntry → Bool
falls_silent timeout is e = not e.marked_stale && any (λ i. leb timeout (i - e.last_seen)) is

-- One event for each of the devices that `p` tells.
abbrev pub reports : (RegistryEntry → Bool) → Devices → List DiscoveryEvent
reports p [] = []
reports p ((k, e) ∷ ds) =
    if p e
    then device_expired
        (record e.device { status = stale; availability = DeviceAvailability.unavailable })
      ∷ reports p ds
    else reports p ds

-- The devices that `p` tells are marked as stale, and no other.
abbrev pub marked : (RegistryEntry → Bool) → Devices → Devices
marked p [] = []
marked p ((k, e) ∷ ds) =
    (
      k,
      if p e
          then record e {
            device = record e.device {
              status = stale;
              availability = DeviceAvailability.unavailable;
            };
            marked_stale = true;
          }
          else e,
    )
    ∷ marked p ds

overdue-falls_silent :
    (t i : ℕ) (is : List ℕ) (e : RegistryEntry)
    → is_overdue t i e ≡ true
    → falls_silent t (i ∷ is) e ≡ true
unfolding is_overdue
overdue-falls_silent t i is e h = ground arith

not_overdue-falls_silent :
    (t i : ℕ) (is : List ℕ) (e : RegistryEntry)
    → is_overdue t i e ≡ false
    → falls_silent t (i ∷ is) e ≡ falls_silent t is e
unfolding is_overdue
not_overdue-falls_silent t i is e h = ground arith

falls_silent-nil : (t : ℕ) (e : RegistryEntry) → falls_silent t [] e ≡ false
falls_silent-nil t e = ground arith

reports-nil : (t : ℕ) (ds : Devices) → reports (falls_silent t []) ds ≡ []
reports-nil t [] = refl
reports-nil t ((k, e) ∷ ds) = rw (falls_silent-nil t e) (reports-nil t ds)

marked-nil : (t : ℕ) (ds : Devices) → marked (falls_silent t []) ds ≡ ds
marked-nil t [] = refl
marked-nil t ((k, e) ∷ ds) = rw (falls_silent-nil t e, marked-nil t ds) refl

middle : {A : Type 0} (x : A) (xs ys : List A) → Perm (xs ++ (x ∷ ys)) (x ∷ (xs ++ ys))
middle x [] ys = Perm.refl (x ∷ ys)
middle x (y ∷ xs) ys = Perm.trans (Perm.cons y (middle x xs ys)) (Perm.swap x y (xs ++ ys))

prune-reports :
    (t i : ℕ) (is : List ℕ) (ds : Devices)
    → Perm
        ((prune t i ds).0 ++ reports (falls_silent t is) (prune t i ds).1)
        (reports (falls_silent t (i ∷ is)) ds)
unfolding prune expire
prune-reports t i is [] = Perm.refl []
prune-reports t i is ((k, e) ∷ ds) =
    let ih = prune-reports t i is ds in
    elim (Bool-cases (is_overdue t i e)) [
      | inl h ↦ rw (h, overdue-falls_silent t i is e h) (Perm.cons _ ih)
      | inr h ↦ elim (Bool-cases (falls_silent t is e)) [
        | inl g ↦
            rw (h, not_overdue-falls_silent t i is e h, g)
              (Perm.trans (middle _ (prune t i ds).0 _) (Perm.cons _ ih))
        | inr g ↦ rw (h, not_overdue-falls_silent t i is e h, g) ih
      ]
    ]

prune-marked :
    (t i : ℕ) (is : List ℕ) (ds : Devices)
    → marked (falls_silent t is) (prune t i ds).1 ≡ marked (falls_silent t (i ∷ is)) ds
unfolding prune expire
prune-marked t i is [] = refl
prune-marked t i is ((k, e) ∷ ds) = elim (Bool-cases (is_overdue t i e)) [
  | inl h ↦ rw (h, overdue-falls_silent t i is e h, prune-marked t i is ds) refl
  | inr h ↦ rw (h, not_overdue-falls_silent t i is e h, prune-marked t i is ds) refl
]

-- However often and whenever the registry is swept, each device that was not stale and is silent
-- for the timeout at one of the sweeps is reported exactly once over all of them, as stale and
-- unavailable, and so marked in the end; no other device is reported or changed.
pub sweeps-reports :
    (timeout : ℕ) (is : List ℕ) (ds : Devices)
    → Perm (sweeps timeout is ds).0 (reports (falls_silent timeout is) ds)
      × ((sweeps timeout is ds).1 ≡ marked (falls_silent timeout is) ds)
sweeps-reports t [] ds = (rw (reports-nil t ds) (Perm.refl []), rw (marked-nil t ds) refl)
sweeps-reports t (i ∷ is) ds =
    let (p, e) = sweeps-reports t is (prune t i ds).1 in
    (
      Perm.trans (Perm.append_left (prune t i ds).0 p) (prune-reports t i is ds),
      rw (e, prune-marked t i is ds) refl,
    )
