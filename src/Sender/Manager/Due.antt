-- ===== src/Sender/Manager/Due.antt =====
-- Lemmas about `due_pending_targets` of crates/synchrosonic-transport/src/sender.rs: the ids it gives
-- and the entries under them.
use audio_share.Base.{
  ℕ, ◌≡◌, refl, sym, ap, subst, false, List, [], ◌∷◌, some, String, ◌=s=◌, =s=_iff, =s=_refl,
  Bool-cases, inl, inr, All, arith, if◌then◌else◌,
}
use audio_share.Sender.Targets.{
  Entries, TargetSessionEntry, pending, active, failed, PendingTargetSession, get, insert, remove,
  due_pending_targets, is_due,
}
use audio_share.Sender.Manager.Every.{Every, Every-insert, Every-remove, OfFound}

=s=_comm : (a b : String) → (a =s= b) ≡ false → (b =s= a) ≡ false
=s=_comm a b h = elim (Bool-cases (b =s= a)) [
  | inl e ↦
      let f : (a =s= a) ≡ false = subst (λ c. (a =s= c) ≡ false) ((=s=_iff b a).0 e) h in
      let t = =s=_refl a in absurd (ground (arith, f, t))
  | inr e ↦ e
]

module _ {C : Type 0} where
  abbrev pub IsOther : String → String → TargetSessionEntry C → Type 0
  IsOther id k entry = (k =s= id) ≡ false

  -- One entry for a key.
  abbrev pub Distinct : Entries C → Type 0
  Distinct [] = Unit
  Distinct ((k, entry) ∷ rest) = Every (IsOther k) rest × Distinct rest

  pub Distinct-insert :
      (id : String) (entry : TargetSessionEntry C) (es : Entries C)
      → Distinct es
      → Distinct (insert id entry es)
  unfolding insert
  Distinct-insert id entry [] h = (tt, tt)
  Distinct-insert id entry ((k, old) ∷ rest) h = elim (Bool-cases (k =s= id)) [
    | inl e ↦ rw e h
    | inr e ↦ rw e (
      Every-insert (IsOther k) id entry rest (=s=_comm k id e) h.0,
      Distinct-insert id entry rest h.1,
    )
  ]

  pub Distinct-remove : (id : String) (es : Entries C) → Distinct es → Distinct (remove id es)
  unfolding remove
  Distinct-remove id [] h = tt
  Distinct-remove id ((k, old) ∷ rest) h = elim (Bool-cases (k =s= id)) [
    | inl e ↦ rw e h.1
    | inr e ↦ rw e (Every-remove (IsOther k) id rest h.0, Distinct-remove id rest h.1)
  ]

  pub get-insert-other :
      (id k : String) (entry : TargetSessionEntry C) (es : Entries C)
      → (id =s= k) ≡ false
      → get k (insert id entry es) ≡ get k es
  unfolding get insert
  get-insert-other id k entry [] h = rw h refl
  get-insert-other id k entry ((j, old) ∷ rest) h = elim (Bool-cases (j =s= id)) [
    | inl e ↦
        let f : (j =s= k) ≡ false = subst (λ i. (i =s= k) ≡ false) (sym ((=s=_iff j id).0 e)) h in
        rw (e, f) refl
    | inr e ↦
        rw e
          (ap (λ later. if j =s= k then some old else later) (get-insert-other id k entry rest h))
  ]

  abbrev pub IsIdle : String → TargetSessionEntry C → Type 0
  IsIdle id (pending p) = p.in_flight ≡ false
  IsIdle id _ = Unit

  -- Ids that are all different, with no attempt under way.
  abbrev pub AreReady : List String → Entries C → Type 0
  AreReady [] es = Unit
  AreReady (id ∷ ids) es =
      All (λ k. (id =s= k) ≡ false) ids × (OfFound IsIdle id (get id es) × AreReady ids es)

  due-IsOther :
      (now : ℕ) (k : String) (es : Entries C)
      → Every (IsOther k) es
      → All (λ i. (k =s= i) ≡ false) (due_pending_targets now es)
  unfolding due_pending_targets
  due-IsOther now k [] h = tt
  due-IsOther now k ((i, pending p) ∷ rest) h = elim (Bool-cases (is_due now p)) [
    | inl e ↦ rw e (=s=_comm i k h.0, due-IsOther now k rest h.1)
    | inr e ↦ rw e (due-IsOther now k rest h.1)
  ]
  due-IsOther now k ((i, active s) ∷ rest) h = due-IsOther now k rest h.1
  due-IsOther now k ((i, failed s) ∷ rest) h = due-IsOther now k rest h.1

  -- A lookup past an entry of another key.
  AreReady-cons :
      (k : String) (entry : TargetSessionEntry C) (rest : Entries C) (ids : List String)
      → All (λ i. (k =s= i) ≡ false) ids
      → AreReady ids rest
      → AreReady ids ((k, entry) ∷ rest)
  unfolding get
  AreReady-cons k entry rest [] o h = tt
  AreReady-cons k entry rest (i ∷ ids) o h =
      let e = o.0 in (h.0, (rw e h.1.0, AreReady-cons k entry rest ids o.1 h.1.1))

  IsIdle-here :
      (k : String) (p : PendingTargetSession) (rest : Entries C)
      → p.in_flight ≡ false
      → OfFound IsIdle k (get k ((k, pending p) ∷ rest))
  unfolding get
  IsIdle-here k p rest h = rw (=s=_refl k) h

  pub due-AreReady :
      (now : ℕ) (es : Entries C) → Distinct es → AreReady (due_pending_targets now es) es
  unfolding due_pending_targets
  due-AreReady now [] d = tt
  due-AreReady now ((k, active s) ∷ rest) d =
      AreReady-cons k (active s) rest _ (due-IsOther now k rest d.0) (due-AreReady now rest d.1)
  due-AreReady now ((k, failed s) ∷ rest) d =
      AreReady-cons k (failed s) rest _ (due-IsOther now k rest d.0) (due-AreReady now rest d.1)
  due-AreReady now ((k, pending p) ∷ rest) d =
      let o = due-IsOther now k rest d.0 in
      let later = AreReady-cons k (pending p) rest _ o (due-AreReady now rest d.1) in
      elim (Bool-cases (is_due now p)) [
        | inl e ↦ rw e (o, (IsIdle-here k p rest (ground arith), later))
        | inr e ↦ rw e later
      ]

  pub AreReady-insert :
      (id : String) (entry : TargetSessionEntry C) (ids : List String) (es : Entries C)
      → All (λ k. (id =s= k) ≡ false) ids
      → AreReady ids es
      → AreReady ids (insert id entry es)
  AreReady-insert id entry [] es o h = tt
  AreReady-insert id entry (k ∷ ks) es o h = (
    h.0,
    (
      subst (OfFound IsIdle k) (sym (get-insert-other id k entry es o.0)) h.1.0,
      AreReady-insert id entry ks es o.1 h.1.1,
    ),
  )
