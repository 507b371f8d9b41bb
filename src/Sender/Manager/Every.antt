-- ===== src/Sender/Manager/Every.antt =====
-- Lemmas about `TargetSessionCollection` of crates/synchrosonic-transport/src/sender.rs: what holds of
-- every entry under its key.
use audio_share.Base.{
  sym, subst, [], ◌∷◌, Option, none, some, String, ◌=s=◌, =s=_iff, Bool-cases, inl, inr,
}
use audio_share.Sender.Targets.{Entries, TargetSessionEntry, get, insert, remove}

module _ {C : Type 0} (P : String → TargetSessionEntry C → Type 0) where
  abbrev pub Every : Entries C → Type 0
  Every [] = Unit
  Every ((id, entry) ∷ rest) = P id entry × Every rest

  pub Every-insert :
      (id : String) (entry : TargetSessionEntry C) (es : Entries C)
      → P id entry
      → Every es
      → Every (insert id entry es)
  unfolding insert
  Every-insert id entry [] p h = (p, tt)
  Every-insert id entry ((k, old) ∷ rest) p h = elim (Bool-cases (k =s= id)) [
    | inl e ↦ rw e (subst (λ k'. P k' entry) (sym ((=s=_iff k id).0 e)) p, h.1)
    | inr e ↦ rw e (h.0, Every-insert id entry rest p h.1)
  ]

  pub Every-remove : (id : String) (es : Entries C) → Every es → Every (remove id es)
  unfolding remove
  Every-remove id [] h = tt
  Every-remove id ((k, old) ∷ rest) h = elim (Bool-cases (k =s= id)) [
    | inl e ↦ rw e h.1
    | inr e ↦ rw e (h.0, Every-remove id rest h.1)
  ]

  -- What holds of an entry that is looked up.
  abbrev pub OfFound : String → Option (TargetSessionEntry C) → Type 0
  OfFound id none = Unit
  OfFound id (some entry) = P id entry

  pub OfFound-get : (id : String) (es : Entries C) → Every es → OfFound id (get id es)
  unfolding get
  OfFound-get id [] h = tt
  OfFound-get id ((k, old) ∷ rest) h = elim (Bool-cases (k =s= id)) [
    | inl e ↦ rw e (subst (λ k'. P k' old) ((=s=_iff k id).0 e) h.0)
    | inr e ↦ rw e (OfFound-get id rest h.1)
  ]
