-- ===== src/Sender/Summary.antt =====
-- Lemmas about `derive_manager_state` of crates/synchrosonic-transport/src/sender.rs.
use audio_share.Base.{
  ◌≡◌, ◌≢◌, ◌⊎◌, inl, inr, refl, ap, Bool, true, false, List, [], ◌∷◌, none, any, All, arith,
  Bool-cases, if◌then◌else◌,
}
use audio_share.Session.{StreamTargetSnapshot, StreamSessionState}
use audio_share.Sender.Policy.{
  derive_manager_state, all, is_empty, is_streaming, is_waiting, is_stopping, is_error,
}

abbrev pub Some : {A : Type 0} → (A → Type 0) → List A → Type 0
Some P [] = ⊥
Some P (x ∷ xs) = P x ⊎ Some P xs

abbrev pub IsIn : StreamSessionState → StreamTargetSnapshot → Type 0
IsIn s t = t.state ≡ s

abbrev pub IsNotIn : StreamSessionState → StreamTargetSnapshot → Type 0
IsNotIn s t = t.state ≢ s

-- The target is being connected, or is to be tried again.
abbrev pub IsWaiting : StreamTargetSnapshot → Type 0
IsWaiting t =
    IsIn StreamSessionState.connecting t
    ⊎ IsIn StreamSessionState.negotiating t
    ⊎ (t.next_retry_at_unix_ms ≢ none)

abbrev pub IsNotWaiting : StreamTargetSnapshot → Type 0
IsNotWaiting t = ¬ IsWaiting t

-- What each state says of all the targets.
abbrev pub Describes : List StreamTargetSnapshot → StreamSessionState → Type 0
Describes ts StreamSessionState.streaming = Some (IsIn StreamSessionState.streaming) ts
Describes ts StreamSessionState.connecting =
    All (IsNotIn StreamSessionState.streaming) ts × Some IsWaiting ts
Describes ts StreamSessionState.stopping =
    All (IsNotIn StreamSessionState.streaming) ts
    × All IsNotWaiting ts
    × Some (IsIn StreamSessionState.stopping) ts
Describes ts StreamSessionState.error =
    (ts ≢ []) × All IsNotWaiting ts × All (IsIn StreamSessionState.error) ts
Describes ts StreamSessionState.idle =
    (ts ≡ [])
    ⊎ (All (IsNotIn StreamSessionState.streaming) ts
        × All IsNotWaiting ts
        × All (IsNotIn StreamSessionState.stopping) ts
        × Some (IsNotIn StreamSessionState.error) ts)
Describes ts StreamSessionState.negotiating = ⊥

module _ {A : Type 0} (p : A → Bool) where
  any-Some :
      (P : A → Type 0) → ((x : A) → p x ≡ true → P x) → (xs : List A) → any p xs ≡ true → Some P xs
  any-Some P f [] h = absurd (ground (arith, h))
  any-Some P f (x ∷ xs) h = elim (Bool-cases (p x)) [
    | inl e ↦ inl (f x e)
    | inr e ↦ inr (any-Some P f xs (ground (arith, e, h)))
  ]

  any-All :
      (P : A → Type 0) → ((x : A) → p x ≡ false → P x) → (xs : List A) → any p xs ≡ false → All P xs
  any-All P f [] h = tt
  any-All P f (x ∷ xs) h = elim (Bool-cases (p x)) [
    | inl e ↦ absurd (ground (arith, e, h))
    | inr e ↦ (f x e, any-All P f xs (ground (arith, e, h)))
  ]

  all-All :
      (P : A → Type 0) → ((x : A) → p x ≡ true → P x) → (xs : List A) → all p xs ≡ true → All P xs
  all-All P f [] h = tt
  all-All P f (x ∷ xs) h = elim (Bool-cases (p x)) [
    | inl e ↦ (f x e, all-All P f xs (ground (arith, e, h)))
    | inr e ↦ absurd (ground (arith, e, h))
  ]

  all-Some :
      (P : A → Type 0)
      → ((x : A) → p x ≡ false → P x)
      → (xs : List A) → all p xs ≡ false
      → Some P xs
  all-Some P f [] h = absurd (ground (arith, h))
  all-Some P f (x ∷ xs) h = elim (Bool-cases (p x)) [
    | inl e ↦ inr (all-Some P f xs (ground (arith, e, h)))
    | inr e ↦ inl (f x e)
  ]

is_streaming-IsIn :
    (s : StreamSessionState) → is_streaming s ≡ true → s ≡ StreamSessionState.streaming
is_streaming-IsIn s h = ground arith

is_stopping-IsIn : (s : StreamSessionState) → is_stopping s ≡ true → s ≡ StreamSessionState.stopping
is_stopping-IsIn s h = ground arith

is_error-IsIn : (s : StreamSessionState) → is_error s ≡ true → s ≡ StreamSessionState.error
is_error-IsIn s h = ground arith

is_waiting-IsWaiting : (t : StreamTargetSnapshot) → is_waiting t ≡ true → IsWaiting t
is_waiting-IsWaiting t h = ground arith

is_waiting-IsNotWaiting : (t : StreamTargetSnapshot) → is_waiting t ≡ false → IsNotWaiting t
is_waiting-IsNotWaiting t h (inl e) = ground (arith, h, e)
is_waiting-IsNotWaiting t h (inr (inl e)) = ground (arith, h, e)
is_waiting-IsNotWaiting t h (inr (inr n)) = n (ground (arith, h))

module _ (ts : List StreamTargetSnapshot) where
  none_in :
      (p : StreamSessionState → Bool) (s : StreamSessionState)
      → p s ≡ true
      → any (λ t. p t.state) ts ≡ false
      → All (IsNotIn s) ts
  none_in p s y h =
      any-All (λ t. p t.state) (IsNotIn s) (λ t n q. ground (arith, y, n, ap p q)) ts h

  quiet : any is_waiting ts ≡ false → All IsNotWaiting ts
  quiet h = any-All is_waiting IsNotWaiting is_waiting-IsNotWaiting ts h

  not_empty : is_empty ts ≡ false → ts ≢ []
  not_empty h q = ground (arith, h, ap is_empty q)

  decided :
      (b0 b1 b2 b3 b4 : Bool)
      → is_empty ts ≡ b0
      → any (λ t. is_streaming t.state) ts ≡ b1
      → any is_waiting ts ≡ b2
      → any (λ t. is_stopping t.state) ts ≡ b3
      → all (λ t. is_error t.state) ts ≡ b4
      → Describes ts (
          if b0
          then StreamSessionState.idle
          else if b1
          then StreamSessionState.streaming
          else if b2
          then StreamSessionState.connecting
          else if b3
          then StreamSessionState.stopping
          else if b4
          then StreamSessionState.error
          else StreamSessionState.idle)
  decided true b1 b2 b3 b4 e0 e1 e2 e3 e4 = inl (empty ts e0)
    where
      empty : (xs : List StreamTargetSnapshot) → is_empty xs ≡ true → xs ≡ []
      empty [] h = refl
      empty (x ∷ xs) h = absurd (ground (arith, h))
  decided false true b2 b3 b4 e0 e1 e2 e3 e4 =
      any-Some (λ t. is_streaming t.state) (IsIn StreamSessionState.streaming)
        (λ t. is_streaming-IsIn t.state) ts e1
  decided false false true b3 b4 e0 e1 e2 e3 e4 = (
    none_in is_streaming StreamSessionState.streaming refl e1,
    any-Some is_waiting IsWaiting is_waiting-IsWaiting ts e2,
  )
  decided false false false true b4 e0 e1 e2 e3 e4 = (
    none_in is_streaming StreamSessionState.streaming refl e1,
    quiet e2,
    any-Some (λ t. is_stopping t.state) (IsIn StreamSessionState.stopping)
        (λ t. is_stopping-IsIn t.state) ts e3,
  )
  decided false false false false true e0 e1 e2 e3 e4 = (
    not_empty e0,
    quiet e2,
    all-All (λ t. is_error t.state) (IsIn StreamSessionState.error) (λ t. is_error-IsIn t.state) ts
        e4,
  )
  decided false false false false false e0 e1 e2 e3 e4 = inr (
    none_in is_streaming StreamSessionState.streaming refl e1,
    quiet e2,
    none_in is_stopping StreamSessionState.stopping refl e3,
    all-Some (λ t. is_error t.state) (IsNotIn StreamSessionState.error)
        (λ t n q. ground (arith, n, ap is_error q)) ts e4,
  )

  -- The state that sums up the targets is streaming where one streams; else connecting where one
  -- is being connected or to be tried again; else stopping where one is stopping; error where
  -- there is a target, all are in error and none is to be tried again; and idle where there is
  -- no target, or else no target streams, waits or stops and one is not in error.
  pub derive_manager_state-Describes : Describes ts (derive_manager_state ts)
  unfolding derive_manager_state
  derive_manager_state-Describes = decided _ _ _ _ _ refl refl refl refl refl
