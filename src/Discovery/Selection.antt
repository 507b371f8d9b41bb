-- ===== src/Discovery/Selection.antt =====
-- Lemmas about the choice of addresses in crates/synchrosonic-discovery/src/lib.rs.
use audio_share.Base.{
  ℕ, ◌≡◌, refl, sym, subst, ◌⊎◌, inl, inr, true, false, List, [], ◌∷◌, Option, none, some, All,
  arith, Bool-cases,
}
use audio_share.Discovery.Address.{
  IpAddr, TransportEndpoint, is_remote_selection_candidate, endpoint_rank, rank_lt, prefer,
  max_by_rank, select_preferred_ip_address, preferred_endpoint,
}

-- `b` ranks at least as high as `a`.
abbrev pub RankLe : IpAddr → IpAddr → Type 0
RankLe a b = rank_lt (endpoint_rank b) (endpoint_rank a) ≡ false

abbrev pub RankLt : IpAddr → IpAddr → Type 0
RankLt a b = rank_lt (endpoint_rank a) (endpoint_rank b) ≡ true

rank_le_trans : (a b c : ℕ × ℕ) → rank_lt b a ≡ false → rank_lt c b ≡ false → rank_lt c a ≡ false
rank_le_trans (a, a') (b, b') (c, c') h k = ground arith

-- It is one of the list.
abbrev pub IsIn : IpAddr → List IpAddr → Type 0
IsIn a [] = ⊥
IsIn a (x ∷ xs) = (a ≡ x) ⊎ IsIn a xs

pub record IsBest (xs : List IpAddr) (best : IpAddr) : Type 0 where
  pub member : IsIn best xs
  pub candidate : is_remote_selection_candidate best ≡ true
  pub highest : All (λ (a : IpAddr). is_remote_selection_candidate a ≡ true → RankLe a best) xs

-- What the selection promises of its answer.
abbrev pub Selects : List IpAddr → Option IpAddr → Type 0
Selects xs none = All (λ (a : IpAddr). is_remote_selection_candidate a ≡ false) xs
Selects xs (some best) = IsBest xs best

abbrev Raises : IpAddr → IpAddr → List IpAddr → Type 0
Raises a b xs =
    All (λ (c : IpAddr). is_remote_selection_candidate c ≡ true → RankLe c a) xs
    → All (λ (c : IpAddr). is_remote_selection_candidate c ≡ true → RankLe c b) xs

raise : (a b : IpAddr) (xs : List IpAddr) → RankLe a b → Raises a b xs
raise a b [] h k = tt
raise a b (c ∷ xs) h k = (
  λ e. rank_le_trans (endpoint_rank c) (endpoint_rank a) (endpoint_rank b) (k.0 e) h,
  raise a b xs h k.1,
)

none_above :
    (a : IpAddr) (xs : List IpAddr)
    → All (λ (c : IpAddr). is_remote_selection_candidate c ≡ false) xs
    → All (λ (c : IpAddr). is_remote_selection_candidate c ≡ true → RankLe c a) xs
none_above a [] h = tt
none_above a (c ∷ xs) h = (λ e. absurd (ground (arith, e, h.0)), none_above a xs h.1)

rank_asym : (a b : ℕ × ℕ) → rank_lt a b ≡ true → rank_lt b a ≡ false
rank_asym (a, a') (b, b') h = ground arith

rank_irrefl : (a : ℕ × ℕ) → rank_lt a a ≡ false
rank_irrefl (a, a') = ground arith

skip-Selects :
    (x : IpAddr) (xs : List IpAddr) (o : Option IpAddr)
    → is_remote_selection_candidate x ≡ false
    → Selects xs o
    → Selects (x ∷ xs) o
skip-Selects x xs none e h = (e, h)
skip-Selects x xs (some b) e h = record {
  member = inr h.member;
  candidate = h.candidate;
  highest = (λ t. absurd (ground (arith, e, t)), h.highest);
}

prefer-Selects :
    (x : IpAddr) (xs : List IpAddr) (o : Option IpAddr)
    → is_remote_selection_candidate x ≡ true
    → Selects xs o
    → Selects (x ∷ xs) (prefer x o)
unfolding prefer
prefer-Selects x xs none e h = record {
  member = inl refl;
  candidate = e;
  highest = (λ _. rank_irrefl (endpoint_rank x), none_above x xs h);
}
prefer-Selects x xs (some b) e h = elim (Bool-cases (rank_lt (endpoint_rank b) (endpoint_rank x))) [
  | inl t ↦
      rw (t, prefer)
        (record {
          member = inl refl;
          candidate = e;
          highest = (
            λ _. rank_irrefl (endpoint_rank x),
            raise b x xs (rank_asym (endpoint_rank b) (endpoint_rank x) t) h.highest,
          );
        })
  | inr t ↦
      rw (t, prefer)
        (record { member = inr h.member; candidate = h.candidate; highest = (λ _. t, h.highest) })
]

select-cons_yes :
    (x : IpAddr) (xs : List IpAddr)
    → is_remote_selection_candidate x ≡ true
    → select_preferred_ip_address (x ∷ xs) ≡ prefer x (select_preferred_ip_address xs)
unfolding select_preferred_ip_address max_by_rank
select-cons_yes x xs e = ground arith

select-cons_no :
    (x : IpAddr) (xs : List IpAddr)
    → is_remote_selection_candidate x ≡ false
    → select_preferred_ip_address (x ∷ xs) ≡ select_preferred_ip_address xs
unfolding select_preferred_ip_address max_by_rank
select-cons_no x xs e = ground arith

select-nil : select_preferred_ip_address [] ≡ none
unfolding select_preferred_ip_address max_by_rank
select-nil = refl

-- The selected address is a candidate of the list, and no candidate of the list has a higher
-- rank; none is selected exactly where the list has no candidate.
pub select_preferred_ip_address-Selects :
    (xs : List IpAddr) → Selects xs (select_preferred_ip_address xs)
select_preferred_ip_address-Selects [] = rw select-nil tt
select_preferred_ip_address-Selects (x ∷ xs) =
    let ih = select_preferred_ip_address-Selects xs in
    elim (Bool-cases (is_remote_selection_candidate x)) [
      | inl e ↦
          subst (Selects (x ∷ xs)) (sym (select-cons_yes x xs e))
            (prefer-Selects x xs (select_preferred_ip_address xs) e ih)
      | inr e ↦
          subst (Selects (x ∷ xs)) (sym (select-cons_no x xs e))
            (skip-Selects x xs (select_preferred_ip_address xs) e ih)
    ]

-- The endpoint that stays when these are announced one after the other.
abbrev pub preferred_of :
    Option TransportEndpoint → List (Option TransportEndpoint) → Option TransportEndpoint
preferred_of kept [] = kept
preferred_of kept (o ∷ os) = preferred_of (preferred_endpoint kept o) os

abbrev pub IsAnnounced : TransportEndpoint → List (Option TransportEndpoint) → Type 0
IsAnnounced e [] = ⊥
IsAnnounced e (o ∷ os) = (o ≡ some e) ⊎ IsAnnounced e os

abbrev pub IsOutranked : TransportEndpoint → Option TransportEndpoint → Type 0
IsOutranked best none = Unit
IsOutranked best (some e) = RankLe e.address.ip best.address.ip

abbrev pub Prefers : List (Option TransportEndpoint) → Option TransportEndpoint → Type 0
Prefers os none = All (λ (o : Option TransportEndpoint). o ≡ none) os
Prefers os (some best) = IsAnnounced best os × All (IsOutranked best) os

two-Prefers :
    (old new : TransportEndpoint) (os : List (Option TransportEndpoint))
    (r : Option TransportEndpoint)
    → Prefers (preferred_endpoint (some old) (some new) ∷ os) r
    → Prefers (some old ∷ some new ∷ os) r
unfolding preferred_endpoint
two-Prefers old new os r h =
    let a = endpoint_rank old.address.ip in
    let b = endpoint_rank new.address.ip in
    elim (Bool-cases (rank_lt a b)) [
      | inl e ↦ over r (simp (e, preferred_endpoint) at h) (rank_asym a b e)
      | inr e ↦ under r (simp (e, preferred_endpoint) at h) e
    ]
  where
    over :
        (r : Option TransportEndpoint)
        → Prefers (some new ∷ os) r
        → RankLe old.address.ip new.address.ip
        → Prefers (some old ∷ some new ∷ os) r
    over none h l = absurd (ground (arith, h.0))
    over (some best) (m, (k, ks)) l = (
      inr m,
      (
        rank_le_trans (endpoint_rank old.address.ip) (endpoint_rank new.address.ip)
            (endpoint_rank best.address.ip) l k,
        (k, ks),
      ),
    )

    under :
        (r : Option TransportEndpoint)
        → Prefers (some old ∷ os) r
        → RankLe new.address.ip old.address.ip
        → Prefers (some old ∷ some new ∷ os) r
    under none h l = absurd (ground (arith, h.0))
    under (some best) (m, (k, ks)) l = (
      elim m [ inl e ↦ inl e | inr t ↦ inr (inr t) ],
      (
        k,
        (
          rank_le_trans (endpoint_rank new.address.ip) (endpoint_rank old.address.ip)
              (endpoint_rank best.address.ip) l k,
          ks,
        ),
      ),
    )

preferred_endpoint-Prefers :
    (o n : Option TransportEndpoint) (os : List (Option TransportEndpoint))
    (r : Option TransportEndpoint)
    → Prefers (preferred_endpoint o n ∷ os) r
    → Prefers (o ∷ n ∷ os) r
unfolding preferred_endpoint
preferred_endpoint-Prefers (some a) (some b) os r h = two-Prefers a b os r h
preferred_endpoint-Prefers none none os none h = (refl, h)
preferred_endpoint-Prefers none (some b) os none h = (refl, h)
preferred_endpoint-Prefers (some a) none os none h = (h.0, (refl, h.1))
preferred_endpoint-Prefers none none os (some best) (m, k) = (inr m, (tt, k))
preferred_endpoint-Prefers none (some b) os (some best) (m, k) = (inr m, (tt, k))
preferred_endpoint-Prefers (some a) none os (some best) (inl e, k) = (inl e, (k.0, (tt, k.1)))
preferred_endpoint-Prefers (some a) none os (some best) (inr m, k) = (inr (inr m), (k.0, (tt, k.1)))

-- After any announcements, with an endpoint or without, the merge keeps one of the announced
-- endpoints, as it was announced, whose address none of them outranks; it keeps none exactly
-- where none was announced.
pub preferred_endpoint-kept :
    (os : List (Option TransportEndpoint)) (o : Option TransportEndpoint)
    → Prefers (o ∷ os) (preferred_of o os)
preferred_endpoint-kept [] none = (refl, tt)
preferred_endpoint-kept [] (some e) = (inl refl, (rank_irrefl (endpoint_rank e.address.ip), tt))
preferred_endpoint-kept (n ∷ os) o =
    preferred_endpoint-Prefers o n os (preferred_of o (n ∷ os))
      (preferred_endpoint-kept os (preferred_endpoint o n))
