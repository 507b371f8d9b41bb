-- ===== src/AppState/Laws.antt =====
-- Lemmas about the reducers of crates/synchrosonic-core/src/state.rs.
use audio_share.Base.{
  ◌≡◌, ◌≢◌, refl, sym, ap, subst, ◌∙◌, inl, inr, true, false, not, List, [], ◌∷◌, Option, none,
  some, String, ◌=s=◌, =s=_refl, any, find, retain, head?, map, arith, Bool-cases,
}
use audio_share.AppState.{
  AppState, AudioSource, device_state, is_choice, device_id_of, id_of, or_else, reconciled,
  reconcile_selected_receiver, replace_or_push, upsert_discovered_device, apply_event,
  apply_discovery_event, default_source, keep_source, choose_source, set_audio_sources,
}
use audio_share.Discovery.Devices.{
  DiscoveredDevice, DiscoveryEvent, device_discovered, device_updated, device_expired,
  device_removed, is_receiver_connectable,
}

-- The list of devices shows the discovered devices, one for one and in their order.
abbrev pub IsMirrored : AppState → Type 0
IsMirrored s = s.devices ≡ map device_state s.discovered_devices

map-replace_or_push :
    (d : DiscoveredDevice) (ds : List DiscoveredDevice)
    → replace_or_push (λ e. e.id) (device_state d) (map device_state ds)
      ≡ map device_state (replace_or_push (λ e. e.id) d ds)
unfolding replace_or_push
map-replace_or_push d [] = refl
map-replace_or_push d (e ∷ ds) = elim (Bool-cases (e.id =s= d.id)) [
  | inl h ↦ rw h refl
  | inr h ↦ rw h (ap (◌∷◌ (device_state e)) (map-replace_or_push d ds))
]

map-retain :
    (id : String) (ds : List DiscoveredDevice)
    → retain (λ e. not (e.id =s= id)) (map device_state ds)
      ≡ map device_state (retain (λ e. not (e.id =s= id)) ds)
map-retain id [] = refl
map-retain id (e ∷ ds) = elim (Bool-cases (e.id =s= id)) [
  | inl h ↦ rw (h, retain) (map-retain id ds)
  | inr h ↦ rw (h, retain) (ap (◌∷◌ (device_state e)) (map-retain id ds))
]

upsert-IsMirrored :
    (d : DiscoveredDevice) (s : AppState) → IsMirrored s → IsMirrored (upsert_discovered_device d s)
unfolding upsert_discovered_device
upsert-IsMirrored d s m =
    ap (replace_or_push (λ e. e.id) (device_state d)) m ∙ map-replace_or_push d s.discovered_devices

-- Where the list of devices shows the discovered devices one for one and in order, it does so
-- after every discovery event.
pub apply_discovery_event-IsMirrored :
    (e : DiscoveryEvent) (s : AppState) → IsMirrored s → IsMirrored (apply_discovery_event e s)
unfolding apply_discovery_event apply_event reconcile_selected_receiver
apply_discovery_event-IsMirrored (device_discovered d) s m = upsert-IsMirrored d s m
apply_discovery_event-IsMirrored (device_updated d) s m = upsert-IsMirrored d s m
apply_discovery_event-IsMirrored (device_expired d) s m = upsert-IsMirrored d s m
apply_discovery_event-IsMirrored (device_removed id fullname) s m =
    ap (retain (λ e. not (e.id =s= id))) m ∙ map-retain id s.discovered_devices

-- A selected receiver is a connectable device of the list; none is selected only where no device
-- is connectable.
abbrev pub IsChosen : Option String → List DiscoveredDevice → Type 0
IsChosen none ds = any is_receiver_connectable ds ≡ false
IsChosen (some id) ds = any (is_choice id) ds ≡ true

choice_here : (d : DiscoveredDevice) → is_receiver_connectable d ≡ true → is_choice d.id d ≡ true
choice_here d h = rw (h, =s=_refl d.id) refl

IsChosen-further :
    (d : DiscoveredDevice) (ds : List DiscoveredDevice) (selected : Option String)
    → is_receiver_connectable d ≡ false
    → IsChosen selected ds
    → IsChosen selected (d ∷ ds)
IsChosen-further d ds none h p = rw (h, any) p
IsChosen-further d ds (some id) h p = elim (Bool-cases (is_choice id d)) [
  | inl c ↦ rw (c, any) refl
  | inr c ↦ rw (c, any) p
]

find-IsChosen :
    (ds : List DiscoveredDevice) → IsChosen (device_id_of (find is_receiver_connectable ds)) ds
find-IsChosen [] = refl
find-IsChosen (d ∷ ds) = elim (Bool-cases (is_receiver_connectable d)) [
  | inl h ↦ subst (λ o. IsChosen (device_id_of o) (d ∷ ds)) (sym (here h)) (chosen h)
  | inr h ↦
      subst (λ o. IsChosen (device_id_of o) (d ∷ ds)) (sym (there h))
        (IsChosen-further d ds _ h (find-IsChosen ds))
]
  where
    here : is_receiver_connectable d ≡ true → find is_receiver_connectable (d ∷ ds) ≡ some d
    here h = rw (h, find) refl

    there :
        is_receiver_connectable d ≡ false
        → find is_receiver_connectable (d ∷ ds) ≡ find is_receiver_connectable ds
    there h = rw (h, find) refl

    chosen : is_receiver_connectable d ≡ true → any (is_choice d.id) (d ∷ ds) ≡ true
    chosen h = rw (choice_here d h, any) refl

reconciled-IsChosen :
    (selected : Option String) (ds : List DiscoveredDevice) → IsChosen (reconciled selected ds) ds
unfolding reconciled
reconciled-IsChosen none ds = find-IsChosen ds
reconciled-IsChosen (some id) ds = elim (Bool-cases (any (is_choice id) ds)) [
  | inl h ↦ rw h h
  | inr h ↦ rw h (find-IsChosen ds)
]

-- After every discovery event the selected receiver is a connectable device of the list, and
-- none is selected only where no device is connectable.
pub apply_discovery_event-IsChosen :
    (e : DiscoveryEvent) (s : AppState)
    → IsChosen
        (apply_discovery_event e s).selected_receiver_device_id
        (apply_discovery_event e s).discovered_devices
unfolding apply_discovery_event reconcile_selected_receiver
apply_discovery_event-IsChosen e s =
    reconciled-IsChosen (apply_event e s).selected_receiver_device_id
      (apply_event e s).discovered_devices

-- The selected source is one of the list; none is selected only of an empty list.
abbrev pub IsListed : Option String → List AudioSource → Type 0
IsListed none sources = sources ≡ []
IsListed (some id) sources = any (λ source. source.id =s= id) sources ≡ true

head-IsListed : (sources : List AudioSource) → IsListed (id_of (head? sources)) sources
head-IsListed [] = refl
head-IsListed (x ∷ sources) = ground (arith, =s=_refl x.id)

keep_source-IsListed :
    (id : String) (sources : List AudioSource) → IsListed (keep_source (some id) sources).0 sources
unfolding keep_source
keep_source-IsListed id sources = elim (Bool-cases (any (λ source. source.id =s= id) sources)) [
  | inl h ↦ rw h h
  | inr h ↦ rw h (head-IsListed sources)
]

or_else-some {ℓ} : {A : Type ℓ} (a b : Option A) (x : A) → or_else a (or_else b (some x)) ≢ none
or_else-some (some y) b x h = absurd (ground arith)
or_else-some none (some y) x h = absurd (ground arith)
or_else-some none none x h = absurd (ground arith)

choose_source-IsListed :
    (selected : Option String) (sources : List AudioSource)
    → IsListed (choose_source selected sources).0 sources
unfolding choose_source keep_source default_source
choose_source-IsListed (some id) sources = keep_source-IsListed id sources
choose_source-IsListed none [] = refl
choose_source-IsListed none (x ∷ xs) = by_default (default_source (x ∷ xs)) (or_else-some _ _ x)
  where
    by_default :
        (o : Option AudioSource) → (o ≢ none) → IsListed (keep_source (id_of o) (x ∷ xs)).0 (x ∷ xs)
    by_default none some_default = absurd (some_default refl)
    by_default (some y) some_default = keep_source-IsListed y.id (x ∷ xs)

-- After the audio sources are set, the selected one is in the list, none is selected only where
-- the list is empty, and the configuration prefers the selected one.
pub set_audio_sources-IsListed :
    (sources : List AudioSource) (s : AppState)
    → IsListed
        (set_audio_sources sources s).selected_audio_source_id
        (set_audio_sources sources s).audio_sources
      × ((set_audio_sources sources s).config.audio.preferred_source_id
          ≡ (set_audio_sources sources s).selected_audio_source_id)
unfolding set_audio_sources
set_audio_sources-IsListed sources s =
    (choose_source-IsListed s.selected_audio_source_id sources, refl)
