-- ===== src/Discovery/RegistryLaws.antt =====
-- Lemmas about `DeviceRegistry` of crates/synchrosonic-discovery/src/lib.rs.
use audio_share.Base.{
  ℕ, ◌≡◌, refl, ap, false, inl, inr, [], ◌∷◌, Option, none, some, String, ◌=s=◌, =s=_iff,
  if◌then◌else◌, arith, Option-cases,
}
use audio_share.Discovery.Address.{preferred_endpoint}
use audio_share.Discovery.Devices.{
  DiscoveredDevice, DiscoveredDevice-discrete, DiscoveryEvent, device_discovered, device_updated,
}
use audio_share.Discovery.Registry.{
  RegistryEntry, Devices, DeviceRegistry, get, put, merge_discovered_device, unseen,
  materially_same_discovered_device, upsert_entry, upsert, is_yes,
}

pub get-put :
    (id k : String) (e : RegistryEntry) (ds : Devices)
    → get k (put id e ds) ≡ (if id =s= k then some e else get k ds)
unfolding get put
get-put id k e [] = refl
get-put id k e ((j, old) ∷ ds) =
    ground (arith, =s=_iff id k, =s=_iff j k, =s=_iff j id, get-put id k e ds)

-- After an announcement the registry has the device under its id, seen now, not stale, and with
-- the preferred one of the old and the new endpoint where it was known; every other entry is as
-- it was.
pub get-upsert :
    (d : DiscoveredDevice) (unix_ms instant : ℕ) (r : DeviceRegistry) (k : String)
    → get k (upsert d unix_ms instant r).1.devices ≡ (
        if d.id =s= k
        then some (record {
          device = elim (get d.id r.devices) [
            | none ↦ record d { last_seen_unix_ms = unix_ms }
            | some e ↦ record d {
              last_seen_unix_ms = unix_ms;
              endpoint = preferred_endpoint e.device.endpoint d.endpoint;
            }
          ];
          last_seen = instant;
          marked_stale = false;
        })
        else get k r.devices)
unfolding upsert merge_discovered_device
get-upsert d u i r k = elim (Option-cases (get d.id r.devices)) [
  | inl e ↦ rw (e, upsert_entry) (get-put d.id k _ r.devices)
  | inr (x, e) ↦ rw (e, upsert_entry) (get-put d.id k _ r.devices)
]

-- Two devices agree in everything but the time they were seen.
pub record IsSameDevice (a b : DiscoveredDevice) : Type 0 where
  pub same_id : a.id ≡ b.id
  pub same_display_name : a.display_name ≡ b.display_name
  pub same_app_version : a.app_version ≡ b.app_version
  pub same_protocol_version : a.protocol_version ≡ b.protocol_version
  pub same_capabilities : a.capabilities ≡ b.capabilities
  pub same_availability : a.availability ≡ b.availability
  pub same_status : a.status ≡ b.status
  pub same_endpoint : a.endpoint ≡ b.endpoint
  pub same_service_fullname : a.service_fullname ≡ b.service_fullname

unseen-IsSameDevice : (a b : DiscoveredDevice) → unseen a ≡ unseen b → IsSameDevice a b
unseen-IsSameDevice a b p = record {
  same_id = ap (λ (d : DiscoveredDevice). d.id) p;
  same_display_name = ap (λ (d : DiscoveredDevice). d.display_name) p;
  same_app_version = ap (λ (d : DiscoveredDevice). d.app_version) p;
  same_protocol_version = ap (λ (d : DiscoveredDevice). d.protocol_version) p;
  same_capabilities = ap (λ (d : DiscoveredDevice). d.capabilities) p;
  same_availability = ap (λ (d : DiscoveredDevice). d.availability) p;
  same_status = ap (λ (d : DiscoveredDevice). d.status) p;
  same_endpoint = ap (λ (d : DiscoveredDevice). d.endpoint) p;
  same_service_fullname = ap (λ (d : DiscoveredDevice). d.service_fullname) p;
}

IsSameDevice-unseen : (a b : DiscoveredDevice) → IsSameDevice a b → unseen a ≡ unseen b
IsSameDevice-unseen a b s = cc (
  s.same_id, s.same_display_name, s.same_app_version, s.same_protocol_version, s.same_capabilities,
  s.same_availability, s.same_status, s.same_endpoint, s.same_service_fullname,
)

-- What an announcement of `d` is reported as.
pub data Announces (known : Option RegistryEntry) (d : DiscoveredDevice)
    : Option DiscoveryEvent → Type 0 where
  first : known ≡ none → Announces known d (some (device_discovered d))
  again :
      (e : RegistryEntry)
      → known ≡ some e
      → IsSameDevice e.device (merge_discovered_device e.device d)
      → Announces known d none
  changed :
      (e : RegistryEntry)
      → known ≡ some e
      → ¬ IsSameDevice e.device (merge_discovered_device e.device d)
      → Announces known d (some (device_updated (merge_discovered_device e.device d)))

upsert_entry-Announces :
    (o : Option RegistryEntry) (d : DiscoveredDevice) (instant : ℕ) (r : DeviceRegistry)
    → Announces o d (upsert_entry o d instant r).0
unfolding upsert_entry materially_same_discovered_device
upsert_entry-Announces none d i r = first refl
upsert_entry-Announces (some e) d i r =
    elim (DiscoveredDevice-discrete (unseen e.device) (unseen (merge_discovered_device e.device d)))
      as (λ c.
        Announces (some e) d
          (if is_yes c then none else some (device_updated (merge_discovered_device e.device d)))) [
            | yes p ↦
                again e refl (unseen-IsSameDevice e.device (merge_discovered_device e.device d) p)
            | no n ↦
                changed e refl
                  (λ s. n (IsSameDevice-unseen e.device (merge_discovered_device e.device d) s))
          ]

-- An announcement is reported as a discovery where the device was not known, as an update where
-- it was known and the announcement changes anything but the time the device was seen, and not
-- at all where it changes nothing else.
pub upsert-Announces :
    (d : DiscoveredDevice) (unix_ms instant : ℕ) (r : DeviceRegistry)
    → Announces
        (get d.id r.devices)
        (record d { last_seen_unix_ms = unix_ms })
        (upsert d unix_ms instant r).0
unfolding upsert
upsert-Announces d unix_ms instant r =
    upsert_entry-Announces (get d.id r.devices) (record d { last_seen_unix_ms = unix_ms }) instant r
