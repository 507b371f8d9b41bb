-- ===== src/Discovery/Registry.antt =====
-- crates/synchrosonic-discovery/src/lib.rs: `DeviceRegistry`. The `HashMap` is an association list,
-- which stands for one order of iteration; the two clocks are arguments.
use audio_share.Base.{
  ℕ, ◌-◌, Bool, true, false, not, ◌&&◌, List, [], ◌∷◌, Option, none, some, String, leb, ◌=s=◌,
  if◌then◌else◌,
}
use audio_share.Discovery.Address.{preferred_endpoint}
use audio_share.Discovery.Devices.{
  DiscoveredDevice, DiscoveredDevice-discrete, stale, DeviceAvailability, DiscoveryEvent,
  device_discovered, device_updated, device_expired, device_removed,
}

pub record RegistryEntry : Type 0 where
  pub device : DiscoveredDevice
  pub last_seen : ℕ
  pub marked_stale : Bool

abbrev pub Devices : Type 0
Devices = List (String × RegistryEntry)

pub record DeviceRegistry : Type 0 where
  pub devices : Devices
  pub stale_timeout : ℕ

unfoldable pub get : String → Devices → Option RegistryEntry
get id [] = none
get id ((key, e) ∷ rest) = if key =s= id then some e else get id rest

-- A write to the entry of a key, or a new entry.
unfoldable pub put : String → RegistryEntry → Devices → Devices
put id e [] = (id, e) ∷ []
put id e ((key, old) ∷ rest) = if key =s= id then (key, e) ∷ rest else (key, old) ∷ put id e rest

unfoldable pub remove : String → Devices → Devices
remove id [] = []
remove id ((key, e) ∷ rest) = if key =s= id then rest else (key, e) ∷ remove id rest

unfoldable pub merge_discovered_device : DiscoveredDevice → DiscoveredDevice → DiscoveredDevice
merge_discovered_device existing incoming = record incoming {
  endpoint = preferred_endpoint existing.endpoint incoming.endpoint;
}

abbrev pub unseen : DiscoveredDevice → DiscoveredDevice
unseen d = record d { last_seen_unix_ms = 0 }

abbrev pub is_yes {ℓ} : {A : Type ℓ} → Dec A → Bool
is_yes (yes _) = true
is_yes (no _) = false

unfoldable pub materially_same_discovered_device : DiscoveredDevice → DiscoveredDevice → Bool
materially_same_discovered_device existing incoming =
    is_yes (DiscoveredDevice-discrete (unseen existing) (unseen incoming))

-- The two arms of `upsert`'s match.
unfoldable pub upsert_entry :
    Option RegistryEntry
    → DiscoveredDevice
    → ℕ
    → DeviceRegistry
    → Option DiscoveryEvent × DeviceRegistry
upsert_entry (some entry) device instant r =
    let merged = merge_discovered_device entry.device device in
    (
      if materially_same_discovered_device entry.device merged
          then none
          else some (device_updated merged),
      record r {
        devices =
            put device.id (record { device = merged; last_seen = instant; marked_stale = false })
              r.devices;
      },
    )
upsert_entry none device instant r = (
  some (device_discovered device),
  record r {
    devices =
        put device.id (record { device = device; last_seen = instant; marked_stale = false })
          r.devices;
  },
)

unfoldable pub upsert :
    DiscoveredDevice → ℕ → ℕ → DeviceRegistry → Option DiscoveryEvent × DeviceRegistry
unfolding upsert_entry
upsert device unix_ms instant r =
    upsert_entry (get device.id r.devices) (record device { last_seen_unix_ms = unix_ms }) instant r

unfoldable pub find_fullname : String → Devices → Option String
find_fullname fullname [] = none
find_fullname fullname ((key, e) ∷ rest) =
    if e.device.service_fullname =s= fullname then some key else find_fullname fullname rest

unfoldable pub mark_removed_by_fullname :
    String → DeviceRegistry → Option DiscoveryEvent × DeviceRegistry
mark_removed_by_fullname fullname r = elim (find_fullname fullname r.devices) [
  | none ↦ (none, r)
  | some id ↦ (some (device_removed id fullname), record r { devices = remove id r.devices })
]

unfoldable pub is_overdue : ℕ → ℕ → RegistryEntry → Bool
is_overdue timeout instant e = not e.marked_stale && leb timeout (instant - e.last_seen)

unfoldable pub expire : RegistryEntry → RegistryEntry
expire e = record e {
  device = record e.device { status = stale; availability = DeviceAvailability.unavailable };
  marked_stale = true;
}

unfoldable pub prune : ℕ → ℕ → Devices → List DiscoveryEvent × Devices
unfolding is_overdue expire
prune timeout instant [] = ([], [])
prune timeout instant ((key, e) ∷ rest) =
    let (events, kept) = prune timeout instant rest in
    if is_overdue timeout instant e
    then (device_expired (expire e).device ∷ events, (key, expire e) ∷ kept)
    else (events, (key, e) ∷ kept)

unfoldable pub prune_stale : ℕ → DeviceRegistry → List DiscoveryEvent × DeviceRegistry
unfolding prune
prune_stale instant r =
    let (events, devices) = prune r.stale_timeout instant r.devices in
    (events, record r { devices = devices })
