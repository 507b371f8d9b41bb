-- ===== src/Discovery/Tests.antt =====
-- Addresses and announcements at concrete devices.
use audio_share.Base.{ℕ, ◌≡◌, List, [], ◌∷◌, Option, none, some, false}
use audio_share.Discovery.Address.{
  IpAddr, v4, TransportEndpoint, select_preferred_ip_address, preferred_endpoint,
}
use audio_share.Discovery.Selection.{
  Selects, select_preferred_ip_address-Selects, Prefers, preferred_of, preferred_endpoint-kept,
}
use audio_share.Discovery.Devices.{DiscoveredDevice, DeviceAvailability, reachable, sender_receiver}
use audio_share.Discovery.Registry.{RegistryEntry, DeviceRegistry, get, upsert}
use audio_share.Discovery.RegistryLaws.{get-upsert, Announces, upsert-Announces}
use audio_share.Discovery.Sweeps.{sweeps, falls_silent, reports, marked, sweeps-reports}
use mathlib.Core.List.{Perm}

abbrev private_address : IpAddr
private_address = v4 192 168 1 20

-- The bridge of a container network.
abbrev docker : IpAddr
docker = v4 172 17 0 1

abbrev endpoint : IpAddr → TransportEndpoint
endpoint ip = record { device_id = "office"; address = record { ip = ip; port = 51700 } }

select_preferred_ip_address-Selects_example :
    Selects
      (docker ∷ private_address ∷ v4 127 0 0 1 ∷ [])
      (select_preferred_ip_address (docker ∷ private_address ∷ v4 127 0 0 1 ∷ []))
select_preferred_ip_address-Selects_example =
    select_preferred_ip_address-Selects (docker ∷ private_address ∷ v4 127 0 0 1 ∷ [])

-- The bridge's address is announced after the private one, and then none.
abbrev announced : List (Option TransportEndpoint)
announced = some (endpoint docker) ∷ none ∷ []

preferred_endpoint-kept_example :
    Prefers
      (some (endpoint private_address) ∷ announced)
      (preferred_of (some (endpoint private_address)) announced)
preferred_endpoint-kept_example =
    preferred_endpoint-kept announced (some (endpoint private_address))

abbrev device : IpAddr → ℕ → DiscoveredDevice
device ip seen = record {
  id = "office";
  display_name = "Office";
  app_version = "0.1.9";
  protocol_version = 1;
  capabilities = sender_receiver;
  availability = DeviceAvailability.available;
  status = reachable;
  endpoint = some (endpoint ip);
  service_fullname = "office._synchrosonic._tcp.local.";
  last_seen_unix_ms = seen;
}

abbrev known : RegistryEntry
known = record { device = device private_address 5; last_seen = 7; marked_stale = false }

abbrev registry : DeviceRegistry
registry = record { devices = ("office", known) ∷ []; stale_timeout = 30 }

get-upsert_example :
    get "office" (upsert (device docker 0) 9 10 registry).1.devices
    ≡ some (record {
      device = record (device docker 9) {
        endpoint = preferred_endpoint (some (endpoint private_address)) (some (endpoint docker));
      };
      last_seen = 10;
      marked_stale = false;
    })
unfolding get
get-upsert_example = get-upsert (device docker 0) 9 10 registry "office"

-- Only the time and a worse address differ: nothing is reported.
upsert-Announces_example :
    Announces
      (get "office" registry.devices)
      (record (device docker 0) { last_seen_unix_ms = 9 })
      (upsert (device docker 0) 9 10 registry).0
upsert-Announces_example = upsert-Announces (device docker 0) 9 10 registry

-- Three sweeps, the last two of which come after the timeout.
sweeps-reports_example :
    Perm
      (sweeps 30 (20 ∷ 40 ∷ 50 ∷ []) registry.devices).0
      (reports (falls_silent 30 (20 ∷ 40 ∷ 50 ∷ [])) registry.devices)
    × ((sweeps 30 (20 ∷ 40 ∷ 50 ∷ []) registry.devices).1
        ≡ marked (falls_silent 30 (20 ∷ 40 ∷ 50 ∷ [])) registry.devices)
sweeps-reports_example = sweeps-reports 30 (20 ∷ 40 ∷ 50 ∷ []) registry.devices
