-- ===== src/Discovery/Devices.antt =====
-- crates/synchrosonic-core/src/models.rs: devices as discovery reports them.
use audio_share.Base.{
  ℕ, Bool, true, false, ◌&&◌, List, Option, String, ◌=s=◌, =s=_iff, arith, is_some, Bool-cases, inl,
  inr, ℕ_discrete,
}
use audio_share.Discovery.Address.{TransportEndpoint}

abbrev pub discovery_protocol_version : ℕ
discovery_protocol_version = 1

pub data DeviceStatus : Type 0 where
  discovered resolving receiver_starting receiver_listening reachable connecting connected
        unavailable stale self_device incompatible_version :
      DeviceStatus

pub record DeviceCapabilities : Type 0 where
  pub supports_sender : Bool
  pub supports_receiver : Bool
  pub supports_local_output : Bool
  pub supports_bluetooth_output : Bool

abbrev pub sender : DeviceCapabilities
sender = record {
  supports_sender = true;
  supports_receiver = false;
  supports_local_output = true;
  supports_bluetooth_output = false;
}

abbrev pub sender_receiver : DeviceCapabilities
sender_receiver = record {
  supports_sender = true;
  supports_receiver = true;
  supports_local_output = true;
  supports_bluetooth_output = false;
}

pub data DeviceAvailability : Type 0 where
  available busy unavailable : DeviceAvailability

pub record DiscoveredDevice : Type 0 where
  pub id : String
  pub display_name : String
  pub app_version : String
  pub protocol_version : ℕ
  pub capabilities : DeviceCapabilities
  pub availability : DeviceAvailability
  pub status : DeviceStatus
  pub endpoint : Option TransportEndpoint
  pub service_fullname : String
  pub last_seen_unix_ms : ℕ

abbrev pub is_available : DeviceAvailability → Bool
is_available available = true
is_available _ = false

-- `Reachable | Connecting | Connected`
abbrev pub is_reachable : DeviceStatus → Bool
is_reachable reachable = true
is_reachable connecting = true
is_reachable connected = true
is_reachable _ = false

unfoldable pub is_receiver_connectable : DiscoveredDevice → Bool
is_receiver_connectable d =
    d.capabilities.supports_receiver
    && is_available d.availability
    && is_some d.endpoint
    && is_reachable d.status

pub data DiscoveryEvent : Type 0 where
  device_discovered device_updated device_expired : DiscoveredDevice → DiscoveryEvent
  device_removed : String → String → DiscoveryEvent

pub record DiscoverySnapshot : Type 0 where
  pub devices : List DiscoveredDevice
  pub updated_at_unix_ms : ℕ

-- The derived `==`.
pub String-discrete : Discrete String
String-discrete s t = elim (Bool-cases (s =s= t)) [
  | inl e ↦ yes ((=s=_iff s t).0 e)
  | inr e ↦ no (λ p. ground (arith, e, (=s=_iff s t).1 p))
]

pub DiscoveredDevice-discrete : Discrete DiscoveredDevice
DiscoveredDevice-discrete = hlevel (String-discrete, ℕ_discrete)
