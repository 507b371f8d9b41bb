-- ===== src/AppState.antt =====
-- crates/synchrosonic-core/src/state.rs: the application's state and its reducers. The log of
-- diagnostics that the state also keeps, and the catalogue of playback targets, are left out.
use audio_share.Base.{
  ℕ, Bool, true, false, not, ◌&&◌, List, [], ◌∷◌, ◌++◌, Option, none, some, String, ◌=s=◌, any,
  find, retain, head?, is_none, map, if◌then◌else◌,
}
use audio_share.Stream.{Ratio, ReceiverLatencyPreset}
use audio_share.Config.{AppConfig, QualityPreset}
use audio_share.Receiver.State.{ReceiverSnapshot, ReceiverServiceState, from_config}
use audio_share.Session.{
  StreamSessionSnapshot, StreamSessionState, LocalMirrorState, LocalMirrorSnapshot, no_session,
}
use audio_share.Discovery.Devices.{
  DiscoveredDevice, DeviceStatus, DiscoveryEvent, device_discovered, device_updated, device_expired,
  device_removed, DiscoverySnapshot, is_receiver_connectable,
}
pub mod Laws
mod Tests

pub data CastSessionState : Type 0 where
  idle preparing casting stopping error : CastSessionState

pub data CaptureState : Type 0 where
  idle starting capturing source_changed device_disconnected stopped failed : CaptureState

pub data AudioSourceKind : Type 0 where
  monitor microphone application : AudioSourceKind

pub record AudioSource : Type 0 where
  pub id : String
  pub display_name : String
  pub kind : AudioSourceKind
  pub is_default : Bool

pub record DeviceState : Type 0 where
  pub id : String
  pub display_name : String
  pub status : DeviceStatus

pub record AppState : Type 0 where
  pub config : AppConfig
  pub cast_session : CastSessionState
  pub capture_state : CaptureState
  pub receiver : ReceiverSnapshot
  pub streaming : StreamSessionSnapshot
  pub selected_receiver_device_id : Option String
  pub audio_sources : List AudioSource
  pub selected_audio_source_id : Option String
  pub devices : List DeviceState
  pub discovered_devices : List DiscoveredDevice

abbrev mirror_state : Bool → LocalMirrorState
mirror_state true = LocalMirrorState.idle
mirror_state false = LocalMirrorState.disabled

unfoldable pub new : Ratio → AppConfig → AppState
new ratio config = record {
  config = config;
  cast_session = CastSessionState.idle;
  capture_state = CaptureState.idle;
  receiver = from_config ratio config.receiver;
  streaming = record no_session {
    local_mirror = record no_session.local_mirror {
      desired_enabled = config.audio.local_playback_enabled;
      playback_target_id = config.audio.local_playback_target_id;
      state = mirror_state config.audio.local_playback_enabled;
    };
  };
  selected_receiver_device_id = none;
  audio_sources = [];
  selected_audio_source_id = config.audio.preferred_source_id;
  devices = [];
  discovered_devices = [];
}

abbrev pub is_monitor : AudioSourceKind → Bool
is_monitor monitor = true
is_monitor _ = false

-- `or_else`
abbrev pub or_else {ℓ} : {A : Type ℓ} → Option A → Option A → Option A
or_else (some a) b = some a
or_else none b = b

abbrev pub id_of : Option AudioSource → Option String
id_of none = none
id_of (some source) = some source.id

unfoldable pub default_source : List AudioSource → Option AudioSource
default_source sources =
    or_else (find (λ source. source.is_default && is_monitor source.kind) sources)
      (or_else (find (λ source. source.is_default) sources) (head? sources))

-- The selection of `set_audio_sources`: `true` where a selected source has gone.
unfoldable pub keep_source : Option String → List AudioSource → Option String × Bool
keep_source none sources = (none, false)
keep_source (some selected) sources =
    if any (λ source. source.id =s= selected) sources
    then (some selected, false)
    else (id_of (head? sources), true)

unfoldable pub choose_source : Option String → List AudioSource → Option String × Bool
choose_source none sources = keep_source (id_of (default_source sources)) sources
choose_source (some selected) sources = keep_source (some selected) sources

unfoldable pub set_audio_sources : List AudioSource → AppState → AppState
unfolding choose_source keep_source default_source
set_audio_sources sources s =
    let (selected, changed) = choose_source s.selected_audio_source_id sources in
    record s {
      selected_audio_source_id = selected;
      capture_state = if changed then source_changed else s.capture_state;
      config = record s.config { audio = record s.config.audio { preferred_source_id = selected } };
      audio_sources = sources;
    }

unfoldable pub select_audio_source : String → AppState → Bool × AppState
select_audio_source source_id s =
    if any (λ source. source.id =s= source_id) s.audio_sources
    then (
      true,
      record s {
        selected_audio_source_id = some source_id;
        config = record s.config {
          audio = record s.config.audio { preferred_source_id = some source_id };
        };
        capture_state = source_changed;
      },
    )
    else (false, s)

abbrev session_of : StreamSessionState → CastSessionState
session_of StreamSessionState.idle = CastSessionState.idle
session_of StreamSessionState.connecting = preparing
session_of StreamSessionState.negotiating = preparing
session_of StreamSessionState.streaming = casting
session_of StreamSessionState.stopping = CastSessionState.stopping
session_of StreamSessionState.error = CastSessionState.error

unfoldable pub apply_streaming_snapshot : StreamSessionSnapshot → AppState → AppState
apply_streaming_snapshot snapshot s = record s {
  cast_session = session_of snapshot.state;
  streaming = snapshot;
}

abbrev pub is_choice : String → DiscoveredDevice → Bool
is_choice id d = d.id =s= id && is_receiver_connectable d

unfoldable pub select_receiver_device : String → AppState → Bool × AppState
select_receiver_device device_id s =
    if any (is_choice device_id) s.discovered_devices
    then (true, record s { selected_receiver_device_id = some device_id })
    else (false, s)

abbrev pub device_id_of : Option DiscoveredDevice → Option String
device_id_of none = none
device_id_of (some d) = some d.id

-- The selection that `reconcile_selected_receiver` leaves.
unfoldable pub reconciled : Option String → List DiscoveredDevice → Option String
reconciled none ds = device_id_of (find is_receiver_connectable ds)
reconciled (some selected) ds =
    if any (is_choice selected) ds
    then some selected
    else device_id_of (find is_receiver_connectable ds)

unfoldable pub reconcile_selected_receiver : AppState → AppState
unfolding reconciled
reconcile_selected_receiver s = record s {
  selected_receiver_device_id = reconciled s.selected_receiver_device_id s.discovered_devices;
}

abbrev pub device_state : DiscoveredDevice → DeviceState
device_state d = record { id = d.id; display_name = d.display_name; status = d.status }

unfoldable pub apply_discovery_snapshot : DiscoverySnapshot → AppState → AppState
unfolding reconcile_selected_receiver
apply_discovery_snapshot snapshot s = reconcile_selected_receiver (record s {
  discovered_devices = snapshot.devices;
  devices = map device_state snapshot.devices;
})

-- Find and overwrite, or push: on either list, by the id of an element.
unfoldable pub replace_or_push {ℓ} : {A : Type ℓ} → (A → String) → A → List A → List A
replace_or_push key x [] = x ∷ []
replace_or_push key x (y ∷ ys) = if key y =s= key x then x ∷ ys else y ∷ replace_or_push key x ys

unfoldable pub upsert_discovered_device : DiscoveredDevice → AppState → AppState
unfolding replace_or_push
upsert_discovered_device device s = record s {
  discovered_devices = replace_or_push (λ d. d.id) device s.discovered_devices;
  devices = replace_or_push (λ d. d.id) (device_state device) s.devices;
}

-- The match of `apply_discovery_event`.
unfoldable pub apply_event : DiscoveryEvent → AppState → AppState
unfolding upsert_discovered_device
apply_event (device_discovered device) s = upsert_discovered_device device s
apply_event (device_updated device) s = upsert_discovered_device device s
apply_event (device_removed device_id fullname) s = record s {
  discovered_devices = retain (λ d. not (d.id =s= device_id)) s.discovered_devices;
  devices = retain (λ d. not (d.id =s= device_id)) s.devices;
}
apply_event (device_expired device) s = upsert_discovered_device device s

unfoldable pub apply_discovery_event : DiscoveryEvent → AppState → AppState
unfolding apply_event reconcile_selected_receiver
apply_discovery_event event s = reconcile_selected_receiver (apply_event event s)
