-- ===== src/AppState/Tests.antt =====
-- Discovery events and audio sources applied to a state.
use audio_share.Base.{zero, suc, ◌≡◌, refl, ◌*◌, ◌/◌, List, [], ◌∷◌, some, true}
use audio_share.Stream.{Ratio}
use audio_share.Config.{default_config}
use audio_share.Discovery.Address.{v4}
use audio_share.Discovery.Devices.{
  DiscoveredDevice, DeviceAvailability, reachable, sender_receiver, device_discovered,
}
use audio_share.AppState.{
  AppState, AudioSource, monitor, microphone, new, apply_discovery_event, set_audio_sources,
}
use audio_share.AppState.Laws.{
  IsMirrored, apply_discovery_event-IsMirrored, IsChosen, apply_discovery_event-IsChosen, IsListed,
  set_audio_sources-IsListed,
}

abbrev ratio : Ratio
ratio a zero = 0
ratio a (suc b) = a * 1000000000 / suc b

abbrev fresh : AppState
fresh = new ratio default_config

abbrev office : DiscoveredDevice
office = record {
  id = "office";
  display_name = "Office";
  app_version = "0.1.9";
  protocol_version = 1;
  capabilities = sender_receiver;
  availability = DeviceAvailability.available;
  status = reachable;
  endpoint =
      some
        (record { device_id = "office"; address = record { ip = v4 192 168 1 20; port = 51700 } });
  service_fullname = "office._synchrosonic._tcp.local.";
  last_seen_unix_ms = 5;
}

fresh-IsMirrored : IsMirrored fresh
unfolding new
fresh-IsMirrored = refl

apply_discovery_event-IsMirrored_example :
    IsMirrored (apply_discovery_event (device_discovered office) fresh)
apply_discovery_event-IsMirrored_example =
    apply_discovery_event-IsMirrored (device_discovered office) fresh fresh-IsMirrored

apply_discovery_event-IsChosen_example :
    IsChosen
      (apply_discovery_event (device_discovered office) fresh).selected_receiver_device_id
      (apply_discovery_event (device_discovered office) fresh).discovered_devices
apply_discovery_event-IsChosen_example =
    apply_discovery_event-IsChosen (device_discovered office) fresh

abbrev sources : List AudioSource
sources =
    record { id = "mic"; display_name = "Microphone"; kind = microphone; is_default = true }
    ∷ record { id = "speaker"; display_name = "Speakers"; kind = monitor; is_default = true }
    ∷ []

set_audio_sources-IsListed_example :
    IsListed
      (set_audio_sources sources fresh).selected_audio_source_id
      (set_audio_sources sources fresh).audio_sources
    × ((set_audio_sources sources fresh).config.audio.preferred_source_id
        ≡ (set_audio_sources sources fresh).selected_audio_source_id)
set_audio_sources-IsListed_example = set_audio_sources-IsListed sources fresh
