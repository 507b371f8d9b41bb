-- ===== src/Config.antt =====
-- crates/synchrosonic-core/src/config.rs: the settings, their defaults, and their repair.
use audio_share.Base.{
  ℕ, Bool, true, false, not, ◌&&◌, ◌||◌, List, [], ◌∷◌, ◌++◌, Option, none, some, String, ltb, leb,
  ◌==◌, if◌then◌else◌, ℕ_discrete,
}
use audio_share.Discovery.Devices.{String-discrete}
use audio_share.Stream.{AudioSampleFormat, s16_le, ReceiverLatencyPreset}
use audio_share.Receiver.State.{ReceiverConfig}
use audio_share.Config.Blank.{is_blank}
mod Blank
pub mod Laws
pub mod Files
mod Tests

abbrev pub app_config_schema_version : ℕ
app_config_schema_version = 1

pub data QualityPreset : Type 0 where
  low_latency balanced high_quality : QualityPreset

pub record AudioConfig : Type 0 where
  pub preferred_source_id : Option String
  pub local_playback_enabled : Bool
  pub local_playback_target_id : Option String
  pub sample_rate_hz : ℕ
  pub channels : ℕ
  pub sample_format : AudioSampleFormat
  pub capture_buffer_frames : ℕ
  pub capture_latency_ms : ℕ

pub record DiscoveryConfig : Type 0 where
  pub enabled : Bool
  pub service_type : String
  pub stale_timeout_secs : ℕ

pub record TransportConfig : Type 0 where
  pub bind_host : String
  pub stream_port : ℕ
  pub quality : QualityPreset
  pub target_latency_ms : ℕ
  pub connect_timeout_ms : ℕ
  pub heartbeat_interval_ms : ℕ

pub record UiConfig : Type 0 where
  pub prefer_dark_theme : Bool
  pub last_view_name : String

pub record DiagnosticsConfig : Type 0 where
  pub verbose_logging : Bool

pub record AppConfig : Type 0 where
  pub schema_version : ℕ
  pub audio : AudioConfig
  pub discovery : DiscoveryConfig
  pub transport : TransportConfig
  pub receiver : ReceiverConfig
  pub ui : UiConfig
  pub diagnostics : DiagnosticsConfig

abbrev pub default_audio : AudioConfig
default_audio = record {
  preferred_source_id = none;
  local_playback_enabled = true;
  local_playback_target_id = none;
  sample_rate_hz = 48000;
  channels = 2;
  sample_format = s16_le;
  capture_buffer_frames = 480;
  capture_latency_ms = 50;
}

abbrev pub default_discovery : DiscoveryConfig
default_discovery = record {
  enabled = true;
  service_type = "_synchrosonic._tcp.local.";
  stale_timeout_secs = 30;
}

abbrev pub default_transport : TransportConfig
default_transport = record {
  bind_host = "0.0.0.0";
  stream_port = 51700;
  quality = QualityPreset.balanced;
  target_latency_ms = 150;
  connect_timeout_ms = 2000;
  heartbeat_interval_ms = 1000;
}

abbrev pub default_receiver : ReceiverConfig
default_receiver = record {
  enabled = true;
  start_on_launch = false;
  advertised_name = "SynchroSonic Receiver";
  bind_host = "0.0.0.0";
  listen_port = 51700;
  playback_target_id = none;
  latency_preset = ReceiverLatencyPreset.balanced;
}

abbrev pub default_ui : UiConfig
default_ui = record { prefer_dark_theme = true; last_view_name = "dashboard" }

abbrev pub default_config : AppConfig
default_config = record {
  schema_version = app_config_schema_version;
  audio = default_audio;
  discovery = default_discovery;
  transport = default_transport;
  receiver = default_receiver;
  ui = default_ui;
  diagnostics = record { verbose_logging = false };
}

pub data Setting : Type 0 where
  audio_sample_rate_hz audio_channels audio_capture_buffer_frames audio_capture_latency_ms
        discovery_service_type discovery_stale_timeout_secs transport_bind_host
        transport_stream_port transport_target_latency_ms transport_connect_timeout_ms
        transport_heartbeat_interval_ms receiver_advertised_name receiver_bind_host
        receiver_listen_port ui_last_view_name :
      Setting

-- A warning stands for its text.
pub data Warning : Type 0 where
  version_upgraded : ℕ → Warning
  setting_replaced : Setting → Warning

pub record ConfigLoadReport : Type 0 where
  pub config : AppConfig
  pub warnings : List Warning
  pub repaired : Bool

-- A setting after its test: an unusable value gives way to the default, with a warning.
pub record Checked {ℓ} (A : Type ℓ) : Type ℓ where
  pub value : A
  pub warnings : List Warning

abbrev pub check {ℓ} : {A : Type ℓ} → Bool → Warning → A → A → Checked A
check true w default value = record { value = default; warnings = w ∷ [] }
check false w default value = record { value = value; warnings = [] }

unfoldable pub repair_audio : AudioConfig → Checked AudioConfig
repair_audio c =
    let rate =
      check (c.sample_rate_hz == 0) (setting_replaced audio_sample_rate_hz)
        default_audio.sample_rate_hz c.sample_rate_hz in
    let channels =
      check (c.channels == 0) (setting_replaced audio_channels) default_audio.channels c.channels in
    let frames =
      check (c.capture_buffer_frames == 0) (setting_replaced audio_capture_buffer_frames)
        default_audio.capture_buffer_frames c.capture_buffer_frames in
    let latency =
      check (c.capture_latency_ms == 0) (setting_replaced audio_capture_latency_ms)
        default_audio.capture_latency_ms c.capture_latency_ms in
    record {
      value = record c {
        sample_rate_hz = rate.value;
        channels = channels.value;
        capture_buffer_frames = frames.value;
        capture_latency_ms = latency.value;
      };
      warnings = rate.warnings ++ (channels.warnings ++ (frames.warnings ++ latency.warnings));
    }

unfoldable pub repair_discovery : DiscoveryConfig → Checked DiscoveryConfig
repair_discovery c =
    let service =
      check (is_blank c.service_type) (setting_replaced discovery_service_type)
        default_discovery.service_type c.service_type in
    let timeout =
      check (c.stale_timeout_secs == 0) (setting_replaced discovery_stale_timeout_secs)
        default_discovery.stale_timeout_secs c.stale_timeout_secs in
    record {
      value = record c { service_type = service.value; stale_timeout_secs = timeout.value };
      warnings = service.warnings ++ timeout.warnings;
    }

unfoldable pub repair_transport : TransportConfig → Checked TransportConfig
repair_transport c =
    let host =
      check (is_blank c.bind_host) (setting_replaced transport_bind_host)
        default_transport.bind_host c.bind_host in
    let port =
      check (c.stream_port == 0) (setting_replaced transport_stream_port)
        default_transport.stream_port c.stream_port in
    let latency =
      check (c.target_latency_ms == 0) (setting_replaced transport_target_latency_ms)
        default_transport.target_latency_ms c.target_latency_ms in
    let connect =
      check (ltb c.connect_timeout_ms 250) (setting_replaced transport_connect_timeout_ms)
        default_transport.connect_timeout_ms c.connect_timeout_ms in
    let heartbeat =
      check (ltb c.heartbeat_interval_ms 250) (setting_replaced transport_heartbeat_interval_ms)
        default_transport.heartbeat_interval_ms c.heartbeat_interval_ms in
    record {
      value = record c {
        bind_host = host.value;
        stream_port = port.value;
        target_latency_ms = latency.value;
        connect_timeout_ms = connect.value;
        heartbeat_interval_ms = heartbeat.value;
      };
      warnings =
          host.warnings
          ++ (port.warnings ++ (latency.warnings ++ (connect.warnings ++ heartbeat.warnings)));
    }

unfoldable pub repair_receiver : ReceiverConfig → Checked ReceiverConfig
repair_receiver c =
    let name =
      check (is_blank c.advertised_name) (setting_replaced receiver_advertised_name)
        default_receiver.advertised_name c.advertised_name in
    let host =
      check (is_blank c.bind_host) (setting_replaced receiver_bind_host) default_receiver.bind_host
        c.bind_host in
    let port =
      check (c.listen_port == 0) (setting_replaced receiver_listen_port)
        default_receiver.listen_port c.listen_port in
    record {
      value = record c {
        advertised_name = name.value;
        bind_host = host.value;
        listen_port = port.value;
      };
      warnings = name.warnings ++ (host.warnings ++ port.warnings);
    }

unfoldable pub repair_ui : UiConfig → Checked UiConfig
repair_ui c =
    let view =
      check (is_blank c.last_view_name) (setting_replaced ui_last_view_name)
        default_ui.last_view_name c.last_view_name in
    record { value = record c { last_view_name = view.value }; warnings = view.warnings }

-- The derived `==`.
pub AppConfig-discrete : Discrete AppConfig
AppConfig-discrete = hlevel (String-discrete, ℕ_discrete)

abbrev pub is_no {ℓ} : {A : Type ℓ} → Dec A → Bool
is_no (yes _) = false
is_no (no _) = true

unfoldable pub repaired_config : AppConfig → Checked AppConfig
repaired_config c =
    let version =
      check (not (c.schema_version == app_config_schema_version))
        (version_upgraded c.schema_version) app_config_schema_version c.schema_version in
    let audio = repair_audio c.audio in
    let discovery = repair_discovery c.discovery in
    let transport = repair_transport c.transport in
    let receiver = repair_receiver c.receiver in
    let ui = repair_ui c.ui in
    record {
      value = record c {
        schema_version = version.value;
        audio = audio.value;
        discovery = discovery.value;
        transport = transport.value;
        receiver = receiver.value;
        ui = ui.value;
      };
      warnings =
          version.warnings
          ++ (audio.warnings
              ++ (discovery.warnings
                  ++ (transport.warnings ++ (receiver.warnings ++ ui.warnings))));
    }

-- The report's flag compares the configuration with the original.
unfoldable pub repaired : AppConfig → ConfigLoadReport
repaired c =
    let out = repaired_config c in
    record {
      config = out.value;
      warnings = out.warnings;
      repaired = is_no (AppConfig-discrete out.value c);
    }
