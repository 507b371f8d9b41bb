-- ===== src/Config/Laws.antt =====
-- Lemmas about `AppConfig::repaired` of crates/synchrosonic-core/src/config.rs.
use audio_share.Base.{
  ℕ, ◌≡◌, refl, ap, subst, ◌↔◌, inl, inr, Bool, true, false, not, List, [], ◌∷◌, ◌++◌, ltb, ◌==◌,
  ◌≤◌, arith, Bool-cases,
}
use audio_share.Config.{
  AppConfig, AudioConfig, DiscoveryConfig, TransportConfig, ConfigLoadReport, Checked, Warning,
  check, is_no, AppConfig-discrete, repair_audio, repair_discovery, repair_transport,
  repair_receiver, repair_ui, repaired_config, repaired, app_config_schema_version,
  version_upgraded,
}
use audio_share.Receiver.State.{ReceiverConfig}
use audio_share.Config.Blank.{is_blank}

pub record IsUsableAudio (c : AudioConfig) : Type 0 where
  pub rate : 1 ≤ c.sample_rate_hz
  pub channels : 1 ≤ c.channels
  pub frames : 1 ≤ c.capture_buffer_frames
  pub latency : 1 ≤ c.capture_latency_ms

pub record IsUsableDiscovery (c : DiscoveryConfig) : Type 0 where
  pub service : is_blank c.service_type ≡ false
  pub timeout : 1 ≤ c.stale_timeout_secs

pub record IsUsableTransport (c : TransportConfig) : Type 0 where
  pub host : is_blank c.bind_host ≡ false
  pub port : 1 ≤ c.stream_port
  pub latency : 1 ≤ c.target_latency_ms
  pub connect : 250 ≤ c.connect_timeout_ms
  pub heartbeat : 250 ≤ c.heartbeat_interval_ms

pub record IsUsableReceiver (c : ReceiverConfig) : Type 0 where
  pub name : is_blank c.advertised_name ≡ false
  pub host : is_blank c.bind_host ≡ false
  pub port : 1 ≤ c.listen_port

-- What a configuration must be to start with: every number and text in use is a usable one.
pub record IsUsable (c : AppConfig) : Type 0 where
  pub version : c.schema_version ≡ app_config_schema_version
  pub audio : IsUsableAudio c.audio
  pub discovery : IsUsableDiscovery c.discovery
  pub transport : IsUsableTransport c.transport
  pub receiver : IsUsableReceiver c.receiver
  pub ui : is_blank c.ui.last_view_name ≡ false

-- A checked value passes the test when its default does.
check-good {ℓ} :
    {A : Type ℓ} (bad : A → Bool) (w : Warning) (default value : A)
    → bad default ≡ false
    → bad (check (bad value) w default value).value ≡ false
check-good bad w d v h = elim (Bool-cases (bad v)) [ inl e ↦ rw e h | inr e ↦ rw e e ]

check-good_eq {ℓ} :
    {A : Type ℓ} (bad : Bool) (w : Warning) (default value : A)
    → bad ≡ false
    → check bad w default value ≡ record { value = value; warnings = [] }
check-good_eq bad w d v h = rw h refl

check-silent {ℓ} :
    {A : Type ℓ} (bad : Bool) (w : Warning) (default value : A)
    → (check bad w default value).warnings ≡ []
    → bad ≡ false
check-silent false w d v h = refl
check-silent true w d v h = absurd (ground arith)

append_nil {ℓ} : {A : Type ℓ} (xs ys : List A) → xs ++ ys ≡ [] → (xs ≡ []) × (ys ≡ [])
append_nil [] ys h = (refl, h)
append_nil (x ∷ xs) ys h = absurd (ground arith)

positive : (n : ℕ) → (n == 0) ≡ false → 1 ≤ n
positive n h = ground arith

at_least : (k n : ℕ) → ltb n k ≡ false → k ≤ n
at_least k n h = ground arith

repair_audio-IsUsableAudio : (c : AudioConfig) → IsUsableAudio (repair_audio c).value
unfolding repair_audio
repair_audio-IsUsableAudio c = record {
  rate = positive _ (check-good (λ n. n == 0) _ 48000 c.sample_rate_hz refl);
  channels = positive _ (check-good (λ n. n == 0) _ 2 c.channels refl);
  frames = positive _ (check-good (λ n. n == 0) _ 480 c.capture_buffer_frames refl);
  latency = positive _ (check-good (λ n. n == 0) _ 50 c.capture_latency_ms refl);
}

repair_discovery-IsUsableDiscovery :
    (c : DiscoveryConfig) → IsUsableDiscovery (repair_discovery c).value
unfolding repair_discovery is_blank
repair_discovery-IsUsableDiscovery c = record {
  service = check-good is_blank _ _ c.service_type refl;
  timeout = positive _ (check-good (λ n. n == 0) _ 30 c.stale_timeout_secs refl);
}

repair_transport-IsUsableTransport :
    (c : TransportConfig) → IsUsableTransport (repair_transport c).value
unfolding repair_transport is_blank
repair_transport-IsUsableTransport c = record {
  host = check-good is_blank _ _ c.bind_host refl;
  port = positive _ (check-good (λ n. n == 0) _ 51700 c.stream_port refl);
  latency = positive _ (check-good (λ n. n == 0) _ 150 c.target_latency_ms refl);
  connect = at_least 250 _ (check-good (λ n. ltb n 250) _ 2000 c.connect_timeout_ms refl);
  heartbeat = at_least 250 _ (check-good (λ n. ltb n 250) _ 1000 c.heartbeat_interval_ms refl);
}

repair_receiver-IsUsableReceiver : (c : ReceiverConfig) → IsUsableReceiver (repair_receiver c).value
unfolding repair_receiver is_blank
repair_receiver-IsUsableReceiver c = record {
  name = check-good is_blank _ _ c.advertised_name refl;
  host = check-good is_blank _ _ c.bind_host refl;
  port = positive _ (check-good (λ n. n == 0) _ 51700 c.listen_port refl);
}

-- Whatever the configuration says, the repaired one is usable: the current schema version,
-- positive rates, sizes, ports and times, intervals of at least 250 ms, and no blank name or
-- host.
pub repaired-IsUsable : (c : AppConfig) → IsUsable (repaired c).config
unfolding repaired repaired_config repair_ui is_blank
repaired-IsUsable c = record {
  version = version c;
  audio = repair_audio-IsUsableAudio c.audio;
  discovery = repair_discovery-IsUsableDiscovery c.discovery;
  transport = repair_transport-IsUsableTransport c.transport;
  receiver = repair_receiver-IsUsableReceiver c.receiver;
  ui = check-good is_blank _ _ c.ui.last_view_name refl;
}
  where
    version :
        (c : AppConfig)
        → Checked.value (
            check
              (not (c.schema_version == 1))
              (version_upgraded c.schema_version)
              1
              c.schema_version)
          ≡ app_config_schema_version
    version c = ground arith

repair_audio-eq :
    (c : AudioConfig) → IsUsableAudio c → repair_audio c ≡ record { value = c; warnings = [] }
unfolding repair_audio
repair_audio-eq c u = ground (arith, u.rate, u.channels, u.frames, u.latency)

repair_discovery-eq :
    (c : DiscoveryConfig)
    → IsUsableDiscovery c
    → repair_discovery c ≡ record { value = c; warnings = [] }
unfolding repair_discovery
repair_discovery-eq c u = rw u.service (ground (arith, u.timeout))

repair_transport-eq :
    (c : TransportConfig)
    → IsUsableTransport c
    → repair_transport c ≡ record { value = c; warnings = [] }
unfolding repair_transport
repair_transport-eq c u = rw u.host (ground (arith, u.port, u.latency, u.connect, u.heartbeat))

repair_receiver-eq :
    (c : ReceiverConfig)
    → IsUsableReceiver c
    → repair_receiver c ≡ record { value = c; warnings = [] }
unfolding repair_receiver
repair_receiver-eq c u = rw (u.name, u.host) (ground (arith, u.port))

-- A usable configuration is kept as it is, without a warning.
pub repaired_config_kept :
    (c : AppConfig) → IsUsable c → repaired_config c ≡ record { value = c; warnings = [] }
unfolding repaired_config repair_ui
repaired_config_kept c u =
    rw
      (
        u.version,
        repair_audio-eq c.audio u.audio,
        repair_discovery-eq c.discovery u.discovery,
        repair_transport-eq c.transport u.transport,
        repair_receiver-eq c.receiver u.receiver,
        u.ui,
      )
      refl

is_no_refl : (c : AppConfig) (d : Dec (c ≡ c)) → is_no d ≡ false
is_no_refl c (yes p) = refl
is_no_refl c (no n) = absurd (n refl)

is_no-eq-false : {A : Type 0} (d : Dec A) → is_no d ≡ false → A
is_no-eq-false (yes p) h = p
is_no-eq-false (no n) h = absurd (ground arith)

abbrev clean : AppConfig → Bool → ConfigLoadReport
clean c b = record { config = c; warnings = []; repaired = b }

-- A usable configuration comes back from the repair as it was, without a warning and not marked
-- as repaired.
pub repaired_kept :
    (c : AppConfig)
    → IsUsable c
    → repaired c ≡ record { config = c; warnings = []; repaired = false }
unfolding repaired
repaired_kept c u =
    rw (repaired_config_kept c u) (ap (clean c) (is_no_refl c (AppConfig-discrete c c)))

-- The report is not marked as repaired exactly when the configuration was usable.
pub repaired_flag : (c : AppConfig) → ((repaired c).repaired ≡ false) ↔ IsUsable c
unfolding repaired
repaired_flag c = (
  (λ h.
      subst IsUsable (is_no-eq-false (AppConfig-discrete (repaired_config c).value c) h)
        (repaired-IsUsable c)),
  (λ u. ap (λ (r : ConfigLoadReport). r.repaired) (repaired_kept c u)),
)

-- A repair that gives no warning had nothing to repair.
repair_audio-silent : (c : AudioConfig) → (repair_audio c).warnings ≡ [] → IsUsableAudio c
unfolding repair_audio
repair_audio-silent c h =
    let (h1, t1) = append_nil _ _ h in
    let (h2, t2) = append_nil _ _ t1 in
    let (h3, h4) = append_nil _ _ t2 in
    record {
      rate = positive _ (check-silent _ _ _ _ h1);
      channels = positive _ (check-silent _ _ _ _ h2);
      frames = positive _ (check-silent _ _ _ _ h3);
      latency = positive _ (check-silent _ _ _ _ h4);
    }

repair_discovery-silent :
    (c : DiscoveryConfig) → (repair_discovery c).warnings ≡ [] → IsUsableDiscovery c
unfolding repair_discovery
repair_discovery-silent c h =
    let (h1, h2) = append_nil _ _ h in
    record { service = check-silent _ _ _ _ h1; timeout = positive _ (check-silent _ _ _ _ h2) }

repair_transport-silent :
    (c : TransportConfig) → (repair_transport c).warnings ≡ [] → IsUsableTransport c
unfolding repair_transport
repair_transport-silent c h =
    let (h1, t1) = append_nil _ _ h in
    let (h2, t2) = append_nil _ _ t1 in
    let (h3, t3) = append_nil _ _ t2 in
    let (h4, h5) = append_nil _ _ t3 in
    record {
      host = check-silent _ _ _ _ h1;
      port = positive _ (check-silent _ _ _ _ h2);
      latency = positive _ (check-silent _ _ _ _ h3);
      connect = at_least 250 _ (check-silent _ _ _ _ h4);
      heartbeat = at_least 250 _ (check-silent _ _ _ _ h5);
    }

repair_receiver-silent :
    (c : ReceiverConfig) → (repair_receiver c).warnings ≡ [] → IsUsableReceiver c
unfolding repair_receiver
repair_receiver-silent c h =
    let (h1, t1) = append_nil _ _ h in
    let (h2, h3) = append_nil _ _ t1 in
    record {
      name = check-silent _ _ _ _ h1;
      host = check-silent _ _ _ _ h2;
      port = positive _ (check-silent _ _ _ _ h3);
    }

-- A report without a warning comes only for a configuration that was usable.
pub repaired_silent : (c : AppConfig) → (repaired c).warnings ≡ [] → IsUsable c
unfolding repaired repaired_config repair_ui
repaired_silent c h =
    let (h1, t1) = append_nil _ _ h in
    let (h2, t2) = append_nil _ _ t1 in
    let (h3, t3) = append_nil _ _ t2 in
    let (h4, t4) = append_nil _ _ t3 in
    let (h5, h6) = append_nil _ _ t4 in
    record {
      version = current _ (check-silent _ _ _ _ h1);
      audio = repair_audio-silent c.audio h2;
      discovery = repair_discovery-silent c.discovery h3;
      transport = repair_transport-silent c.transport h4;
      receiver = repair_receiver-silent c.receiver h5;
      ui = check-silent _ _ _ _ h6;
    }
  where
    current : (n : ℕ) → not (n == 1) ≡ false → n ≡ 1
    current n h = ground arith
