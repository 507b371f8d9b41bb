-- ===== src/Config/Tests.antt =====
-- Configurations repaired, saved and loaded.
use audio_share.Base.{◌≡◌, ◌↔◌, refl, sym, ap, [], none, String, Result, ok, err, false, arith}
use audio_share.Config.{AppConfig, AppConfig-discrete, ConfigLoadReport, default_config, repaired}
use audio_share.Config.Laws.{IsUsable, repaired-IsUsable, repaired_kept, repaired_flag}
use audio_share.Config.Files.{
  Files, load_with_report_from_path, save_to_path, load_with_report-IsUsable, load-save,
  create_parent, write_encoded, save_after,
}
use audio_share.Config.Blank.{is_blank}

-- A configuration of an older version with a sample rate of 0.
abbrev broken : AppConfig
broken = record default_config {
  schema_version = 0;
  audio = record default_config.audio { sample_rate_hz = 0 };
}

repaired-IsUsable_example : IsUsable (repaired broken).config
repaired-IsUsable_example = repaired-IsUsable broken

default-IsUsable : IsUsable default_config
unfolding is_blank
default-IsUsable = record {
  version = refl;
  audio = record {
    rate = omega arith;
    channels = omega arith;
    frames = omega arith;
    latency = omega arith;
  };
  discovery = record { service = refl; timeout = omega arith };
  transport = record {
    host = refl;
    port = omega arith;
    latency = omega arith;
    connect = omega arith;
    heartbeat = omega arith;
  };
  receiver = record { name = refl; host = refl; port = omega arith };
  ui = refl;
}

repaired_kept_example :
    repaired default_config ≡ record { config = default_config; warnings = []; repaired = false }
repaired_kept_example = repaired_kept default_config default-IsUsable

repaired_flag_example : ((repaired broken).repaired ≡ false) ↔ IsUsable broken
repaired_flag_example = repaired_flag broken

-- A file system of one file, and a codec of one text.
abbrev files : Files
files = record {
  World = String;
  parent = λ path. none;
  read_to_string = λ path w. ok w;
  create_dir_all = λ path w. (ok tt, w);
  write = λ path contents w. (ok tt, contents);
  from_str = λ s. ok default_config;
  to_string_pretty = λ c. ok "";
}

load_with_report-IsUsable_example : IsUsable (repaired default_config).config
unfolding load_with_report_from_path
load_with_report-IsUsable_example =
    load_with_report-IsUsable files "config.toml" "" (repaired default_config) refl

-- A codec that knows the default configuration only.
abbrev encode_if : (c : AppConfig) → Dec (c ≡ default_config) → Result String String
encode_if c (yes p) = ok "default"
encode_if c (no n) = err "unsupported"

abbrev one_text : Files
one_text = record files {
  to_string_pretty = λ c. encode_if c (AppConfig-discrete c default_config);
}

decodes :
    (c : AppConfig) (s : String) → one_text.to_string_pretty c ≡ ok s → one_text.from_str s ≡ ok c
decodes c s h = by_case (AppConfig-discrete c default_config) h
  where
    by_case : (d : Dec (c ≡ default_config)) → encode_if c d ≡ ok s → one_text.from_str s ≡ ok c
    by_case (yes p) h = ap ok (sym p)
    by_case (no n) h = absurd (ground arith)

keeps :
    (s v : String)
    → (one_text.write "config.toml" s v).0 ≡ ok tt
    → one_text.read_to_string "config.toml" (one_text.write "config.toml" s v).1 ≡ ok s
keeps s v h = refl

encodes_default : (c : AppConfig) → c ≡ default_config → one_text.to_string_pretty c ≡ ok "default"
encodes_default c p = by_case (AppConfig-discrete c default_config)
  where
    by_case : (d : Dec (c ≡ default_config)) → encode_if c d ≡ ok "default"
    by_case (yes q) = refl
    by_case (no n) = absurd (n p)

saved : (save_to_path one_text "config.toml" default_config "").0 ≡ ok tt
unfolding save_to_path save_after create_parent write_encoded
saved =
    rw
      (
        encodes_default (repaired default_config).config (
            ap (λ (r : ConfigLoadReport). r.config)
              (repaired_kept default_config default-IsUsable)),
        write_encoded,
      )
      refl

load-save_example :
    load_with_report_from_path one_text "config.toml"
      (save_to_path one_text "config.toml" default_config "").1
    ≡ ok (record { config = (repaired default_config).config; warnings = []; repaired = false })
load-save_example = load-save one_text "config.toml" default_config "" decodes keeps saved
