-- ===== src/Config/Files.antt =====
-- crates/synchrosonic-core/src/config.rs: loading and saving. The file system and the TOML codec are
-- parameters.
use audio_share.Base.{
  ℕ, sym, subst, ◌≡◌, refl, ap, [], Option, none, some, String, Result, ok, err, ltb, if◌then◌else◌,
  false, arith, Bool-cases, inl, inr,
}
use audio_share.Config.{AppConfig, ConfigLoadReport, repaired, app_config_schema_version}
use audio_share.Config.Laws.{IsUsable, repaired-IsUsable, repaired_kept}

pub record Files : Type 1 where
  pub World : Type 0
  pub parent : String → Option String
  pub read_to_string : String → World → Result String String
  pub create_dir_all : String → World → Result String (Unit {0}) × World
  pub write : String → String → World → Result String (Unit {0}) × World
  pub from_str : String → Result String AppConfig
  pub to_string_pretty : AppConfig → Result String String

pub data ConfigError : Type 0 where
  read : String → String → ConfigError
  parse : String → String → ConfigError
  unsupported_version : String → ℕ → ℕ → ConfigError
  serialize : String → ConfigError
  write : String → String → ConfigError

module _ (files : Files) where
  open files use {World, parent, read_to_string, create_dir_all, from_str, to_string_pretty}

  unfoldable pub check_version : String → AppConfig → Result ConfigError ConfigLoadReport
  check_version path config =
      if ltb app_config_schema_version config.schema_version
      then err (unsupported_version path config.schema_version app_config_schema_version)
      else ok (repaired config)

  unfoldable pub parse_config :
      String → Result String AppConfig → Result ConfigError ConfigLoadReport
  parse_config path (ok config) = check_version path config
  parse_config path (err source) = err (parse path source)

  unfoldable pub read_config : String → Result String String → Result ConfigError ConfigLoadReport
  read_config path (ok contents) = parse_config path (from_str contents)
  read_config path (err source) = err (read path source)

  unfoldable pub load_with_report_from_path : String → World → Result ConfigError ConfigLoadReport
  unfolding read_config parse_config check_version
  load_with_report_from_path path w = read_config path (read_to_string path w)

  -- `map_err` of a failed write.
  abbrev wrote : String → Result String (Unit {0}) × World → Result ConfigError (Unit {0}) × World
  wrote path (ok u, w) = (ok tt, w)
  wrote path (err source, w) = (err (write path source), w)

  unfoldable pub create_parent : Option String → World → Result ConfigError (Unit {0}) × World
  create_parent none w = (ok tt, w)
  create_parent (some dir) w = wrote dir (create_dir_all dir w)

  unfoldable pub write_encoded :
      String → Result String String → World → Result ConfigError (Unit {0}) × World
  write_encoded path (ok encoded) w = wrote path (files.write path encoded w)
  write_encoded path (err e) w = (err (serialize e), w)

  unfoldable pub save_after :
      String
      → AppConfig
      → Result ConfigError (Unit {0}) × World
      → Result ConfigError (Unit {0}) × World
  unfolding write_encoded
  save_after path config (ok u, w) =
      write_encoded path (to_string_pretty (repaired config).config) w
  save_after path config (err e, w) = (err e, w)

  unfoldable pub save_to_path : String → AppConfig → World → Result ConfigError (Unit {0}) × World
  unfolding save_after create_parent
  save_to_path path config w = save_after path config (create_parent (parent path) w)

  check_version-IsUsable :
      (path : String) (c : AppConfig) (r : ConfigLoadReport)
      → check_version path c ≡ ok r
      → IsUsable r.config
  unfolding check_version
  check_version-IsUsable path c r h =
      elim (Bool-cases (ltb app_config_schema_version c.schema_version)) [
        | inl e ↦ absurd (ground arith)
        | inr e ↦ subst (λ x. IsUsable x.config) (is_report e) (repaired-IsUsable c)
      ]
    where
      is_report : ltb app_config_schema_version c.schema_version ≡ false → repaired c ≡ r
      is_report e = ground arith

  -- A configuration that was loaded is usable, whatever the file holds.
  pub load_with_report-IsUsable :
      (path : String) (w : World) (r : ConfigLoadReport)
      → load_with_report_from_path path w ≡ ok r
      → IsUsable r.config
  unfolding load_with_report_from_path read_config parse_config
  load_with_report-IsUsable path w r h = of_read (read_to_string path w) h
    where
      of_parse : (x : Result String AppConfig) → parse_config path x ≡ ok r → IsUsable r.config
      of_parse (ok c) h = check_version-IsUsable path c r h
      of_parse (err e) h = absurd (ground arith)

      of_read : (x : Result String String) → read_config path x ≡ ok r → IsUsable r.config
      of_read (ok s) h = of_parse (from_str s) h
      of_read (err e) h = absurd (ground arith)

  reload :
      (path : String) (c : AppConfig) (s : String) (w : World)
      → IsUsable c
      → read_to_string path w ≡ ok s
      → from_str s ≡ ok c
      → load_with_report_from_path path w
        ≡ ok (record { config = c; warnings = []; repaired = false })
  unfolding load_with_report_from_path read_config parse_config check_version
  reload path c s w u e f = rw (e, f, supported) (ap ok (repaired_kept c u))
    where
      supported : ltb app_config_schema_version c.schema_version ≡ false
      supported = ground (arith, u.version)

  -- A configuration that was saved is loaded as its repaired form, with no warning and not
  -- marked as repaired, when the codec decodes what it encodes and the file system returns what
  -- was written.
  pub load-save :
      (path : String) (c : AppConfig) (w : World)
      → ((d : AppConfig) (s : String) → to_string_pretty d ≡ ok s → from_str s ≡ ok d)
      → ((s : String) (v : World)
          → (files.write path s v).0 ≡ ok tt
          → read_to_string path (files.write path s v).1 ≡ ok s)
      → (save_to_path path c w).0 ≡ ok tt
      → load_with_report_from_path path (save_to_path path c w).1
        ≡ ok (record { config = (repaired c).config; warnings = []; repaired = false })
  unfolding save_to_path save_after write_encoded
  load-save path c w decodes keeps saved = after (create_parent (parent path) w) saved
    where
      Loaded : Result ConfigError (Unit {0}) × World → Type 0
      Loaded out =
          out.0 ≡ ok tt
          → load_with_report_from_path path out.1
            ≡ ok (record { config = (repaired c).config; warnings = []; repaired = false })

      written :
          (s : String)
          → to_string_pretty (repaired c).config ≡ ok s
          → (v : World) (out : Result String (Unit {0}) × World) → out ≡ files.write path s v
          → Loaded (wrote path out)
      written s e v (ok tt, w1) p h =
          reload path (repaired c).config s w1 (repaired-IsUsable c)
            (subst (λ o. read_to_string path o.1 ≡ ok s) (sym p)
              (keeps s v (ap (λ o. o.0) (sym p))))
            (decodes (repaired c).config s e)
      written s e v (err x, w1) p h = absurd (ground arith)

      encoded :
          (x : Result String String)
          → to_string_pretty (repaired c).config ≡ x
          → (v : World) → Loaded (write_encoded path x v)
      encoded (ok s) e v h = written s e v (files.write path s v) refl h
      encoded (err x) e v h = absurd (ground arith)

      after : (x : Result ConfigError (Unit {0}) × World) → Loaded (save_after path c x)
      after (ok tt, w1) h = encoded (to_string_pretty (repaired c).config) refl w1 h
      after (err e, w1) h = absurd (ground arith)
