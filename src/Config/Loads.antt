-- ===== src/Config/Loads.antt =====
-- What a configuration file that the schema accepts is loaded as.
use anolis_provider_bread.Base.{
  ℕ, ◌≤◌, ℤ, pos, String, true, ◌⊎◌, inl, inr, ◌≡◌, refl, List, [], ◌∷◌, Option, none, some, All,
  arith,
}
use anolis_provider_bread.Config.{
  DeviceType, DiscoveryMode, OutputsOnStartup, DeviceSpec, ProviderConfig, device_type_to_string,
  discovery_mode_to_string,
}
use anolis_provider_bread.Config.Texts.{
  Parsed, parsed, parse_discovery_mode, parse_outputs_on_startup, parse_device_type,
  outputs_on_startup_to_string,
}
use anolis_provider_bread.Config.Load.{
  Yaml, or_default, map_or, to_count, parse_or, drop_rlht_encoders, sequence, device_spec,
  read_device, read_devices, extract, load_config,
}

-- An optional text that is one of two.
abbrev pub OneOf : String → String → Option String → Type 0
OneOf a b o = (o ≡ none) ⊎ ((o ≡ some a) ⊎ (o ≡ some b))

-- A setting is that of its text, where there is one.
abbrev pub Names : {A : Type 0} → (A → String) → A → Option String → Type 0
Names print a o = (o ≡ none) ⊎ (o ≡ some (print a))

-- A parser that reads the texts that are written settles on each of them.
settles :
    {A : Type 0} (parse : String → Parsed A) (print : A → String) (x y default : A)
    (o : Option String)
    → parse (print x) ≡ parsed x
    → parse (print y) ≡ parsed y
    → OneOf (print x) (print y) o
    → (a : A) × (parse_or parse default o ≡ parsed a) × Names print a o
unfolding parse_or
settles parse print x y default o ex ey (inl e) = (default, rw e refl, inl e)
settles parse print x y default o ex ey (inr (inl e)) = (x, rw e ex, inr e)
settles parse print x y default o ex ey (inr (inr e)) = (y, rw e ey, inr e)

-- An optional integer that the schema bounds to 0 to 65535.
abbrev pub InBounds : Option ℤ → Type 0
InBounds o = (o ≡ none) ⊎ ((n : ℕ) × (o ≡ some (pos n)) × (n ≤ 65535))

-- A timeout is that of the file, and 0 where there is none.
abbrev pub IsTimeout : ℕ → Option ℤ → Type 0
IsTimeout ms o = ((o ≡ none) × (ms ≡ 0)) ⊎ (o ≡ some (pos ms))

to_count-kept : (n : ℕ) → n ≤ 65535 → to_count (pos n) ≡ n
to_count-kept n h = ground arith

timeout_lem : (o : Option ℤ) → InBounds o → IsTimeout (map_or to_count 0 o) o
timeout_lem o (inl e) = rw e (inl (refl, refl))
timeout_lem o (inr (n, e, le)) = rw (e, to_count-kept n le) (inr refl)

module _ {Y E : Type 0} (yaml : Yaml Y E) where
  open yaml use {get, as_string, as_int64, as_bool, parse_i2c_address, validate, load_file}

  abbrev type_text : Y → Option String
  type_text node = as_string (get node "type")

  -- What provider_schema, in src/config/config_schema.cpp, says of a validated file: the texts at the
  -- three settings that are parsed, and the bounds of the watchdogs.
  pub record IsAccepted (root : Y) : Type 0 where
    pub policies : OneOf "safe" "leave" (as_string (get (get root "provider") "outputs_on_startup"))
    pub modes : OneOf "scan" "manual" (as_string (get (get root "discovery") "mode"))
    pub types :
        All
          (λ node. OneOf "rlht" "dcmt" (as_string (get node "type")))
          (sequence yaml (get root "devices"))
    pub watchdogs :
        All
          (λ node. InBounds (as_int64 (get node "command_watchdog_ms")))
          (sequence yaml (get root "devices"))

  abbrev id_of : Y → String
  id_of node = or_default "" (as_string (get node "id"))

  -- A spec has the settings of its node, with the defaults of those that are not given.
  abbrev pub Matches : Y → DeviceSpec → Type 0
  Matches node spec =
      (spec.id ≡ or_default "" (as_string (get node "id")))
      × (spec.label ≡ or_default spec.id (as_string (get node "label")))
      × Names device_type_to_string spec.type (as_string (get node "type"))
      × (spec.address ≡ or_default 0 (parse_i2c_address (get node "address")))
      × IsTimeout spec.command_watchdog_ms (as_int64 (get node "command_watchdog_ms"))
      × (spec.encoders ≡ or_default true (as_bool (get node "encoders")))

  abbrev pub MatchAll : List Y → List DeviceSpec → Type 0
  MatchAll [] [] = Unit
  MatchAll (node ∷ nodes) (spec ∷ specs) = Matches node spec × MatchAll nodes specs
  MatchAll _ _ = ⊥

  read_device-Matches :
      (node : Y)
      → OneOf "rlht" "dcmt" (as_string (get node "type"))
      → InBounds (as_int64 (get node "command_watchdog_ms"))
      → (spec : DeviceSpec) × (read_device yaml node ≡ parsed spec) × Matches node spec
  unfolding read_device device_spec device_type_to_string parse_device_type
  read_device-Matches node h bounded =
      let (type, e, text) =
        settles parse_device_type device_type_to_string DeviceType.rlht DeviceType.dcmt
          DeviceType.rlht (as_string (get node "type")) refl refl h in
      (
        device_spec yaml node type,
        rw e refl,
        (
          refl,
          refl,
          text,
          refl,
          timeout_lem (as_int64 (get node "command_watchdog_ms")) bounded,
          refl,
        ),
      )

  read_devices-MatchAll :
      (nodes : List Y)
      → All (λ node. OneOf "rlht" "dcmt" (as_string (get node "type"))) nodes
      → All (λ node. InBounds (as_int64 (get node "command_watchdog_ms"))) nodes
      → (specs : List DeviceSpec) × (read_devices yaml nodes ≡ parsed specs) × MatchAll nodes specs
  unfolding read_devices
  read_devices-MatchAll [] h bounded = ([], refl, tt)
  read_devices-MatchAll (node ∷ nodes) (h, hs) (b, bs) =
      let (spec, e, match) = read_device-Matches node h b in
      let (specs, es, matches) = read_devices-MatchAll nodes hs bs in
      (spec ∷ specs, rw (e, es) refl, (match, matches))

  abbrev pub Loaded : Y → ProviderConfig → Type 0
  Loaded root config =
      MatchAll (sequence yaml (get root "devices")) config.devices
      × Names outputs_on_startup_to_string config.outputs_on_startup
          (as_string (get (get root "provider") "outputs_on_startup"))
      × Names discovery_mode_to_string config.discovery_mode
          (as_string (get (get root "discovery") "mode"))
      × (config.bus_path ≡ or_default "" (as_string (get (get root "hardware") "bus_path")))

  extract-Loaded :
      (path : String) (root : Y)
      → IsAccepted root
      → (config : ProviderConfig) × (extract yaml path root ≡ parsed config) × Loaded root config
  unfolding extract parse_discovery_mode discovery_mode_to_string parse_outputs_on_startup
      outputs_on_startup_to_string
  extract-Loaded path root h =
      let (policy, e, policy_text) =
        settles parse_outputs_on_startup outputs_on_startup_to_string OutputsOnStartup.safe
          OutputsOnStartup.leave OutputsOnStartup.safe
          (as_string (get (get root "provider") "outputs_on_startup")) refl refl h.policies in
      let (mode, e', mode_text) =
        settles parse_discovery_mode discovery_mode_to_string DiscoveryMode.scan
          DiscoveryMode.manual DiscoveryMode.manual (as_string (get (get root "discovery") "mode"))
          refl refl h.modes in
      let (devices, e'', matches) =
        read_devices-MatchAll (sequence yaml (get root "devices")) h.types h.watchdogs in
      rw (e, e', e'') (_, refl, (matches, policy_text, mode_text, refl))

  -- A file that parses and that the schema accepts is always loaded: after validation no setting is
  -- refused. The devices are those of the file, in order, each with the id, label, type, address,
  -- watchdog timeout and encoders that the file gives (where it gives none: "", the id, any type, 0, 0
  -- and true), and the outputs policy, the discovery mode and the bus path are those of the file.
  pub load_config-Loaded :
      (path : String) (read : Y)
      → load_file path ≡ parsed read
      → validate (drop_rlht_encoders yaml read) ≡ []
      → ((root : Y) → validate root ≡ [] → IsAccepted root)
      → (config : ProviderConfig) × (load_config yaml path ≡ parsed config)
        × Loaded (drop_rlht_encoders yaml read) config
  unfolding load_config
  load_config-Loaded path read e valid schema =
      let root = drop_rlht_encoders yaml read in
      let (config, extracted, loaded) = extract-Loaded path root (schema root valid) in
      (config, ground (arith, extracted), loaded)
