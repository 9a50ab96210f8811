-- ===== src/Config/Load.antt =====
-- load_config of src/config/provider_config.cpp. The YAML nodes, the schema validator and the typed
-- helpers of the SDK are parameters. An exception is its text; the warning of drop_rlht_encoders is
-- left out.
use anolis_provider_bread.Base.{
  ℕ, ◌-◌, ◌%◌, ◌^◌, ℤ, pos, negsuc, pos_part, ◌<>◌, String, ◌=ₛ◌, Bool, true, not, ◌&&◌, ◌||◌, List,
  [], ◌∷◌, Option, none, some, ltb, if◌then◌else◌, is_empty,
}
use anolis_provider_bread.Config.{
  DeviceType, DiscoveryMode, OutputsOnStartup, DeviceSpec, ProviderConfig,
}
use anolis_provider_bread.Config.Texts.{
  Parsed, throws, parsed, parse_discovery_mode, parse_outputs_on_startup, parse_device_type,
}

-- A node, with what the code calls on it; `get` is the node of a key, undefined where there is none, and
-- `change_items` runs a function that changes its argument in place on every item of the sequence at a
-- key. `E` is the type of validation errors.
pub record Yaml (Y E : Type 0) : Type 0 where
  pub load_file : String → Parsed Y
  pub get : Y → String → Y
  pub is_defined : Y → Bool
  pub is_map : Y → Bool
  pub is_sequence : Y → Bool
  pub is_scalar : Y → Bool
  pub scalar : Y → String
  pub items : Y → List Y
  pub remove : String → Y → Y
  pub change_items : String → (Y → Y) → Y → Y
  pub as_string : Y → Option String
  pub as_int64 : Y → Option ℤ
  pub as_bool : Y → Option Bool
  pub parse_i2c_address : Y → Option ℕ
  pub validate : Y → List E
  pub format_errors : List E → String
  pub absolute : String → String

-- static_cast<uint32_t> and static_cast<int> of a 64-bit value.
abbrev pub to_u32 : ℤ → ℕ
to_u32 (pos n) = n % 2 ^ 32
to_u32 (negsuc n) = 2 ^ 32 - 1 - n % 2 ^ 32

abbrev pub to_i32 : ℤ → ℤ
to_i32 z = if ltb (to_u32 z) (2 ^ 31) then pos (to_u32 z) else negsuc (2 ^ 32 - to_u32 z - 1)

-- A setting that the schema bounds to 0 and above.
abbrev pub to_count : ℤ → ℕ
to_count z = pos_part (to_i32 z)

abbrev pub or_default {ℓ} : {A : Type ℓ} → A → Option A → A
or_default a none = a
or_default a (some b) = b

abbrev pub map_or : {A B : Type 0} → (A → B) → B → Option A → B
map_or f b none = b
map_or f b (some a) = f a

abbrev pub bind : {A B : Type 0} → Parsed A → (A → Parsed B) → Parsed B
bind (throws what) k = throws what
bind (parsed a) k = k a

-- An optional text, parsed where it is present.
unfoldable pub parse_or : {A : Type 0} → (String → Parsed A) → A → Option String → Parsed A
parse_or parse a none = parsed a
parse_or parse a (some text) = parse text

module _ {Y E : Type 0} (yaml : Yaml Y E) where
  open yaml use {
    load_file, get, is_defined, is_map, is_sequence, is_scalar, scalar, items, remove, change_items,
    as_string, as_int64, as_bool, parse_i2c_address, validate, format_errors, absolute,
  }

  unfoldable pub drop_encoders : Y → Y
  drop_encoders device =
      let type = get device "type" in
      if not (is_map device)
        || (not (is_defined (get device "encoders"))
            || (not (is_defined type) || (not (is_scalar type) || not (scalar type =ₛ "rlht"))))
      then device
      else remove "encoders" device

  unfoldable pub drop_rlht_encoders : Y → Y
  drop_rlht_encoders root =
      let devices = get root "devices" in
      if not (is_map root) || (not (is_defined devices) || not (is_sequence devices))
      then root
      else change_items "devices" drop_encoders root

  -- The items of a sequence; none where the node is something else.
  abbrev pub sequence : Y → List Y
  sequence node = if is_defined node && is_sequence node then items node else []

  unfoldable pub read_addresses : List Y → List ℕ
  read_addresses [] = []
  read_addresses (node ∷ nodes) = elim (parse_i2c_address node) [
    | none ↦ read_addresses nodes
    | some address ↦ address ∷ read_addresses nodes
  ]

  -- The spec of one device, whose type has been read.
  unfoldable pub device_spec : Y → DeviceType → DeviceSpec
  device_spec node type =
      let id = or_default "" (as_string (get node "id")) in
      record {
        id = id;
        type = type;
        label = or_default id (as_string (get node "label"));
        address = or_default 0 (parse_i2c_address (get node "address"));
        command_watchdog_ms = map_or to_count 0 (as_int64 (get node "command_watchdog_ms"));
        encoders = or_default true (as_bool (get node "encoders"));
      }

  unfoldable pub read_device : Y → Parsed DeviceSpec
  read_device node =
      bind (parse_or parse_device_type DeviceType.rlht (as_string (get node "type")))
        λ type. parsed (device_spec node type)

  unfoldable pub read_devices : List Y → Parsed (List DeviceSpec)
  read_devices [] = parsed []
  read_devices (node ∷ nodes) =
      bind (read_device node) λ spec. bind (read_devices nodes) λ specs. parsed (spec ∷ specs)

  -- The settings after validation.
  unfoldable pub extract : String → Y → Parsed ProviderConfig
  extract path root =
      let provider = get root "provider" in
      let hardware = get root "hardware" in
      let discovery = get root "discovery" in
      let policy_text = as_string (get provider "outputs_on_startup") in
      bind (parse_or parse_outputs_on_startup OutputsOnStartup.safe policy_text) λ policy.
        bind (parse_or parse_discovery_mode DiscoveryMode.manual (as_string (get discovery "mode")))
          λ mode. bind (read_devices (sequence (get root "devices"))) λ devices. parsed (record {
            config_file_path = absolute path;
            provider_name = or_default "anolis-provider-bread" (as_string (get provider "name"));
            outputs_on_startup = policy;
            bus_path = or_default "" (as_string (get hardware "bus_path"));
            query_delay_us = map_or to_count 10000 (as_int64 (get hardware "query_delay_us"));
            timeout_ms = map_or to_count 100 (as_int64 (get hardware "timeout_ms"));
            retry_count = map_or to_i32 (pos 2) (as_int64 (get hardware "retry_count"));
            max_bus_hz =
                map_or (λ hz. some (to_u32 hz)) none (as_int64 (get hardware "max_bus_hz"));
            discovery_mode = mode;
            manual_addresses = read_addresses (sequence (get discovery "addresses"));
            devices = devices;
          })

  unfoldable pub load_config : String → Parsed ProviderConfig
  load_config path = elim (load_file path) [
    | throws what ↦ throws ("Failed to parse config '" <> path <> "': " <> what)
    | parsed read ↦
        let root = drop_rlht_encoders read in
        let errors = validate root in
        if is_empty errors
        then extract path root
        else throws ("Invalid config '" <> path <> "':\n" <> format_errors errors)
  ]
