-- ===== src/Inventory.antt =====
-- src/devices/common/inventory.hpp and inventory.cpp: the inventory built from probe records, and its
-- lookups. std::sort is an insertion sort here, which leaves probes with the same address and type in
-- their order. The proofs are in the modules below.
pub mod Capabilities
pub mod Profiles
pub mod Judgement
pub mod Partition
pub mod Order
pub mod Seeds
use anolis_provider_bread.Base.{
  ℕ, zero, suc, ◌+◌, ◌-◌, ◌^◌, ◌/◌, ◌%◌, String, ◌=ₛ◌, ◌<>◌, Bool, true, false, not, ◌&&◌, ◌||◌,
  List, [], ◌∷◌, ◌++◌, Option, none, some, ltb, ◌==◌, if◌then◌else◌, bit_and, bit_or, any, update,
  insert, map,
}
use anolis_provider_bread.Base.Text.{to_dec, to_hex}
use anolis_provider_bread.Contracts.{Contracts}
use anolis_provider_bread.Config.{
  DeviceType, DeviceSpec, ProviderConfig, device_type_to_string, format_i2c_address, same_type,
}
use anolis_provider_bread.Devices.{
  ProbeStatus, ModuleVersion, InventorySource, CapabilitySource, CapabilityProfile, ProbeRecord,
  Descriptor, InventoryDevice,
}
use anolis_provider_bread.Compatibility.{
  bread_contract_name, provider_type_id, probe_status_to_string, try_parse_bread_type,
}
use Capabilities.{build_capabilities}
use Profiles.{normalize_capability_profile, build_seed_probes}

unfoldable pub inventory_source_to_string : InventorySource → String
inventory_source_to_string InventorySource.config_seeded = "config_seeded"
inventory_source_to_string InventorySource.manual = "manual"
inventory_source_to_string InventorySource.discovered = "discovered"

unfoldable pub capability_source_to_string : CapabilitySource → String
capability_source_to_string CapabilitySource.seeded = "seeded"
capability_source_to_string CapabilitySource.queried = "queried"
capability_source_to_string CapabilitySource.baseline_fallback = "baseline_fallback"

unfoldable pub format_module_version : ModuleVersion → String
format_module_version version =
    to_dec version.module_major
    <> "."
    <> to_dec version.module_minor
    <> "."
    <> to_dec version.module_patch

unfoldable pub format_crumbs_version : ℕ → String
format_crumbs_version value =
    to_dec (value / 10000) <> "." <> to_dec (value / 100 % 100) <> "." <> to_dec (value % 100)

unfoldable pub generated_label : DeviceType → ℕ → String
generated_label DeviceType.rlht address = "RLHT " <> format_i2c_address address
generated_label DeviceType.dcmt address = "DCMT " <> format_i2c_address address

unfoldable pub generated_id : DeviceType → ℕ → String
generated_id DeviceType.rlht index = "rlht" <> to_dec index
generated_id DeviceType.dcmt index = "dcmt" <> to_dec index

-- The order of the probes, by address and then by type id.
unfoldable pub comes_before : ProbeRecord → ProbeRecord → Bool
comes_before lhs rhs =
    ltb lhs.address rhs.address || (lhs.address == rhs.address && ltb lhs.type_id rhs.type_id)

unfoldable pub insert_probe : ProbeRecord → List ProbeRecord → List ProbeRecord
insert_probe probe [] = probe ∷ []
insert_probe probe (p ∷ probes) =
    let rest = insert_probe probe probes in
    if comes_before p probe then p ∷ rest else probe ∷ p ∷ probes

unfoldable pub sort_probes : List ProbeRecord → List ProbeRecord
sort_probes [] = []
sort_probes (p ∷ probes) = insert_probe p (sort_probes probes)

-- The first configured device at an address, with its index from `i` on.
unfoldable pub find_config_match_by_address : ℕ → List DeviceSpec → ℕ → Option (ℕ × DeviceSpec)
find_config_match_by_address i [] address = none
find_config_match_by_address i (spec ∷ specs) address =
    if spec.address == address
    then some (i, spec)
    else find_config_match_by_address (suc i) specs address

-- What becomes of a probe: excluded, or a device of a type with the configured entry it matches.
pub data Verdict : Type 0 where
  excluded : ProbeRecord → Verdict
  included : DeviceType → Option (ℕ × DeviceSpec) → Verdict

abbrev pub is_supported : ProbeStatus → Bool
is_supported ProbeStatus.supported = true
is_supported _ = false

abbrev pub type_mismatch : DeviceSpec → DeviceType → ProbeRecord → ProbeRecord
type_mismatch spec type probe = record probe {
  status = ProbeStatus.type_mismatch;
  detail =
      "configured type '"
      <> device_type_to_string spec.type
      <> "' does not match probed type '"
      <> device_type_to_string type
      <> "'";
}

-- The state of the loop over the probes.
pub record Build : Type 0 where
  pub supported_devices : List InventoryDevice
  pub unsupported_probes : List ProbeRecord
  pub matched : ℕ → Bool
  pub rlht_index : ℕ
  pub dcmt_index : ℕ

abbrev pub new_build : Build
new_build = record {
  supported_devices = [];
  unsupported_probes = [];
  matched = λ _. false;
  rlht_index = 0;
  dcmt_index = 0;
}

-- The counter of a type.
abbrev pub type_counter : DeviceType → Build → ℕ
type_counter DeviceType.rlht b = b.rlht_index
type_counter DeviceType.dcmt b = b.dcmt_index

abbrev pub count_type : DeviceType → Build → Build
count_type DeviceType.rlht b = record b { rlht_index = b.rlht_index + 1 }
count_type DeviceType.dcmt b = record b { dcmt_index = b.dcmt_index + 1 }

pub record InventoryBuildResult : Type 0 where
  pub supported_devices : List InventoryDevice
  pub unsupported_probes : List ProbeRecord
  pub missing_expected_ids : List String
  pub missing_expected_details : List (String × String)

abbrev pub yes_no : Bool → String
yes_no b = if b then "true" else "false"

-- The configured devices that no probe matched, with their index from `i` on.
unfoldable pub missing_from : (ℕ → Bool) → ℕ → List DeviceSpec → List DeviceSpec
missing_from matched i [] = []
missing_from matched i (spec ∷ specs) =
    let rest = missing_from matched (suc i) specs in if matched i then rest else spec ∷ rest

unfoldable pub probe_at : ℕ → List ProbeRecord → Option ProbeRecord
probe_at address [] = none
probe_at address (p ∷ probes) = if p.address == address then some p else probe_at address probes

unfoldable pub missing_details :
    List ProbeRecord → List DeviceSpec → List (String × String) → List (String × String)
missing_details unsupported [] details = details
missing_details unsupported (spec ∷ specs) details =
    missing_details unsupported specs (elim (probe_at spec.address unsupported) [
      | none ↦ details
      | some p ↦
          insert spec.id ("probe failed (" <> probe_status_to_string p.status <> "): " <> p.detail)
            details
    ])

module _ (c : Contracts) where
  unfoldable pub judge_probe : ProviderConfig → ProbeRecord → Verdict
  judge_probe config probe =
      if not (is_supported probe.status)
      then excluded probe
      else elim (try_parse_bread_type c probe.type_id) [
        | none ↦ excluded (record probe {
          status = ProbeStatus.unsupported_type;
          detail = if probe.detail =ₛ "" then "unsupported BREAD type id" else probe.detail;
        })
        | some type ↦ elim (find_config_match_by_address 0 config.devices probe.address) [
          | none ↦ included type none
          | some (i, spec) ↦
              if not (same_type spec.type type)
              then excluded (type_mismatch spec type probe)
              else included type (some (i, spec))
        ]
      ]

-- `claim_key` is the key that the provider SDK spells for an address of a bus.
module _ (c : Contracts) (claim_key : String → ℕ → String) where
  open c use {dcmt}

  unfoldable pub build_device :
      ProviderConfig
      → ProbeRecord
      → DeviceType
      → InventorySource
      → Bool
      → String
      → String
      → InventoryDevice
  build_device config probe type source expected device_id label =
      let profile = normalize_capability_profile c type probe.capability_profile in
      record {
        descriptor = record {
          device_id = device_id;
          provider_name = "anolis-provider-bread";
          label = label;
          address = format_i2c_address probe.address;
          type_id = provider_type_id type;
          type_version =
              to_dec (if probe.version.module_major == 0 then 1 else probe.version.module_major);
          claims = claim_key config.bus_path probe.address ∷ [];
          tags =
              ("family", "bread")
              ∷ ("inventory", inventory_source_to_string source)
              ∷ ("contract", bread_contract_name type)
              ∷ ("caps_source", capability_source_to_string profile.source)
              ∷ ("caps_level", to_dec profile.level)
              ∷ ("caps_flags", "0x" <> to_hex 8 profile.flags)
              ∷ ("expected", yes_no expected)
              ∷ ("compatibility", "supported")
              ∷ ("crumbs_version", format_crumbs_version probe.version.crumbs_version)
              ∷ ("module_version", format_module_version probe.version)
              ∷ [];
        };
        capabilities = build_capabilities c type profile.flags;
        type = type;
        address = probe.address;
        source = source;
        expected = expected;
        version = probe.version;
        capability_profile = profile;
        command_watchdog_ms = 0;
        encoders = true;
      }

  -- ~kEncoderCaps on 32 bits
  abbrev pub without_encoder_caps : ℕ
  without_encoder_caps =
      2 ^ 32
      - 1
      - bit_or (bit_or dcmt.cap_closed_loop_position dcmt.cap_closed_loop_speed) dcmt.cap_pid_tuning

  -- The settings that a configured entry gives a device.
  unfoldable pub apply_spec : DeviceSpec → DeviceType → InventoryDevice → InventoryDevice
  apply_spec spec type added =
      if same_type type DeviceType.dcmt && not spec.encoders
      then record added {
        command_watchdog_ms = spec.command_watchdog_ms;
        encoders = false;
        capabilities =
            build_capabilities c type (bit_and added.capability_profile.flags without_encoder_caps);
      }
      else record added { command_watchdog_ms = spec.command_watchdog_ms }

  unfoldable pub make_device :
      ProviderConfig
      → InventorySource
      → ProbeRecord
      → DeviceType
      → Option (ℕ × DeviceSpec)
      → ℕ
      → InventoryDevice
  make_device config source probe type none index =
      build_device config probe type source false (generated_id type index)
        (generated_label type probe.address)
  make_device config source probe type (some (i, spec)) index = apply_spec spec type (
      build_device config probe type source true spec.id
        (if spec.label =ₛ "" then generated_label type probe.address else spec.label))

  abbrev pub mark : Option (ℕ × DeviceSpec) → (ℕ → Bool) → ℕ → Bool
  mark none matched = matched
  mark (some (i, spec)) matched = update matched i true

  -- One turn of the loop.
  unfoldable pub place : ProviderConfig → InventorySource → ProbeRecord → Verdict → Build → Build
  place config source probe (excluded p) b = record b {
    unsupported_probes = b.unsupported_probes ++ p ∷ [];
  }
  place config source probe (included type match) b = count_type type (record b {
    supported_devices =
        b.supported_devices
        ++ make_device config source probe type match (type_counter type b) ∷ [];
    matched = mark match b.matched;
  })

  unfoldable pub place_all : ProviderConfig → InventorySource → List ProbeRecord → Build → Build
  place_all config source [] b = b
  place_all config source (p ∷ probes) b =
      place_all config source probes (place config source p (judge_probe c config p) b)

  unfoldable pub build_inventory_from_probes :
      ProviderConfig → List ProbeRecord → InventorySource → InventoryBuildResult
  build_inventory_from_probes config probes source =
      let b = place_all config source (sort_probes probes) new_build in
      let missing = missing_from b.matched 0 config.devices in
      record {
        supported_devices = b.supported_devices;
        unsupported_probes = b.unsupported_probes;
        missing_expected_ids = map (λ spec. spec.id) missing;
        missing_expected_details = missing_details b.unsupported_probes missing [];
      }

  unfoldable pub build_seed_inventory : ProviderConfig → List InventoryDevice
  build_seed_inventory config =
      let built =
        build_inventory_from_probes config (build_seed_probes c config)
          InventorySource.config_seeded in
      built.supported_devices

unfoldable pub find_device : List InventoryDevice → String → Option InventoryDevice
find_device [] device_id = none
find_device (d ∷ devices) device_id =
    if d.descriptor.device_id =ₛ device_id then some d else find_device devices device_id

unfoldable pub signal_exists : InventoryDevice → String → Bool
signal_exists device signal_id =
    any (λ signal. signal.signal_id =ₛ signal_id) device.capabilities.signals

unfoldable pub function_exists : InventoryDevice → ℕ → String → Bool
function_exists device function_id function_name =
    any
      (λ function.
        not (function_id == 0) && function.function_id == function_id
        || not (function_name =ₛ "") && function.name =ₛ function_name)
      device.capabilities.functions

unfoldable pub add_module_version_metric :
    InventoryDevice → List (String × String) → List (String × String)
add_module_version_metric device metrics = elim device.source [
  | InventorySource.config_seeded ↦ metrics
  | _ ↦ insert "module_version" (format_module_version device.version) metrics
]
