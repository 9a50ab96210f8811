-- ===== src/Startup.antt =====
-- src/core/startup.cpp: probing the candidate addresses and assembling the inventory. Logging is left
-- out. The clock of the deadline is an observation of the world the session acts on. The proofs are in
-- the modules below.
pub mod Probes
pub mod Deadline
use anolis_provider_bread.Base.{
  ℕ, zero, suc, ◌%◌, ◌^◌, String, ◌<>◌, Bool, true, false, not, ◌&&◌, ◌||◌, List, [], ◌∷◌, ◌++◌,
  Option, none, some, ltb, leb, ◌==◌, if◌then◌else◌, length, any, insert, map, Act,
}
use anolis_provider_bread.Base.Text.{to_dec, to_hex}
use anolis_provider_bread.Frames.{
  SessionStatus, is_ok, success, RawFrame, empty_frame, ScanResult, default_scan_options,
}
use anolis_provider_bread.SessionApi.{SessionApi}
use anolis_provider_bread.Contracts.{Contracts, CapsResult, VersionResult}
use anolis_provider_bread.Config.{DeviceType, DiscoveryMode, DeviceSpec, ProviderConfig}
use anolis_provider_bread.Devices.{
  ProbeStatus, ModuleVersion, InventorySource, CapabilitySource, CapabilityProfile, ProbeRecord,
  InventoryDevice, zero_version, empty_profile,
}
use anolis_provider_bread.Compatibility.{try_parse_bread_type, evaluate_version_compatibility}
use anolis_provider_bread.Inventory.{
  InventoryBuildResult, build_inventory_from_probes, inventory_source_to_string,
}
use anolis_provider_bread.Inventory.Profiles.{make_baseline_capability_profile}

abbrev pub stale_reply_attempts : ℕ
stale_reply_attempts = 3

abbrev pub hex_byte : ℕ → String
hex_byte value = "0x" <> to_hex 2 value

-- The first `n` bytes.
abbrev pub take : ℕ → List ℕ → List ℕ
take zero xs = []
take (suc n) [] = []
take (suc n) (x ∷ xs) = x ∷ take n xs

-- The payload with its size as a uint8_t, as it is passed to the C parsers.
abbrev pub parsed_bytes : List ℕ → List ℕ
parsed_bytes payload = take (length payload % 2 ^ 8) payload

abbrev pub new_probe : ℕ → ProbeRecord
new_probe address = record {
  address = address;
  type_id = 0;
  status = ProbeStatus.version_read_failed;
  version = zero_version;
  capability_profile = empty_profile;
  detail = "";
}

abbrev pub version_failed : ProbeRecord → String → ProbeRecord
version_failed probe detail = record probe {
  status = ProbeStatus.version_read_failed;
  detail = detail;
}

abbrev pub version_of : VersionResult → ModuleVersion
version_of v = record {
  crumbs_version = v.crumbs_version;
  module_major = v.module_major;
  module_minor = v.module_minor;
  module_patch = v.module_patch;
}

-- What the version reply comes to: the probe ends, or goes on to the capabilities.
pub data VersionStep : Type 0 where
  probe_ends : ProbeRecord → VersionStep
  probe_goes_on : DeviceType → ProbeRecord → VersionStep

module _ (c : Contracts) where
  open c use {bread}

  abbrev pub gate_on : DeviceType → ProbeRecord → ProbeStatus × String → VersionStep
  gate_on type probe (ProbeStatus.supported, detail) = probe_goes_on type probe
  gate_on type probe (status, detail) =
      probe_ends (record probe { status = status; detail = detail })

  -- The gate on the module version.
  unfoldable pub gate : DeviceType → ProbeRecord → VersionStep
  gate type probe =
      gate_on type probe (evaluate_version_compatibility c probe.type_id probe.version)

  unfoldable pub check_version_payload : List ℕ → DeviceType → ProbeRecord → VersionStep
  check_version_payload payload type probe =
      if ltb (length payload) 5
      then probe_ends (
          version_failed probe
            ("version payload too short (" <> to_dec (length payload) <> " bytes)"))
      else elim (bread.parse_version (parsed_bytes payload)) [
        | none ↦ probe_ends (version_failed probe "failed to parse version payload")
        | some v ↦ gate type (record probe { version = version_of v })
      ]

  unfoldable pub check_version : ℕ → SessionStatus → RawFrame → VersionStep
  check_version address status frame =
      let probe = new_probe address in
      let typed = record probe { type_id = frame.type_id } in
      if not (is_ok status)
      then probe_ends (version_failed probe ("version query failed: " <> status.message))
      else if not (frame.opcode == 0)
      then probe_ends
          (version_failed probe ("unexpected opcode in version reply: " <> hex_byte frame.opcode))
      else elim (try_parse_bread_type c frame.type_id) [
        | none ↦ probe_ends (record typed {
          status = ProbeStatus.unsupported_type;
          detail = "unknown BREAD type_id: " <> hex_byte frame.type_id;
        })
        | some type ↦ check_version_payload frame.payload type typed
      ]

  abbrev queried : CapsResult → CapabilityProfile
  queried caps = record {
    schema = caps.schema;
    level = caps.level;
    flags = caps.flags;
    source = CapabilitySource.queried;
  }

  -- The profile of the capability reply, the type's baseline where it cannot be used.
  unfoldable pub profile_from : DeviceType → SessionStatus → RawFrame → CapabilityProfile
  profile_from type status frame =
      if not (is_ok status) || not (frame.opcode == bread.op_get_caps)
      then make_baseline_capability_profile c type
      else elim (bread.caps_parse_payload (parsed_bytes frame.payload)) [
        | none ↦ make_baseline_capability_profile c type
        | some caps ↦ queried caps
      ]

  module _ {S : Type 0} (api : SessionApi S) where
    -- The loop of query_reply with `rounds` attempts left; `last` is what the one before left.
    unfoldable pub query_reply_loop :
        ℕ → ℕ → ℕ → SessionStatus × RawFrame → Act S (SessionStatus × RawFrame)
    query_reply_loop address reply_opcode zero last s = (last, s)
    query_reply_loop address reply_opcode (suc rounds) (_, out) s =
        let ((status, frame), s') = api.query_read address reply_opcode out s in
        let again = query_reply_loop address reply_opcode rounds (status, frame) s' in
        if not (is_ok status) || frame.opcode == reply_opcode then ((status, frame), s') else again

    unfoldable pub query_reply : ℕ → ℕ → RawFrame → Act S (SessionStatus × RawFrame)
    query_reply address reply_opcode frame =
        query_reply_loop address reply_opcode stale_reply_attempts (success, frame)

    -- The capability query of a probe whose version is accepted.
    unfoldable pub finish_probe : ℕ → VersionStep → Act S ProbeRecord
    finish_probe address (probe_ends probe) s = (probe, s)
    finish_probe address (probe_goes_on type probe) s =
        let ((caps_status, caps_frame), s') = query_reply address bread.op_get_caps empty_frame s in
        (
          record probe {
            capability_profile = profile_from type caps_status caps_frame;
            status = ProbeStatus.supported;
            detail = "probed";
          },
          s',
        )

    unfoldable pub probe_device : ℕ → Act S ProbeRecord
    probe_device address s =
        let ((status, frame), s') = query_reply address 0 empty_frame s in
        finish_probe address (check_version address status frame) s'

    -- The deadline has passed; `now` reads the steady clock.
    abbrev pub out_of_time : (S → ℕ) → Option ℕ → S → Bool
    out_of_time now none s = false
    out_of_time now (some deadline) s = leb deadline (now s)

    -- The loop over the candidate addresses: the probes and the addresses left unprobed.
    unfoldable pub probe_all : (S → ℕ) → Option ℕ → List ℕ → Act S (List ProbeRecord × List ℕ)
    probe_all now deadline [] s = (([], []), s)
    probe_all now deadline (address ∷ addresses) s =
        let (probe, s') = probe_device (address % 2 ^ 8) s in
        let ((skipped_probes, skipped_left), skipped_end) = probe_all now deadline addresses s in
        let ((probes, left), s_end) = probe_all now deadline addresses s' in
        if out_of_time now deadline s
        then ((skipped_probes, address ∷ skipped_left), skipped_end)
        else ((probe ∷ probes, left), s_end)

pub record DiscoveryResult : Type 0 where
  pub devices : List InventoryDevice
  pub unsupported_probes : List ProbeRecord
  pub missing_expected_ids : List String
  pub missing_expected_details : List (String × String)
  pub inventory_mode : String

-- The configured devices at unprobed addresses get this detail.
unfoldable pub note_unprobed :
    List ℕ → List DeviceSpec → List (String × String) → List (String × String)
note_unprobed unprobed [] details = details
note_unprobed unprobed (spec ∷ specs) details = note_unprobed unprobed specs (
    if any (λ address. address == spec.address) unprobed
    then insert spec.id "not probed: the start-up budget was spent" details
    else details)

-- A result, or the text of the exception thrown.
pub data Thrown (A : Type 0) : Type 0 where
  threw : String → Thrown A
  returned : A → Thrown A

module _ (c : Contracts) (claim_key : String → ℕ → String) {S : Type 0} (api : SessionApi S)
    (now : S → ℕ) where
  unfoldable pub discover :
      ProviderConfig → InventorySource → Option ℕ → List ℕ → Act S DiscoveryResult
  discover config source deadline addresses s =
      let ((probes, unprobed), s') = probe_all c api now deadline addresses s in
      let build = build_inventory_from_probes c claim_key config probes source in
      (
        record {
          devices = build.supported_devices;
          unsupported_probes = build.unsupported_probes;
          missing_expected_ids = build.missing_expected_ids;
          missing_expected_details =
              note_unprobed unprobed config.devices build.missing_expected_details;
          inventory_mode = inventory_source_to_string source;
        },
        s',
      )

  abbrev returning : {A : Type 0} → A × S → Thrown A × S
  returning (a, s) = (returned a, s)

  unfoldable pub run_discovery : ProviderConfig → Option ℕ → Act S (Thrown DiscoveryResult)
  run_discovery config deadline s =
      let ((status, results), s') = api.scan default_scan_options [] s in
      elim config.discovery_mode [
        | DiscoveryMode.manual ↦
            returning (discover config InventorySource.manual deadline config.manual_addresses s)
        | DiscoveryMode.scan ↦
            if is_ok status
            then returning (
                discover config InventorySource.discovered deadline
                  (map (λ result. result.address) results) s')
            else (threw ("CRUMBS bus scan failed: " <> status.message), s')
      ]
