-- ===== src/Compatibility.antt =====
-- src/devices/common/bread_compatibility.cpp: which modules this provider supports.
use anolis_provider_bread.Base.{ℕ, String, ◌<>◌, Option, none, some, ltb, ◌==◌, if◌then◌else◌}
use anolis_provider_bread.Base.Text.{to_dec}
use anolis_provider_bread.Config.{DeviceType}
use anolis_provider_bread.Contracts.{Contracts}
use anolis_provider_bread.Devices.{ProbeStatus, ModuleVersion}

unfoldable pub bread_contract_name : DeviceType → String
bread_contract_name DeviceType.rlht = "rlht"
bread_contract_name DeviceType.dcmt = "dcmt"

unfoldable pub provider_type_id : DeviceType → String
provider_type_id DeviceType.rlht = "bread.rlht"
provider_type_id DeviceType.dcmt = "bread.dcmt"

-- to_string(ProbeStatus)
unfoldable pub probe_status_to_string : ProbeStatus → String
probe_status_to_string ProbeStatus.supported = "supported"
probe_status_to_string ProbeStatus.unsupported_type = "unsupported_type"
probe_status_to_string ProbeStatus.version_read_failed = "version_read_failed"
probe_status_to_string ProbeStatus.incompatible_crumbs_version = "incompatible_crumbs_version"
probe_status_to_string ProbeStatus.incompatible_module_major = "incompatible_module_major"
probe_status_to_string ProbeStatus.type_mismatch = "type_mismatch"

module _ (c : Contracts) where
  open c use {bread, rlht, dcmt}

  unfoldable pub try_parse_bread_type : ℕ → Option DeviceType
  try_parse_bread_type type_id =
      if type_id == rlht.type_id
      then some DeviceType.rlht
      else if type_id == dcmt.type_id
      then some DeviceType.dcmt
      else none

  unfoldable pub bread_type_id : DeviceType → ℕ
  bread_type_id DeviceType.rlht = rlht.type_id
  bread_type_id DeviceType.dcmt = dcmt.type_id

  unfoldable pub expected_module_version : ℕ → ℕ × ℕ
  expected_module_version type_id =
      if type_id == rlht.type_id
      then (rlht.module_ver_major, rlht.module_ver_minor)
      else if type_id == dcmt.type_id
      then (dcmt.module_ver_major, dcmt.module_ver_minor)
      else (0, 0)

  -- The status with the text that goes to `detail`.
  unfoldable pub evaluate_module_version : ModuleVersion → ℕ → ℕ → ProbeStatus × String
  evaluate_module_version version expected_major expected_minor =
      if bread.check_module_compat version.module_major version.module_minor expected_major
        expected_minor
      then (
        ProbeStatus.supported,
        if ltb version.module_minor expected_minor
            then "compatible: module minor "
              <> to_dec version.module_minor
              <> " is older than "
              <> to_dec expected_minor
              <> ", optional features follow the caps flags"
            else "compatible",
      )
      else (
        ProbeStatus.incompatible_module_major,
        "module major mismatch: expected "
            <> to_dec expected_major
            <> " got "
            <> to_dec version.module_major,
      )

  unfoldable pub evaluate_version_compatibility : ℕ → ModuleVersion → ProbeStatus × String
  evaluate_version_compatibility type_id version =
      let (major, minor) = expected_module_version type_id in
      if major == 0
      then (ProbeStatus.unsupported_type, "unsupported BREAD type id")
      else if bread.check_crumbs_compat version.crumbs_version
      then evaluate_module_version version major minor
      else (
        ProbeStatus.incompatible_crumbs_version,
        "crumbs version " <> to_dec version.crumbs_version <> " is below minimum",
      )
