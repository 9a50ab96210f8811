-- ===== src/Inventory/Profiles.antt =====
-- Capability profiles and the probe records of a config-seeded inventory
-- (src/devices/common/inventory.cpp).
use anolis_provider_bread.Base.{ℕ, List, ◌==◌, if◌then◌else◌, bit_or, map}
use anolis_provider_bread.Contracts.{Contracts}
use anolis_provider_bread.Config.{DeviceType, ProviderConfig}
use anolis_provider_bread.Devices.{
  ProbeStatus, ModuleVersion, CapabilitySource, CapabilityProfile, ProbeRecord,
}
use anolis_provider_bread.Compatibility.{bread_type_id}

-- The fields of a profile that are zero, filled from another.
abbrev pub fill_from : CapabilityProfile → CapabilityProfile → CapabilityProfile
fill_from base profile = record {
  schema = if profile.schema == 0 then base.schema else profile.schema;
  level = if profile.level == 0 then base.level else profile.level;
  flags = if profile.flags == 0 then base.flags else profile.flags;
  source = profile.source;
}

module _ (c : Contracts) where
  open c use {crumbs, bread, rlht, dcmt}

  unfoldable pub make_baseline_capability_profile : DeviceType → CapabilityProfile
  make_baseline_capability_profile DeviceType.rlht = record {
    schema = bread.caps_schema_v1;
    level = rlht.cap_level_1;
    flags = rlht.cap_baseline_flags;
    source = CapabilitySource.baseline_fallback;
  }
  make_baseline_capability_profile DeviceType.dcmt = record {
    schema = bread.caps_schema_v1;
    level = dcmt.cap_level_1;
    flags = dcmt.cap_baseline_flags;
    source = CapabilitySource.baseline_fallback;
  }

  abbrev pub dcmt_seeded_flags : ℕ
  dcmt_seeded_flags =
      bit_or
        (bit_or
          (bit_or
            (bit_or
              (bit_or (bit_or dcmt.cap_open_loop_control dcmt.cap_brake_control)
                dcmt.cap_closed_loop_position)
              dcmt.cap_closed_loop_speed)
            dcmt.cap_pid_tuning)
          dcmt.cap_cmd_watchdog)
        dcmt.cap_clear_watchdog_trip

  unfoldable pub make_seeded_capability_profile : DeviceType → CapabilityProfile
  make_seeded_capability_profile DeviceType.rlht = record {
    schema = bread.caps_schema_v1;
    level = rlht.cap_level_1;
    flags = rlht.cap_baseline_flags;
    source = CapabilitySource.seeded;
  }
  make_seeded_capability_profile DeviceType.dcmt = record {
    schema = bread.caps_schema_v1;
    level = dcmt.cap_level_3;
    flags = dcmt_seeded_flags;
    source = CapabilitySource.seeded;
  }

  abbrev normalize_from : CapabilitySource → DeviceType → CapabilityProfile → CapabilityProfile
  normalize_from CapabilitySource.baseline_fallback type profile =
      fill_from (make_baseline_capability_profile type) profile
  normalize_from CapabilitySource.seeded type profile =
      fill_from (make_seeded_capability_profile type) profile
  normalize_from CapabilitySource.queried type profile = profile

  unfoldable pub normalize_capability_profile : DeviceType → CapabilityProfile → CapabilityProfile
  normalize_capability_profile type profile = normalize_from profile.source type profile

  -- The version that a seeded device of a family is given.
  unfoldable pub seeded_version : DeviceType → ModuleVersion
  seeded_version DeviceType.rlht = record {
    crumbs_version = crumbs.version;
    module_major = rlht.module_ver_major;
    module_minor = rlht.module_ver_minor;
    module_patch = rlht.module_ver_patch;
  }
  seeded_version DeviceType.dcmt = record {
    crumbs_version = crumbs.version;
    module_major = dcmt.module_ver_major;
    module_minor = dcmt.module_ver_minor;
    module_patch = dcmt.module_ver_patch;
  }

  unfoldable pub build_seed_probes : ProviderConfig → List ProbeRecord
  build_seed_probes config =
      map
        (λ spec. record {
          address = spec.address;
          type_id = bread_type_id c spec.type;
          status = ProbeStatus.supported;
          version = seeded_version spec.type;
          capability_profile = make_seeded_capability_profile spec.type;
          detail = "config-seeded";
        })
        config.devices
