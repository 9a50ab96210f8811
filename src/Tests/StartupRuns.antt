-- ===== src/Tests/StartupRuns.antt =====
-- Runs of start-up and of the runtime's calls.
use anolis_provider_bread.Base.{leb, not, ◌&&◌, ℕ, ℤ, pos, ◌⊎◌, ◌≡◌, List, [], ◌∷◌, none, some}
use anolis_provider_bread.Frames.{empty_frame}
use anolis_provider_bread.SessionApi.Log.{asked}
use anolis_provider_bread.Devices.{
  ProbeStatus, ProbeRecord, InventorySource, int64_val, ValueMap, zero_version, empty_profile,
}
use anolis_provider_bread.Inventory.{build_inventory_from_probes}
use anolis_provider_bread.Inventory.Judgement.{count, accepts}
use anolis_provider_bread.Inventory.Partition.{absent, confirmed, build_inventory-partition}
use anolis_provider_bread.Inventory.Order.{Upward, build_inventory-Upward}
use anolis_provider_bread.Startup.{probe_device, query_reply, probe_all}
use anolis_provider_bread.Startup.Probes.{Probed, Asks, query_reply-Asks, probe_device-Probed}
use anolis_provider_bread.Startup.Deadline.{Split, probe_all-Split}
use anolis_provider_bread.Runtime.{Runtime, new_state, call}
use anolis_provider_bread.Runtime.Calls.{NotFound, Failed, Succeeded, call-cases}
use anolis_provider_bread.Tests.{
  sample_contracts, sample_api, sample_device, sample_config, sample_claim, tenths,
}

abbrev good_probe : ProbeRecord
good_probe = record {
  address = 32;
  type_id = 2;
  status = ProbeStatus.supported;
  version = zero_version;
  capability_profile = empty_profile;
  detail = "probed";
}

abbrev two_probes : List ProbeRecord
two_probes =
    record good_probe { address = 33; status = ProbeStatus.version_read_failed } ∷ good_probe ∷ []

build_inventory-partition_example :
    let built =
      build_inventory_from_probes sample_contracts sample_claim sample_config two_probes
        InventorySource.discovered in
    let good = accepts sample_contracts sample_config in
    (count (λ d. leb 32 d.address) built.supported_devices
      ≡ count (λ p. leb 32 p.address && good p) two_probes)
    × (count (λ p. leb 32 p.address) built.unsupported_probes
        ≡ count (λ p. leb 32 p.address && not (good p)) two_probes)
    × (built.missing_expected_ids
        ≡ absent sample_contracts sample_claim sample_config
            (confirmed sample_contracts sample_claim sample_config two_probes)
            0
            sample_config.devices)
build_inventory-partition_example =
    build_inventory-partition sample_contracts sample_claim sample_config two_probes
      InventorySource.discovered (leb 32)

build_inventory-Upward_example :
    let built =
      build_inventory_from_probes sample_contracts sample_claim sample_config two_probes
        InventorySource.discovered in
    (top : ℕ) × Upward 0 built.supported_devices top
build_inventory-Upward_example =
    build_inventory-Upward sample_contracts sample_claim sample_config InventorySource.discovered
      two_probes

query_reply-Asks_example :
    Asks sample_contracts sample_api 32 0 2 empty_frame 4 []
      (query_reply sample_contracts (asked sample_api) 32 0 empty_frame (4, []))
query_reply-Asks_example = query_reply-Asks sample_contracts sample_api 32 0 empty_frame 4

probe_device-Probed_example :
    Probed sample_contracts sample_api 32 (probe_device sample_contracts sample_api 32 4).0
probe_device-Probed_example = probe_device-Probed sample_contracts sample_api 32 4

abbrev clock : ℕ → ℕ
clock s = s

probe_all-Split_example :
    Split sample_contracts sample_api clock
      (some 3)
      (32 ∷ 33 ∷ [])
      4
      (probe_all sample_contracts sample_api clock (some 3) (32 ∷ 33 ∷ []) 4)
probe_all-Split_example =
    probe_all-Split sample_contracts sample_api clock (some 3) (32 ∷ 33 ∷ []) 4

abbrev one_device : Runtime ℕ
one_device = record {
  state = record (new_state sample_config) { devices = sample_device ∷ [] };
  session = some 4;
  keepalive = none;
}

abbrev args : ValueMap ℤ
args = ("motor1_pwm", int64_val (pos 0)) ∷ ("motor2_pwm", int64_val (pos 0)) ∷ []

call-cases_example :
    let out = call sample_contracts tenths sample_api "motors" 1 args one_device in
    NotFound sample_contracts tenths sample_api 1 args "motors" one_device out
    ⊎ (Failed sample_contracts tenths sample_api 1 args "motors" one_device out
        ⊎ Succeeded sample_contracts tenths sample_api 1 args "motors" one_device out)
call-cases_example = call-cases sample_contracts tenths sample_api 1 args "motors" one_device
