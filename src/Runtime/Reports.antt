-- ===== src/Runtime/Reports.antt =====
-- What the runtime reports of its snapshot (src/core/bread_provider_runtime.cpp): metadata, readiness,
-- provider health, the devices and their functions. The diagnostics of the host check are the SDK's.
use anolis_provider_bread.Base.{
  ℕ, ◌-◌, String, ◌=ₛ◌, eq_iff, Bool, true, false, not, ◌&&◌, ◌||◌, List, [], ◌∷◌, map, Option,
  none, some, ◌≡◌, refl, ◌⊎◌, inl, inr, if◌then◌else◌, length, any, insert, lookup, is_empty, ◌==◌,
  Bool-cases, arith,
}
use anolis_provider_bread.Base.Text.{to_dec}
use anolis_provider_bread.Config.{discovery_mode_to_string}
use anolis_provider_bread.Devices.{InventoryDevice, Descriptor, CapabilitySet, FunctionSpec}
use anolis_provider_bread.Inventory.{find_device, function_exists}
use anolis_provider_bread.Runtime.{Metrics, RuntimeState}

pub record ProviderMetadata : Type 0 where
  pub name : String
  pub version : String
  pub protocol_version : String
  pub hello_extra : Metrics

-- `version` is the macro of the build.
unfoldable pub metadata : String → RuntimeState → ProviderMetadata
metadata version state = record {
  name = "anolis-provider-bread";
  version = version;
  protocol_version = "v1";
  hello_extra =
      insert "inventory_mode" state.inventory_mode (insert "supports_wait_ready" "true" []);
}

pub record FailedDevice : Type 0 where
  pub device_id : String
  pub type : String
  pub reason : String

pub record ReadinessReport : Type 0 where
  pub ready : Bool
  pub configured_device_count : ℕ
  pub successful_device_ids : List String
  pub failed_devices : List FailedDevice
  pub startup_policy : String
  pub provider_impl : String
  pub extra_diagnostics : Metrics

abbrev or_text : String → Option String → String
or_text text none = text
or_text text (some other) = other

unfoldable pub failed_device : Metrics → String → FailedDevice
failed_device details missing_id = record {
  device_id = missing_id;
  type = "";
  reason = or_text "expected device not found during startup" (lookup missing_id details);
}

unfoldable pub list_device_ids : RuntimeState → List String
list_device_ids state = map (λ device. device.descriptor.device_id) state.devices

abbrev pub merge : Metrics → Metrics → Metrics
merge [] diag = diag
merge ((key, text) ∷ more) diag = merge more (insert key text diag)

-- The diagnostics of readiness; the start and the end of the start-up are in milliseconds, the end
-- being the present where the provider is not ready.
unfoldable pub readiness_diagnostics : ℕ → ℕ → Metrics → RuntimeState → Metrics
readiness_diagnostics started_at ready_point host state = merge host (
    insert "startup_message" state.startup_message (
      insert "missing_expected_count" (to_dec (length state.missing_expected_ids)) (
        insert "unsupported_probe_count" (to_dec state.unsupported_probe_count) (
          insert "query_delay_us" (to_dec state.config.query_delay_us) (
            insert "bus_path" state.config.bus_path (
              insert "discovery_mode" (discovery_mode_to_string state.config.discovery_mode) (
                insert "inventory_mode" state.inventory_mode (
                  insert "degraded"
                    (if state.ready && not (is_empty state.missing_expected_ids)
                      then "true"
                      else "false")
                    (insert "ready" (if state.ready then "true" else "false")
                      (insert "init_time_ms" (to_dec (ready_point - started_at)) []))))))))))

-- The times are those of the snapshot and of the clock, in milliseconds.
unfoldable pub readiness : ℕ → ℕ → ℕ → Metrics → RuntimeState → ReadinessReport
readiness started_at ready_at now host state = record {
  ready = state.ready;
  configured_device_count = length state.config.devices;
  successful_device_ids = map (λ device. device.descriptor.device_id) state.devices;
  failed_devices = map (failed_device state.missing_expected_details) state.missing_expected_ids;
  startup_policy = "degraded";
  provider_impl = "bread";
  extra_diagnostics =
      readiness_diagnostics started_at (if state.ready then ready_at else now) host state;
}

-- ProviderHealth::STATE_DEGRADED with its message, or nothing set.
unfoldable pub provider_health : RuntimeState → Option String
provider_health state = if state.ready then none else some state.startup_message

unfoldable pub has_device : RuntimeState → String → Bool
has_device state device_id = elim (find_device state.devices device_id) [
  | none ↦ false
  | some device ↦ true
]

-- Device{} and CapabilitySet{} where there is no device.
unfoldable pub device_info : RuntimeState → String → Option Descriptor
device_info state device_id = elim (find_device state.devices device_id) [
  | none ↦ none
  | some device ↦ some device.descriptor
]

unfoldable pub capabilities : RuntimeState → String → CapabilitySet
capabilities state device_id = elim (find_device state.devices device_id) [
  | none ↦ record { functions = []; signals = [] }
  | some device ↦ device.capabilities
]

unfoldable pub function_named : String → List FunctionSpec → Option ℕ
function_named function_name [] = none
function_named function_name (function ∷ functions) =
    if function.name =ₛ function_name
    then some function.function_id
    else function_named function_name functions

unfoldable pub resolve_function_id : RuntimeState → String → String → Option ℕ
resolve_function_id state device_id function_name = elim (find_device state.devices device_id) [
  | none ↦ none
  | some device ↦ function_named function_name device.capabilities.functions
]

find_device-cases :
    (device_id : String) (devices : List InventoryDevice)
    → ((find_device devices device_id ≡ none)
        × (any (λ id. id =ₛ device_id) (map (λ device. device.descriptor.device_id) devices)
            ≡ false))
      ⊎ ((device : InventoryDevice) × (find_device devices device_id ≡ some device)
          × (device.descriptor.device_id ≡ device_id)
          × (any (λ id. id =ₛ device_id) (map (λ device. device.descriptor.device_id) devices)
              ≡ true))
unfolding find_device
find_device-cases device_id [] = inl (refl, refl)
find_device-cases device_id (device ∷ devices) =
    let id = device.descriptor.device_id in
    elim (Bool-cases (id =ₛ device_id)) [
      | inl same ↦ inr (device, rw same refl, (eq_iff id device_id).0 same, rw same refl)
      | inr differs ↦ rw differs (find_device-cases device_id devices)
    ]

-- The device ids that the provider lists are the ones that it serves: for a listed id there is a
-- device, and its description carries the id; for any other there is no device, no description and no
-- capability.
pub has_device-listed :
    (state : RuntimeState) (device_id : String)
    → ((any (λ id. id =ₛ device_id) (list_device_ids state) ≡ true)
        × (has_device state device_id ≡ true)
        × ((descriptor : Descriptor) × (device_info state device_id ≡ some descriptor)
            × (descriptor.device_id ≡ device_id)))
      ⊎ ((any (λ id. id =ₛ device_id) (list_device_ids state) ≡ false)
          × (has_device state device_id ≡ false)
          × (device_info state device_id ≡ none)
          × (capabilities state device_id ≡ record { functions = []; signals = [] }))
unfolding list_device_ids has_device device_info capabilities
has_device-listed state device_id = elim (find_device-cases device_id state.devices) [
  | inl (e, unlisted) ↦ inr (unlisted, ground arith, ground arith, ground arith)
  | inr (device, e, same, listed) ↦
      inl (listed, ground arith, (device.descriptor, ground arith, same))
]

function_named-exists :
    (function_name : String) (functions : List FunctionSpec) (function_id : ℕ)
    → function_named function_name functions ≡ some function_id
    → (function_id == 0) ≡ false
    → any
        (λ (function : FunctionSpec).
          not (function_id == 0) && function.function_id == function_id
          || not ("" =ₛ "") && function.name =ₛ "")
        functions
      ≡ true
unfolding function_named
function_named-exists function_name [] function_id e h = ground arith
function_named-exists function_name (function ∷ functions) function_id e h =
    ground (arith, function_named-exists function_name functions function_id)

-- A function id that the runtime resolves from a name is one that a call of the device accepts, unless
-- it is 0.
pub resolve_function_id-exists :
    (state : RuntimeState) (device_id function_name : String) (function_id : ℕ)
    → resolve_function_id state device_id function_name ≡ some function_id
    → (function_id == 0) ≡ false
    → (device : InventoryDevice) × (find_device state.devices device_id ≡ some device)
      × (function_exists device function_id "" ≡ true)
unfolding resolve_function_id function_exists
resolve_function_id-exists state device_id function_name function_id e h =
    elim (find_device-cases device_id state.devices) [
      | inl (missing, _) ↦ ground arith
      | inr (device, found, _, _) ↦ (
        device,
        found,
        function_named-exists function_name device.capabilities.functions function_id (ground arith)
            h,
      )
    ]
