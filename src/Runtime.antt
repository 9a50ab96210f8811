-- ===== src/Runtime.antt =====
-- src/core/runtime_state.cpp and src/core/bread_provider_runtime.cpp: start-up of the runtime on a
-- live session, and its reads and calls. The state holds the session together with the snapshot that
-- is published with it. Logging, the construction of the bus and the SDK's message types
-- are left out. The proofs are in the modules below.
pub mod Service
pub mod Calls
pub mod Health
pub mod Reports
pub mod Opening
pub mod MockRuns
use anolis_provider_bread.Base.{
  ℕ, zero, suc, String, ◌=ₛ◌, ◌<>◌, Bool, true, false, not, ◌&&◌, ◌||◌, List, [], ◌∷◌, Option, none,
  some, ltb, ◌==◌, if◌then◌else◌, is_empty, length, any, insert, lookup, map, Act,
}
use anolis_provider_bread.Base.Text.{to_dec}
use anolis_provider_bread.SessionApi.{SessionApi}
use anolis_provider_bread.Session.State.{AddressStats}
use anolis_provider_bread.Contracts.{Contracts, Doubles}
use anolis_provider_bread.Config.{DeviceType, OutputsOnStartup, DeviceSpec, ProviderConfig}
use anolis_provider_bread.Devices.{
  InventoryDevice, StatusCode, AdapterCallResult, AdapterReadResult, ValueMap,
}
use anolis_provider_bread.AdapterHelpers.{call_failed}
use anolis_provider_bread.Inventory.{find_device, function_exists}
use anolis_provider_bread.DeviceAdapter
use anolis_provider_bread.DeviceAdapter.{adapter_for, no_session}
use anolis_provider_bread.SafeOutputs.{drive, to_metric}
use anolis_provider_bread.Watchdog.{arm_if_configured}
use anolis_provider_bread.Keepalive.{Keepalive, keepalive_cap, new_keepalive, contacted}
use anolis_provider_bread.Startup.{DiscoveryResult, Thrown, threw, returned, run_discovery}

abbrev pub Metrics : Type 0
Metrics = List (String × String)

pub record RuntimeState : Type 0 where
  pub config : ProviderConfig
  pub devices : List InventoryDevice
  pub ready : Bool
  pub startup_message : String
  pub inventory_mode : String
  pub unsupported_probe_count : ℕ
  pub missing_expected_ids : List String
  pub missing_expected_details : Metrics
  pub safe_outputs : Metrics

-- RuntimeState{} with a configuration.
abbrev pub new_state : ProviderConfig → RuntimeState
new_state config = record {
  config = config;
  devices = [];
  ready = false;
  startup_message = "";
  inventory_mode = "";
  unsupported_probe_count = 0;
  missing_expected_ids = [];
  missing_expected_details = [];
  safe_outputs = [];
}

unfoldable pub build_startup_message : ℕ → ℕ → List String → String → String
build_startup_message device_count unsupported_count missing_ids inventory_mode =
    "BREAD discovery complete ("
    <> inventory_mode
    <> "): "
    <> to_dec device_count
    <> " device(s) active"
    <> (if ltb 0 unsupported_count then ", " <> to_dec unsupported_count <> " unsupported" else "")
    <> (if is_empty missing_ids
        then ""
        else ", " <> to_dec (length missing_ids) <> " expected device(s) missing")

unfoldable pub missing_for : String → List DeviceSpec → Metrics → Metrics
missing_for reason [] details = details
missing_for reason (spec ∷ specs) details = missing_for reason specs (insert spec.id reason details)

-- The snapshot that publish_not_ready leaves, without a session.
unfoldable pub not_ready : ProviderConfig → String → RuntimeState
not_ready config reason = record (new_state config) {
  startup_message = reason;
  inventory_mode = "unavailable";
  missing_expected_ids = map (λ spec. spec.id) config.devices;
  missing_expected_details = missing_for reason config.devices [];
}

-- The process state: the snapshot, and the session where there is one.
pub record Runtime (S : Type 0) : Type 0 where
  pub state : RuntimeState
  pub session : Option S
  pub keepalive : Option Keepalive

abbrev feed_less : String → Option Keepalive → Option Keepalive
feed_less device_id none = none
feed_less device_id (some k) = some (contacted device_id k)

-- note_contact: the keep-alive stops feeding a device that the runtime reaches.
abbrev pub note_contact : {S : Type 0} → String → Runtime S → Runtime S
note_contact device_id r = record r { keepalive = feed_less device_id r.keepalive }

module _ (c : Contracts) {S : Type 0} (api : SessionApi S) where
  unfoldable pub arm_all : List InventoryDevice → S → S
  arm_all [] s = s
  arm_all (device ∷ devices) s = arm_all devices (arm_if_configured c api device s)

module _ (c : Contracts) {D : Type 0} (fl : Doubles D) {S : Type 0} (api : SessionApi S) where
  unfoldable pub apply_outputs_policy :
      OutputsOnStartup → List InventoryDevice → Metrics → Act S Metrics
  apply_outputs_policy policy [] metrics s = (metrics, s)
  apply_outputs_policy policy (device ∷ devices) metrics s =
      let id = device.descriptor.device_id in
      let (result, driven) = drive c fl api device s in
      elim policy [
        | OutputsOnStartup.leave ↦
            apply_outputs_policy OutputsOnStartup.leave devices (insert id "left" metrics) s
        | OutputsOnStartup.safe ↦
            apply_outputs_policy OutputsOnStartup.safe devices
              (insert id (to_metric result) metrics) driven
      ]

  -- What start-up publishes for a finished discovery.
  unfoldable pub start_with : ProviderConfig → DiscoveryResult → Act S RuntimeState
  start_with config discovery s =
      let (metrics, s1) = apply_outputs_policy config.outputs_on_startup discovery.devices [] s in
      (
        record {
          config = config;
          devices = discovery.devices;
          ready = true;
          startup_message =
              build_startup_message (length discovery.devices) (length discovery.unsupported_probes)
                discovery.missing_expected_ids discovery.inventory_mode;
          inventory_mode = discovery.inventory_mode;
          unsupported_probe_count = length discovery.unsupported_probes;
          missing_expected_ids = discovery.missing_expected_ids;
          missing_expected_details = discovery.missing_expected_details;
          safe_outputs = metrics;
        },
        arm_all c api discovery.devices s1,
      )

  -- The hardware path from an opened session on; an exception publishes a not-ready state.
  unfoldable pub initialize :
      (String → ℕ → String) → (S → ℕ) → ProviderConfig → Option ℕ → S → Runtime S
  initialize claim_key now config deadline s =
      let (discovered, s1) = run_discovery c claim_key api now config deadline s in
      elim discovered [
        | threw what ↦ record {
          state = not_ready config ("start-up failed: " <> what);
          session = none;
          keepalive = none;
        }
        | returned discovery ↦
            let (state, s2) = start_with config discovery s1 in
            record {
              state = state;
              session = some s2;
              keepalive = some (new_keepalive c state.devices keepalive_cap (now s2));
            }
      ]

  -- record_safe_outputs
  abbrev pub record_safe_outputs : String → String → RuntimeState → RuntimeState
  record_safe_outputs device_id metric state = record state {
    safe_outputs = insert device_id metric state.safe_outputs;
  }

  -- The body of handle_recovery on a session `s` whose recovery is taken.
  unfoldable pub recover : InventoryDevice → ProviderConfig → S → Runtime S → Runtime S
  recover device config s r =
      let (result, driven) = drive c fl api device s in
      elim config.outputs_on_startup [
        | OutputsOnStartup.leave ↦ record r { session = some (arm_if_configured c api device s) }
        | OutputsOnStartup.safe ↦ record r {
          state = record_safe_outputs device.descriptor.device_id (to_metric result) r.state;
          session = some (arm_if_configured c api device driven);
        }
      ]

  unfoldable pub handle_recovery : InventoryDevice → ProviderConfig → Runtime S → Runtime S
  handle_recovery device config r = elim r.session [
    | none ↦ r
    | some s ↦
        let (recovered, s') = api.take_recovery device.address s in
        if recovered then recover device config s' r else record r { session = some s' }
  ]

  abbrev read_failed : StatusCode → String → AdapterReadResult D
  read_failed code message = record {
    ok = false;
    error_code = code;
    error_message = message;
    values = [];
  }

  -- BreadProviderRuntime::read, from the device on.
  unfoldable pub read_device : InventoryDevice → List String → Act (Runtime S) (AdapterReadResult D)
  read_device device signal_ids r = elim r.session [
    | none ↦ (
      read_failed StatusCode.code_unavailable
          "no hardware session (provider not built with hardware support)",
      r,
    )
    | some s ↦
        let adapter = adapter_for c fl api device.type in
        let (result, s') = adapter.read_signals device signal_ids s in
        let after = record r { session = some s' } in
        (result, if result.ok then handle_recovery device r.state.config after else after)
  ]

  unfoldable pub read : String → List String → Act (Runtime S) (AdapterReadResult D)
  read device_id signal_ids r = elim (find_device r.state.devices device_id) [
    | none ↦ (read_failed StatusCode.code_not_found "unknown device_id", r)
    | some device ↦ read_device device signal_ids (note_contact device_id r)
  ]

  -- BreadProviderRuntime::call, from the device on.
  unfoldable pub call_device : InventoryDevice → ℕ → ValueMap D → Act (Runtime S) AdapterCallResult
  call_device device function_id args r =
      let (result, session) =
        DeviceAdapter.call (adapter_for c fl api device.type) device function_id args r.session in
      let after = record r { session = session } in
      if not (function_exists device function_id "")
      then (call_failed StatusCode.code_not_found "unknown function_id", r)
      else (result, if result.ok then handle_recovery device r.state.config after else after)

  unfoldable pub call : String → ℕ → ValueMap D → Act (Runtime S) AdapterCallResult
  call device_id function_id args r = elim (find_device r.state.devices device_id) [
    | none ↦ (call_failed StatusCode.code_not_found "unknown device_id", r)
    | some device ↦ call_device device function_id args (note_contact device_id r)
  ]
