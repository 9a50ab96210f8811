-- ===== src/Runtime/Opening.antt =====
-- initialize of src/core/runtime_state.cpp up to an opened session: the deadline of the discovery, the
-- hardware path with its host check, and the mock path, which seeds the inventory from the configuration
-- and runs a session over a canned bus. Times are in milliseconds; building the Linux bus and the checks
-- of the host are the SDK's.
use anolis_provider_bread.Base.{
  ℕ, ◌+◌, ◌-◌, ◌%◌, ◌^◌, ℤ, String, ◌<>◌, starts_with, Bool, true, false, List, [], ◌∷◌, Option,
  none, some, ltb, if◌then◌else◌,
}
use anolis_provider_bread.Frames.{is_ok}
use anolis_provider_bread.Transport.{Transport}
use anolis_provider_bread.Session.State.{Session, new_session}
use anolis_provider_bread.Session.{open_session}
use anolis_provider_bread.SessionApi.{SessionApi, session_api}
use anolis_provider_bread.Contracts.{Contracts, Doubles}
use anolis_provider_bread.Config.{ProviderConfig, make_session_options}
use anolis_provider_bread.Devices.{InventoryDevice, InventorySource}
use anolis_provider_bread.Compatibility.{bread_type_id}
use anolis_provider_bread.Inventory.{build_seed_inventory, inventory_source_to_string}
use anolis_provider_bread.Keepalive.{keepalive_cap, new_keepalive}
use anolis_provider_bread.Wire.{I2cStatuses, I2cBus, Codec, DeviceConstants, ControllerScan}
use anolis_provider_bread.CrumbsTransport.{CrumbsTransport, crumbs_transport}
use anolis_provider_bread.CannedBus.{CannedBus, new_canned_bus, add_device}
use anolis_provider_bread.CannedBus.Port.{canned_i2c}
use anolis_provider_bread.Runtime.{
  Runtime, new_state, not_ready, apply_outputs_policy, arm_all, initialize,
}

unfoldable pub is_mock_mode : ProviderConfig → Bool
is_mock_mode config = starts_with config.bus_path "mock://"

abbrev pub discovery_margin : ℕ
discovery_margin = 3000

-- The deadline of the discovery for a budget, 0 being none.
unfoldable pub discovery_deadline : ℕ → ℕ → Option ℕ
discovery_deadline budget now =
    if ltb 0 budget then some (now + (budget - discovery_margin)) else none

-- A snapshot without a session.
abbrev pub published : {S : Type 0} → ProviderConfig → String → Runtime S
published config reason = record {
  state = not_ready config reason;
  session = none;
  keepalive = none;
}

-- reset, to the snapshot of a new process; `config` is ProviderConfig{}.
unfoldable pub reset : {S : Type 0} → ProviderConfig → Runtime S
reset config = record { state = new_state config; session = none; keepalive = none }

-- The fault injection of the SDK: the path and the query of a bus path, whether a query asks for
-- faults, and the bus that injects them, with a state of its own.
pub record FaultInjection (F : Type 0) : Type 0 where
  pub split_bus_query : String → String × String
  pub any_fault : String → Bool
  pub initial : String → F
  pub inject : String → I2cBus CannedBus → I2cBus (F × CannedBus)

-- A bus beside the state of a fault injection that it does not use.
abbrev pub beside : {F B : Type 0} → I2cBus B → I2cBus (F × B)
beside i2c = record {
  open_bus = λ (f, b). let (status, b') = i2c.open_bus b in (status, (f, b'));
  close = λ (f, b). (f, i2c.close b);
  write = λ address bytes (f, b). let (status, b') = i2c.write address bytes b in (status, (f, b'));
  read = λ address buffer timeout (f, b).
      let (r, b') = i2c.read address buffer timeout b in (r, (f, b'));
  delay_us = λ us (f, b). (f, i2c.delay_us us b);
}

module _ (c : Contracts) where
  -- The canned bus with the devices of the inventory.
  unfoldable pub seed_bus : List InventoryDevice → CannedBus → CannedBus
  seed_bus [] bus = bus
  seed_bus (device ∷ devices) bus =
      seed_bus devices (add_device (device.address % 2 ^ 8) (bread_type_id c device.type) bus)

module _ (c : Contracts) {D : Type 0} (fl : Doubles D) where
  -- The hardware path: `unmet` is what the host check finds unmet, `s` a session that is not open.
  unfoldable pub initialize_hardware :
      {W : Type 0}
      → Transport W
      → (String → ℕ → String)
      → (Session W → ℕ)
      → ProviderConfig
      → Option ℕ
      → Option String
      → Session W
      → Runtime (Session W)
  initialize_hardware t claim_key now config deadline unmet s = elim unmet [
    | some what ↦ published config ("host requirements unmet: " <> what)
    | none ↦
        let (status, opened) = open_session t s in
        if is_ok status
        then initialize c fl (session_api t) claim_key now config deadline opened
        else published config
            ("failed to open CRUMBS bus '" <> config.bus_path <> "': " <> status.message)
  ]

  -- What the mock path publishes on an opened session.
  unfoldable pub mock_with :
      {S : Type 0} → SessionApi S → (String → ℕ → String) → (S → ℕ) → ProviderConfig → S → Runtime S
  mock_with api claim_key now config s =
      let devices = build_seed_inventory c claim_key config in
      let (metrics, s1) = apply_outputs_policy c fl api config.outputs_on_startup devices [] s in
      let s2 = arm_all c api devices s1 in
      record {
        state = record (new_state config) {
          devices = devices;
          inventory_mode = inventory_source_to_string InventorySource.config_seeded;
          ready = true;
          startup_message = "config-seeded inventory (mock mode)";
          safe_outputs = metrics;
        };
        session = some s2;
        keepalive = some (new_keepalive c devices keepalive_cap (now s2));
      }

  module _ {F X : Type 0} (faults : FaultInjection F) (k : DeviceConstants) (codec : Codec X)
      (st : I2cStatuses) (controller_scan : ControllerScan (F × CannedBus) X)
      (clock : F × CannedBus → ℕ × (F × CannedBus)) (etimedout : ℤ)
      (claim_key : String → ℕ → String) where
    unfoldable pub mock_bus : String → I2cBus (F × CannedBus)
    mock_bus query =
        let canned = canned_i2c c k codec st in
        if faults.any_fault query then faults.inject query canned else beside canned

    -- The session of the mock path before it is opened; `ctx` is a new CRUMBS context.
    unfoldable pub mock_session : X → ProviderConfig → Session (CrumbsTransport (F × CannedBus) X)
    mock_session ctx config =
        let (path, query) = faults.split_bus_query config.bus_path in
        let bus = seed_bus c (build_seed_inventory c claim_key config) (new_canned_bus path) in
        new_session
          (record {
            bus = (faults.initial query, bus);
            has_bus = true;
            ctx = ctx;
            scan_timeout_us = 0;
            is_open = false;
          })
          (make_session_options config)

    abbrev pub mock_transport : ProviderConfig → Transport (CrumbsTransport (F × CannedBus) X)
    mock_transport config =
        crumbs_transport (mock_bus (faults.split_bus_query config.bus_path).1) codec controller_scan
          clock etimedout

    -- initialize in mock mode; an open that fails is an exception.
    unfoldable pub initialize_mock :
        X
        → (Session (CrumbsTransport (F × CannedBus) X) → ℕ)
        → ProviderConfig
        → Runtime (Session (CrumbsTransport (F × CannedBus) X))
    initialize_mock ctx now config =
        let t = mock_transport config in
        let (status, opened) = open_session t (mock_session ctx config) in
        if is_ok status
        then mock_with (session_api t) claim_key now config opened
        else published config (
            "start-up failed: failed to open mock CRUMBS bus '" <> config.bus_path <> "': "
            <> status.message)
