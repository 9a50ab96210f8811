-- ===== src/Runtime/Health.antt =====
-- BreadProviderRuntime::device_health of src/core/bread_provider_runtime.cpp: the metrics of a device,
-- and the one query that health may make. The time of the last contact is the session's, not split
-- into seconds and nanoseconds.
use anolis_provider_bread.Base.{
  ℕ, ◌%◌, ◌^◌, ◌<◌, String, ◌<>◌, ◌=ₛ◌, Bool, true, false, not, ◌&&◌, [], Option, none, some, ◌⊎◌,
  inl, inr, ◌≡◌, refl, ltb, if◌then◌else◌, insert, lookup, any, Bool-cases, starts_with, Act, arith,
}
use anolis_provider_bread.Base.Text.{to_dec}
use anolis_provider_bread.Frames.{SessionStatus, is_ok}
use anolis_provider_bread.SessionApi.{SessionApi}
use anolis_provider_bread.Session.State.{AddressStats}
use anolis_provider_bread.Contracts.{Contracts}
use anolis_provider_bread.Devices.{InventoryDevice}
use anolis_provider_bread.Inventory.{find_device, add_module_version_metric}
use anolis_provider_bread.SetConfirm.{set_confirmation, confirmation_to_string}
use anolis_provider_bread.Watchdog.{
  WatchdogStatus, new_watchdog_status, capability_supported, query_status, rearm_if_rebooted,
  arm_if_configured, set_watchdog_frame,
}
use anolis_provider_bread.Runtime.{Metrics, RuntimeState, Runtime}

-- DeviceHealth::STATE_FAULT, or no state set.
pub data HealthState : Type 0 where
  state_unset state_fault : HealthState

pub record DeviceHealth : Type 0 where
  pub state : HealthState
  pub message : String
  pub metrics : Metrics
  pub last_seen : Option ℕ

abbrev pub new_health : DeviceHealth
new_health = record {
  state = HealthState.state_unset;
  message = "";
  metrics = [];
  last_seen = none;
}

abbrev bool_text : Bool → String
bool_text b = if b then "true" else "false"

abbrev pub put_metric : String → String → DeviceHealth → DeviceHealth
put_metric key text health = record health { metrics = insert key text health.metrics }

-- The safe-outputs metric, and the fault of a device that could not be set.
unfoldable pub safe_health : Option String → DeviceHealth → DeviceHealth
safe_health none health = health
safe_health (some safe) health =
    let noted = put_metric "safe_outputs" safe health in
    if starts_with safe "not set"
    then record noted { state = HealthState.state_fault; message = "safe outputs " <> safe }
    else noted

unfoldable pub io_health : AddressStats → DeviceHealth → DeviceHealth
io_health stats health =
    let counted = put_metric "io_rejected" (to_dec stats.rejected) (
      put_metric "io_retried_attempts" (to_dec stats.retried_attempts) (
        put_metric "io_failed" (to_dec stats.failed)
          (put_metric "io_ok" (to_dec stats.ok) health))) in
    if stats.has_success then record counted { last_seen = some stats.last_success } else counted

unfoldable pub watchdog_health : WatchdogStatus → DeviceHealth → DeviceHealth
watchdog_health wd health = put_metric "watchdog_trip_count" (to_dec wd.trip_count) (
    put_metric "watchdog_tripped" (bool_text wd.tripped) (
      put_metric "watchdog_timeout_ms" (to_dec wd.timeout_ms)
        (put_metric "watchdog_armed" (bool_text wd.armed) health)))

-- A device that is expected and missing.
unfoldable pub missing_health : String → RuntimeState → DeviceHealth
missing_health device_id state =
    let missing =
      put_metric "missing" "true" (put_metric "inventory" state.inventory_mode new_health) in
    if any (λ id. id =ₛ device_id) state.missing_expected_ids
    then elim (lookup device_id state.missing_expected_details) [
      | none ↦ missing
      | some detail ↦ put_metric "missing_detail" detail missing
    ]
    else new_health

module _ (c : Contracts) where
  -- What health reports without the session.
  unfoldable pub inventory_health : RuntimeState → String → InventoryDevice → DeviceHealth
  inventory_health state device_id device =
      let described =
        put_metric "type_id" device.descriptor.type_id
          (put_metric "address" device.descriptor.address new_health) in
      let versioned = record described {
        metrics = add_module_version_metric device described.metrics;
      } in
      let confirmed =
        put_metric "set_confirmation" (confirmation_to_string (set_confirmation c device))
          (put_metric "inventory" state.inventory_mode versioned) in
      safe_health (lookup device_id state.safe_outputs) confirmed

  module _ {S : Type 0} (api : SessionApi S) where
    -- Health queries the watchdog of a device that is configured for it, has it and is not failing.
    unfoldable pub asks_watchdog : InventoryDevice → S → Bool
    asks_watchdog device s =
        ltb 0 device.command_watchdog_ms
        && (capability_supported c device && not (api.last_op_failed device.address s))

    unfoldable pub session_health : InventoryDevice → DeviceHealth → Act S DeviceHealth
    session_health device health s =
        let counted = io_health (api.stats_for device.address s) health in
        let ((status, wd), asked) = query_status c api device new_watchdog_status s in
        if asks_watchdog device s
        then (if is_ok status
            then (watchdog_health wd counted, (rearm_if_rebooted c api device wd asked).1)
            else (counted, asked))
        else (counted, s)

    unfoldable pub device_health : String → Act (Runtime S) DeviceHealth
    device_health device_id r = elim (find_device r.state.devices device_id) [
      | none ↦ (missing_health device_id r.state, r)
      | some device ↦
          let health = inventory_health r.state device_id device in
          elim r.session [
            | none ↦ (health, r)
            | some s ↦
                let (reported, s') = session_health device health s in
                (reported, record r { session = some s' })
          ]
    ]

    abbrev pub queried : InventoryDevice → S → (SessionStatus × WatchdogStatus) × S
    queried device = query_status c api device new_watchdog_status

    -- What follows a watchdog status: SET_WATCHDOG is sent where it is neither armed nor tripped.
    abbrev pub Rearms : InventoryDevice → WatchdogStatus → S → S → Type 0
    Rearms device wd asked s' =
        ((wd.armed ≡ false)
          × (wd.tripped ≡ false)
          × (s' ≡ (api.send (device.address % 2 ^ 8) (set_watchdog_frame c device) asked).1))
        ⊎ (((wd.armed ≡ true) ⊎ (wd.tripped ≡ true)) × (s' ≡ asked))

    -- Health of a device on a session `s`: no bus operation without a configured and advertised
    -- watchdog or after a failed operation, else the watchdog query, and what follows its status.
    abbrev pub Touches : InventoryDevice → S → S → Type 0
    Touches device s s' =
        let ((status, wd), asked) = queried device s in
        (((device.command_watchdog_ms ≡ 0)
            ⊎ ((capability_supported c device ≡ false)
                ⊎ (api.last_op_failed device.address s ≡ true)))
          × (s' ≡ s))
        ⊎ ((0 < device.command_watchdog_ms)
            × (capability_supported c device ≡ true)
            × (api.last_op_failed device.address s ≡ false)
            × (((is_ok status ≡ false) × (s' ≡ asked))
                ⊎ ((is_ok status ≡ true) × Rearms device wd asked s')))

    rearm-Rearms :
        (device : InventoryDevice) (wd : WatchdogStatus) (s : S)
        → 0 < device.command_watchdog_ms
        → capability_supported c device ≡ true
        → Rearms device wd s (rearm_if_rebooted c api device wd s).1
    unfolding rearm_if_rebooted arm_if_configured
    rearm-Rearms device wd s configured capable = elim (Bool-cases wd.armed) [
      | inl armed ↦ inr (inl armed, ground arith)
      | inr disarmed ↦ elim (Bool-cases wd.tripped) [
        | inl tripped ↦ inr (inr tripped, ground arith)
        | inr clear ↦ inl (disarmed, clear, ground arith)
      ]
    ]

    asks_watchdog-cases :
        (device : InventoryDevice) (s : S)
        → ((asks_watchdog device s ≡ false)
            × ((device.command_watchdog_ms ≡ 0)
                ⊎ ((capability_supported c device ≡ false)
                    ⊎ (api.last_op_failed device.address s ≡ true))))
          ⊎ ((asks_watchdog device s ≡ true)
              × (0 < device.command_watchdog_ms)
              × (capability_supported c device ≡ true)
              × (api.last_op_failed device.address s ≡ false))
    unfolding asks_watchdog
    asks_watchdog-cases device s = ground arith

    session_health-Touches :
        (device : InventoryDevice) (health : DeviceHealth) (s : S)
        → Touches device s (session_health device health s).1
    unfolding session_health
    session_health-Touches device health s = elim (asks_watchdog-cases device s) [
      | inl (quiet, why) ↦ inl (why, rw quiet refl)
      | inr (asks, configured, capable, healthy) ↦
          let ((status, wd), asked) = queried device s in
          elim (Bool-cases (is_ok status)) [
            | inr bad ↦ inr (configured, capable, healthy, inl (bad, rw (asks, bad) refl))
            | inl good ↦ inr (
              configured,
              capable,
              healthy,
              inr (good, rw (asks, good) (rearm-Rearms device wd asked configured capable)),
            )
          ]
    ]

    device_health-known :
        (device_id : String) (r : Runtime S) (device : InventoryDevice) (s : S)
        → find_device r.state.devices device_id ≡ some device
        → r.session ≡ some s
        → device_health device_id r ≡ (
            let (reported, s') =
              session_health device (inventory_health r.state device_id device) s in
            (reported, record r { session = some s' }))
    unfolding device_health
    device_health-known device_id r device s found live = ground arith

    -- Health never changes the snapshot or the keep-alive. On a known device with a session it leaves
    -- the session as it was where the device has no watchdog configured or advertised or its last
    -- operation failed. Else it queries the watchdog, and where the query succeeds with a status that is
    -- neither armed nor tripped it sends the SET_WATCHDOG of the device; in all other cases only the query.
    pub device_health-Touches :
        (device_id : String) (r : Runtime S) (device : InventoryDevice) (s : S)
        → find_device r.state.devices device_id ≡ some device
        → r.session ≡ some s
        → let r' = (device_health device_id r).1 in
          (r'.state ≡ r.state)
          × (r'.keepalive ≡ r.keepalive)
          × ((s' : S) × (r'.session ≡ some s') × Touches device s s')
    device_health-Touches device_id r device s found live =
        let health = inventory_health r.state device_id device in
        rw (device_health-known device_id r device s found live) (
          refl,
          refl,
          ((session_health device health s).1, refl, session_health-Touches device health s),
        )
