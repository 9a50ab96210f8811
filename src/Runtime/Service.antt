-- ===== src/Runtime/Service.antt =====
-- What start-up publishes, and what reads and calls may change.
use anolis_provider_bread.Base.{
  ℕ, String, ◌<>◌, Bool, true, false, ◌⊎◌, inl, inr, ◌≡◌, refl, List, [], ◌∷◌, Option, none, some,
  map, insert, Bool-cases, arith,
}
use anolis_provider_bread.SessionApi.{SessionApi}
use anolis_provider_bread.Contracts.{Contracts, Doubles}
use anolis_provider_bread.Config.{OutputsOnStartup, ProviderConfig}
use anolis_provider_bread.Devices.{InventoryDevice}
use anolis_provider_bread.SafeOutputs.{drive, to_metric}
use anolis_provider_bread.Watchdog.{arm_if_configured}
use anolis_provider_bread.Startup.{Thrown, threw, returned, DiscoveryResult, run_discovery}
use anolis_provider_bread.Runtime.{Runtime, apply_outputs_policy, arm_all, recover, handle_recovery}

is_some : {A : Type 0} → Option A → Bool
is_some none = false
is_some (some a) = true

module _ (c : Contracts) {D : Type 0} (fl : Doubles D) {S : Type 0} (api : SessionApi S) where
  -- With outputs_on_startup: leave, start-up does not touch the outputs.
  leave_lem :
      (devices : List InventoryDevice) (metrics : List (String × String)) (s : S)
      → (apply_outputs_policy c fl api OutputsOnStartup.leave devices metrics s).1 ≡ s
  unfolding apply_outputs_policy
  leave_lem [] metrics s = refl
  leave_lem (d ∷ devices) metrics s =
      leave_lem devices (insert d.descriptor.device_id "left" metrics) s

  -- The session after the safe outputs of all the devices.
  abbrev pub drive_each : List InventoryDevice → S → S
  drive_each [] s = s
  drive_each (d ∷ devices) s = drive_each devices (drive c fl api d s).1

  safe_lem :
      (devices : List InventoryDevice) (metrics : List (String × String)) (s : S)
      → (apply_outputs_policy c fl api OutputsOnStartup.safe devices metrics s).1
        ≡ drive_each devices s
  unfolding apply_outputs_policy
  safe_lem [] metrics s = refl
  safe_lem (d ∷ devices) metrics s =
      let (result, s') = drive c fl api d s in
      safe_lem devices (insert d.descriptor.device_id (to_metric result) metrics) s'

  -- The outputs of the roster are handled as the policy says.
  abbrev pub outputs_for : OutputsOnStartup → List InventoryDevice → S → S
  outputs_for OutputsOnStartup.leave devices s = s
  outputs_for OutputsOnStartup.safe devices s = drive_each devices s

  pub policy_lem :
      (policy : OutputsOnStartup) (devices : List InventoryDevice)
      (metrics : List (String × String)) (s : S)
      → (apply_outputs_policy c fl api policy devices metrics s).1 ≡ outputs_for policy devices s
  policy_lem OutputsOnStartup.leave devices metrics s = leave_lem devices metrics s
  policy_lem OutputsOnStartup.safe devices metrics s = safe_lem devices metrics s

  module _ (claim_key : String → ℕ → String) (now : S → ℕ) (config : ProviderConfig) where
    abbrev discovered : Option ℕ → S → Thrown DiscoveryResult × S
    discovered deadline s = run_discovery c claim_key api now config deadline s

    -- Discovery failed: no session and no device, and every configured device is missing.
    abbrev pub NotReady : Option ℕ → S → Runtime S → Type 0
    NotReady deadline s r =
        (what : String) × ((discovered deadline s).0 ≡ threw what)
        × (r.state.startup_message ≡ "start-up failed: " <> what)
        × (r.state.ready ≡ false)
        × (r.session ≡ none)
        × (r.state.devices ≡ [])
        × (r.state.missing_expected_ids ≡ map (λ spec. spec.id) config.devices)

    -- Discovery finished: the session is the one after its outputs were handled as the policy says,
    -- and then every device's watchdog was armed.
    abbrev pub Ready : Option ℕ → S → Runtime S → Type 0
    Ready deadline s r =
        (discovery : DiscoveryResult) × ((discovered deadline s).0 ≡ returned discovery)
        × (r.state.ready ≡ true)
        × (r.state.devices ≡ discovery.devices)
        × (r.session
            ≡ some (
                arm_all c api discovery.devices (
                  outputs_for config.outputs_on_startup discovery.devices
                    (discovered deadline s).1)))

  -- What follows a successful operation: nothing without a session or without a recovery to take,
  -- and after a recovery the outputs as the policy says, then the watchdog.
  abbrev pub Recovers : InventoryDevice → ProviderConfig → S → Runtime S → Type 0
  Recovers device config s r =
      let (recovered, s') = api.take_recovery device.address s in
      ((recovered ≡ false) × (r.session ≡ some s'))
      ⊎ ((recovered ≡ true)
          × (r.session
              ≡ some (
                  arm_if_configured c api device
                    (outputs_for config.outputs_on_startup (device ∷ []) s'))))

  recover_lem :
      (device : InventoryDevice) (config : ProviderConfig) (s : S) (r : Runtime S)
      → (recover c fl api device config s r).session
        ≡ some
            (arm_if_configured c api device (outputs_for config.outputs_on_startup (device ∷ []) s))
  unfolding recover
  recover_lem device config s r =
      elim config.outputs_on_startup
        as (λ p.
          (recover c fl api device (record config { outputs_on_startup = p }) s r).session
          ≡ some (arm_if_configured c api device (outputs_for p (device ∷ []) s))) [
            | OutputsOnStartup.leave ↦ refl
            | OutputsOnStartup.safe ↦ refl
          ]

  pub handle_recovery-Recovers :
      (device : InventoryDevice) (config : ProviderConfig) (s : S) (r : Runtime S)
      → r.session ≡ some s
      → Recovers device config s (handle_recovery c fl api device config r)
  unfolding handle_recovery
  handle_recovery-Recovers device config s r e =
      let (recovered, s') = api.take_recovery device.address s in
      elim (Bool-cases recovered) [
        | inr kept ↦ inl (kept, ground arith)
        | inl taken ↦ inr (taken, ground (arith, recover_lem device config s' r))
      ]
