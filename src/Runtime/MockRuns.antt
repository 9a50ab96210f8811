-- ===== src/Runtime/MockRuns.antt =====
-- What the mock path of the start-up publishes.
use anolis_provider_bread.Base.{
  ℕ, ◌%◌, ◌^◌, ℤ, pos, ltb_ℤ, String, ◌=ₛ◌, true, false, ◌⊎◌, inl, inr, ◌≡◌, ◌≢◌, refl, ap, List,
  [], ◌∷◌, some, All, Bool-cases, ◌==◌, ==→eq, ==_refl, Bool, ◌<◌, ◌∙◌, arith,
}
use anolis_provider_bread.Frames.{is_ok}
use anolis_provider_bread.Session.State.{Session, new_session, validate_open_options}
use anolis_provider_bread.Session.{open_session}
use anolis_provider_bread.Transport.{Transport}
use anolis_provider_bread.SessionApi.{session_api}
use anolis_provider_bread.Contracts.{Contracts, Doubles}
use anolis_provider_bread.Config.{DeviceSpec, ProviderConfig, make_session_options}
use anolis_provider_bread.Devices.{InventoryDevice}
use anolis_provider_bread.Compatibility.{bread_type_id}
use anolis_provider_bread.Inventory.{build_seed_inventory}
use anolis_provider_bread.Inventory.Judgement.{count}
use anolis_provider_bread.Inventory.Seeds.{Apart, build_seed_inventory-count}
use anolis_provider_bread.Wire.{I2cStatuses, I2cStatusLaws, Codec, DeviceConstants, ControllerScan}
use anolis_provider_bread.CrumbsTransport.{CrumbsTransport, open_transport, opened}
use anolis_provider_bread.CannedBus.Device.{DeviceState}
use anolis_provider_bread.CannedBus.{CannedBus, new_canned_bus, or_seeded, add_device}
use anolis_provider_bread.Runtime.{arm_all}
use anolis_provider_bread.Runtime.Service.{outputs_for, policy_lem}
use anolis_provider_bread.Runtime.Opening.{
  FaultInjection, seed_bus, mock_with, mock_bus, mock_session, mock_transport, initialize_mock,
}

-- A device stands at the address.
abbrev pub IsSeeded : CannedBus → ℕ → Type 0
IsSeeded bus address = (dev : DeviceState) × (bus.devices address ≡ some dev)

add_device-IsSeeded :
    (address type_id other : ℕ) (bus : CannedBus)
    → (address ≡ other) ⊎ IsSeeded bus other
    → IsSeeded (add_device address type_id bus) other
unfolding add_device
add_device-IsSeeded address type_id other bus h = elim (Bool-cases (address == other)) [
  | inl same ↦ (record (or_seeded (bus.devices address)) { type_id = type_id }, rw same refl)
  | inr differs ↦ elim h [
    | inl e ↦ absurd (not_both address other differs e)
    | inr (dev, found) ↦ (dev, rw differs found)
  ]
]
  where
    not_both : (a b : ℕ) → (a == b) ≡ false → a ≢ b
    not_both a b d = ground arith

module _ (c : Contracts) where
  seed_bus-kept :
      (devices : List InventoryDevice) (bus : CannedBus) (address : ℕ)
      → IsSeeded bus address
      → IsSeeded (seed_bus c devices bus) address
  unfolding seed_bus
  seed_bus-kept [] bus address h = h
  seed_bus-kept (device ∷ devices) bus address h =
      let id = bread_type_id c device.type in
      seed_bus-kept devices (add_device (device.address % 2 ^ 8) id bus) address
        (add_device-IsSeeded (device.address % 2 ^ 8) id address bus (inr h))

  -- Every device of the inventory stands on the canned bus.
  seed_bus-IsSeeded :
      (devices : List InventoryDevice) (bus : CannedBus)
      → All (λ device. IsSeeded (seed_bus c devices bus) (device.address % 2 ^ 8)) devices
  unfolding seed_bus
  seed_bus-IsSeeded [] bus = tt
  seed_bus-IsSeeded (device ∷ devices) bus =
      let address = device.address % 2 ^ 8 in
      let id = bread_type_id c device.type in
      (
        seed_bus-kept devices (add_device address id bus) address
            (add_device-IsSeeded address id address bus (inl refl)),
        seed_bus-IsSeeded devices (add_device address id bus),
      )

-- A device stands on the bus at each address of the inventory.
IsSeeded-at :
    (bus : CannedBus) (devices : List InventoryDevice) (a : ℕ)
    → All (λ device. IsSeeded bus (device.address % 2 ^ 8)) devices
    → 0 < count (λ device. device.address == a) devices
    → IsSeeded bus (a % 2 ^ 8)
IsSeeded-at bus [] a h some_there = absurd (omega arith)
IsSeeded-at bus (device ∷ devices) a (h, hs) some_there = elim (Bool-cases (device.address == a)) [
  | inl here ↦ let e = ==→eq device.address a here in rw e at h
  | inr other ↦
      let more = rw other at some_there in IsSeeded-at bus devices a hs (omega (arith, more))
]

-- What holds of every address with a configured device holds of every configured device.
each_configured :
    (bus : CannedBus) (specs : List DeviceSpec)
    → ((a : ℕ) → 0 < count (λ spec. spec.address == a) specs → IsSeeded bus (a % 2 ^ 8))
    → All (λ spec. IsSeeded bus (spec.address % 2 ^ 8)) specs
each_configured bus [] h = tt
each_configured bus (spec ∷ specs) h = (
  h spec.address (rw (==_refl spec.address) (omega arith)),
  each_configured bus specs (λ a there. h a (omega (arith, there))),
)

module _ (c : Contracts) {D : Type 0} (fl : Doubles D) {F X : Type 0} (faults : FaultInjection F)
    (k : DeviceConstants) (codec : Codec X) (st : I2cStatuses) (st_laws : I2cStatusLaws st)
    (controller_scan : ControllerScan (F × CannedBus) X)
    (clock : F × CannedBus → ℕ × (F × CannedBus)) (etimedout : ℤ) (claim_key : String → ℕ → String)
    (ctx : X) (config : ProviderConfig) where
  abbrev pub Mock : Type 0
  Mock = CrumbsTransport (F × CannedBus) X

  abbrev pub unopened : Session Mock
  unopened =
      mock_session c fl faults k codec st controller_scan clock etimedout claim_key ctx config

  abbrev pub host : Transport Mock
  host = mock_transport c fl faults k codec st controller_scan clock etimedout claim_key config

  open-mock :
      faults.any_fault (faults.split_bus_query config.bus_path).1 ≡ false
      → (config.bus_path =ₛ "") ≡ false
      → ltb_ℤ config.retry_count (pos 0) ≡ false
      → (let (status, s) = open_session host unopened in
          (is_ok status ≡ true)
          × (s.world.is_open ≡ true)
          × (s.world.bus.1.opened ≡ true)
          × (s.world.bus.1.devices ≡ unopened.world.bus.1.devices))
  unfolding open_session open_transport opened validate_open_options make_session_options
      mock_session mock_bus new_session
  open-mock clean path retry = rw (clean, path, retry, st_laws.done_ok) (refl, refl, refl, refl)

  mock_with-publishes :
      (s : Session Mock) (now : Session Mock → ℕ)
      → let r = mock_with c fl (session_api host) claim_key now config s in
        let devices = build_seed_inventory c claim_key config in
        (r.state.ready ≡ true)
        × (r.state.devices ≡ devices)
        × (r.session
            ≡ some (
                arm_all c
                  (session_api host)
                  devices
                  (outputs_for c fl (session_api host) config.outputs_on_startup devices s)))
  unfolding mock_with
  mock_with-publishes s now =
      let devices = build_seed_inventory c claim_key config in
      (
        refl,
        refl,
        ap (λ s1. some (arm_all c (session_api host) devices s1))
            (policy_lem c fl (session_api host) config.outputs_on_startup devices [] s),
      )

  initialize_mock-opened :
      (now : Session Mock → ℕ)
      → is_ok (open_session host unopened).0 ≡ true
      → initialize_mock c fl faults k codec st controller_scan clock etimedout claim_key ctx now
          config
        ≡ mock_with c fl (session_api host) claim_key now config (open_session host unopened).1
  unfolding initialize_mock
  initialize_mock-opened now good = rw good refl

  -- In mock mode without injected faults, a configuration with a bus path and a retry count of 0 or
  -- more, where no two devices of different families share an address, always starts up ready. At any
  -- choice of addresses its inventory has as many devices as are configured there. Its session is open
  -- on a canned bus that holds a device at the address of each configured device, after the outputs
  -- were handled as the configuration says and then every watchdog was armed.
  pub initialize_mock-ready :
      (now : Session Mock → ℕ)
      → faults.any_fault (faults.split_bus_query config.bus_path).1 ≡ false
      → (config.bus_path =ₛ "") ≡ false
      → ltb_ℤ config.retry_count (pos 0) ≡ false
      → c.rlht.type_id ≢ c.dcmt.type_id
      → All (λ spec. All (Apart spec) config.devices) config.devices
      → let r =
          initialize_mock c fl faults k codec st controller_scan clock etimedout claim_key ctx now
            config in
        let devices = build_seed_inventory c claim_key config in
        (r.state.ready ≡ true)
        × (r.state.devices ≡ devices)
        × ((f : ℕ → Bool)
            → count (λ d. f d.address) r.state.devices
              ≡ count (λ spec. f spec.address) config.devices)
        × ((s : Session Mock) × (r.session
              ≡ some (
                  arm_all c
                    (session_api host)
                    devices
                    (outputs_for c fl (session_api host) config.outputs_on_startup devices s)))
            × (s.world.is_open ≡ true)
            × (s.world.bus.1.opened ≡ true)
            × All (λ spec. IsSeeded s.world.bus.1 (spec.address % 2 ^ 8)) config.devices)
  unfolding mock_session new_session
  initialize_mock-ready now clean path retry families apart =
      let devices = build_seed_inventory c claim_key config in
      let (good, open_, bus_open, seeded) = open-mock clean path retry in
      let fresh = new_canned_bus (faults.split_bus_query config.bus_path).0 in
      let filled = seed_bus c devices fresh in
      let counts =
        λ (f : ℕ → Bool). build_seed_inventory-count c claim_key config f families apart in
      let (ready, same, session) = mock_with-publishes (open_session host unopened).1 now in
      rw (initialize_mock-opened now good) (
        ready,
        same,
        λ f. ap (count (λ d. f d.address)) same ∙ counts f,
        (
          (open_session host unopened).1,
          session,
          open_,
          bus_open,
          rw seeded (
              each_configured filled config.devices (λ a there.
                IsSeeded-at filled devices a (seed_bus-IsSeeded c devices fresh)
                  (omega (arith, counts (λ b. b == a), there)))),
        ),
      )
