-- ===== src/Tests/ReportRuns.antt =====
-- Runs of health, of the reports, of loading a configuration and of the mock start-up.
use anolis_provider_bread.Base.{
  Bool, ℕ, ◌%◌, ◌^◌, pos, String, ◌=ₛ◌, true, false, ◌⊎◌, inl, inr, ◌≡◌, refl, [], ◌∷◌, Option,
  none, some, any, All, ◌==◌, ==→eq, Bool-cases, if◌then◌else◌, arith,
}
use anolis_provider_bread.Config.{ProviderConfig}
use anolis_provider_bread.Config.Texts.{parsed}
use anolis_provider_bread.Config.Load.{Yaml, drop_rlht_encoders, load_config}
use anolis_provider_bread.Config.Loads.{IsAccepted, Loaded, load_config-Loaded}
use anolis_provider_bread.Devices.{Descriptor}
use anolis_provider_bread.Inventory.Judgement.{count}
use anolis_provider_bread.Inventory.Seeds.{Apart}
use anolis_provider_bread.Inventory.{build_seed_inventory, find_device}
use anolis_provider_bread.SessionApi.{session_api}
use anolis_provider_bread.Session.State.{Session}
use anolis_provider_bread.CrumbsTransport.{CrumbsTransport}
use anolis_provider_bread.CannedBus.{CannedBus}
use anolis_provider_bread.Runtime.{Runtime, new_state, arm_all}
use anolis_provider_bread.Runtime.Service.{outputs_for}
use anolis_provider_bread.Runtime.Health.{device_health, Touches, device_health-Touches}
use anolis_provider_bread.Runtime.Reports.{
  list_device_ids, has_device, device_info, capabilities, has_device-listed,
}
use anolis_provider_bread.Runtime.Opening.{FaultInjection, beside, initialize_mock}
use anolis_provider_bread.Runtime.MockRuns.{host, IsSeeded, initialize_mock-ready}
use anolis_provider_bread.Tests.{
  sample_contracts, sample_api, sample_device, sample_config, sample_claim, tenths,
}
use anolis_provider_bread.Tests.SampleBus.{
  sample_statuses, sample_status_laws, sample_codec, sample_constants, no_scan,
}

abbrev serving : Runtime ℕ
serving = record {
  state = record (new_state sample_config) { devices = sample_device ∷ []; ready = true };
  session = some 4;
  keepalive = none;
}

device_health-Touches_example :
    let r' = (device_health sample_contracts sample_api "motors" serving).1 in
    (r'.state ≡ serving.state)
    × (r'.keepalive ≡ none)
    × ((s' : ℕ) × (r'.session ≡ some s') × Touches sample_contracts sample_api sample_device 4 s')
unfolding find_device
device_health-Touches_example =
    device_health-Touches sample_contracts sample_api "motors" serving sample_device 4 refl refl

has_device-listed_example :
    ((any (λ id. id =ₛ "motors") (list_device_ids serving.state) ≡ true)
      × (has_device serving.state "motors" ≡ true)
      × ((descriptor : Descriptor) × (device_info serving.state "motors" ≡ some descriptor)
          × (descriptor.device_id ≡ "motors")))
    ⊎ ((any (λ id. id =ₛ "motors") (list_device_ids serving.state) ≡ false)
        × (has_device serving.state "motors" ≡ false)
        × (device_info serving.state "motors" ≡ none)
        × (capabilities serving.state "motors" ≡ record { functions = []; signals = [] }))
has_device-listed_example = has_device-listed serving.state "motors"

-- A file in scan mode with one DCMT: the nodes are 0 for the root, 1 for the devices, 2 for the
-- discovery, 3 for its mode, 10 for the device, 11 for its type and 12 for its id.
abbrev file_get : ℕ → String → ℕ
file_get node key =
    if node == 0
    then (if key =ₛ "devices" then 1 else if key =ₛ "discovery" then 2 else 9)
    else if node == 2
    then (if key =ₛ "mode" then 3 else 9)
    else if node == 10
    then (if key =ₛ "type" then 11 else if key =ₛ "id" then 12 else 9)
    else 9

abbrev file_text : ℕ → Option String
file_text node =
    if node == 3
    then some "scan"
    else if node == 11
    then some "dcmt"
    else if node == 12
    then some "motors"
    else none

abbrev pub sample_file : Yaml ℕ String
sample_file = record {
  load_file = λ path. parsed 0;
  get = file_get;
  is_defined = λ node. true;
  is_map = λ node. true;
  is_sequence = λ node. node == 1;
  is_scalar = λ node. true;
  scalar = λ node. "";
  items = λ node. 10 ∷ [];
  remove = λ key node. node;
  change_items = λ key f node. node;
  as_string = file_text;
  as_int64 = λ node. none;
  as_bool = λ node. none;
  parse_i2c_address = λ node. some 32;
  validate = λ root. if root == 0 then [] else "not the root" ∷ [];
  format_errors = λ errors. "";
  absolute = λ path. path;
}

root-IsAccepted : IsAccepted sample_file 0
root-IsAccepted = record {
  policies = inl refl;
  modes = inr (inl refl);
  types = (inr (inr refl), tt);
  watchdogs = (inl refl, tt);
}

sample_schema : (root : ℕ) → sample_file.validate root ≡ [] → IsAccepted sample_file root
sample_schema root h = elim (Bool-cases (root == 0)) [
  | inl e ↦ rw (==→eq root 0 e) root-IsAccepted
  | inr other ↦ ground arith
]

load_config-Loaded_example :
    (config : ProviderConfig) × (load_config sample_file "provider.yaml" ≡ parsed config)
    × Loaded sample_file (drop_rlht_encoders sample_file 0) config
unfolding drop_rlht_encoders
load_config-Loaded_example =
    load_config-Loaded sample_file "provider.yaml" 0 refl refl sample_schema

abbrev no_faults : FaultInjection ℕ
no_faults = record {
  split_bus_query = λ path. (path, "");
  any_fault = λ query. false;
  initial = λ query. 0;
  inject = λ query i2c. beside i2c;
}

abbrev mock_config : ProviderConfig
mock_config = record sample_config { bus_path = "mock://bench" }

mock-Apart : All (λ spec. All (Apart spec) mock_config.devices) mock_config.devices
mock-Apart = ((inr refl, tt), tt)

initialize_mock-ready_example :
    let r =
      initialize_mock sample_contracts tenths no_faults sample_constants sample_codec
        sample_statuses no_scan
        (λ b. (7, b))
        (pos 110)
        sample_claim
        0
        (λ s. 7)
        mock_config in
    let devices = build_seed_inventory sample_contracts sample_claim mock_config in
    let api = session_api (
      host sample_contracts tenths no_faults sample_constants sample_codec sample_statuses
        sample_status_laws no_scan
        (λ b. (7, b))
        (pos 110)
        sample_claim
        0
        mock_config) in
    (r.state.ready ≡ true)
    × (r.state.devices ≡ devices)
    × ((f : ℕ → Bool)
        → count (λ d. f d.address) r.state.devices
          ≡ count (λ spec. f spec.address) mock_config.devices)
    × ((s : Session (CrumbsTransport (ℕ × CannedBus) ℕ)) × (r.session
          ≡ some (
              arm_all sample_contracts api devices
                (outputs_for sample_contracts tenths api mock_config.outputs_on_startup devices s)))
        × (s.world.is_open ≡ true)
        × (s.world.bus.1.opened ≡ true)
        × All (λ spec. IsSeeded s.world.bus.1 (spec.address % 2 ^ 8)) mock_config.devices)
initialize_mock-ready_example =
    initialize_mock-ready sample_contracts tenths no_faults sample_constants sample_codec
      sample_statuses sample_status_laws no_scan (λ b. (7, b)) (pos 110) sample_claim 0 mock_config
      (λ s. 7) refl refl refl (omega arith) mock-Apart
