-- ===== src/Config/Texts.antt =====
-- The enumerated settings as texts (src/config/provider_config.cpp): what a text is read as, and the
-- summary of a configuration. A parser that throws returns the text of the exception.
use anolis_provider_bread.Base.{
  ℕ, ℤ, pos, negsuc, suc, ◌<>◌, String, ◌=ₛ◌, eq_iff, ◌⊎◌, inl, inr, ◌≡◌, refl, ◌∙◌, List, [], ◌∷◌,
  Option, none, some, if◌then◌else◌, length, Bool-cases,
}
use anolis_provider_bread.Base.Text.{to_dec}
use anolis_provider_bread.Config.{
  DeviceType, DiscoveryMode, OutputsOnStartup, ProviderConfig, device_type_to_string,
  discovery_mode_to_string, format_i2c_address,
}

pub data Parsed (A : Type 0) : Type 0 where
  throws : String → Parsed A
  parsed : A → Parsed A

unfoldable pub outputs_on_startup_to_string : OutputsOnStartup → String
outputs_on_startup_to_string OutputsOnStartup.safe = "safe"
outputs_on_startup_to_string OutputsOnStartup.leave = "leave"

unfoldable pub parse_discovery_mode : String → Parsed DiscoveryMode
parse_discovery_mode value =
    if value =ₛ "scan"
    then parsed DiscoveryMode.scan
    else if value =ₛ "manual"
    then parsed DiscoveryMode.manual
    else throws ("Invalid discovery.mode: '" <> value <> "'")

unfoldable pub parse_outputs_on_startup : String → Parsed OutputsOnStartup
parse_outputs_on_startup value =
    if value =ₛ "safe"
    then parsed OutputsOnStartup.safe
    else if value =ₛ "leave"
    then parsed OutputsOnStartup.leave
    else throws ("Invalid provider.outputs_on_startup: '" <> value <> "'")

unfoldable pub parse_device_type : String → Parsed DeviceType
parse_device_type value =
    if value =ₛ "rlht"
    then parsed DeviceType.rlht
    else if value =ₛ "dcmt"
    then parsed DeviceType.dcmt
    else throws ("Invalid devices[].type: '" <> value <> "'")

-- A signed integer as `<<` writes it.
abbrev to_text_ℤ : ℤ → String
to_text_ℤ (pos n) = to_dec n
to_text_ℤ (negsuc n) = "-" <> to_dec (suc n)

unfoldable pub addresses_text : List ℕ → String
addresses_text [] = ""
addresses_text (address ∷ []) = format_i2c_address address
addresses_text (address ∷ next ∷ rest) =
    format_i2c_address address <> ", " <> addresses_text (next ∷ rest)

abbrev bus_hz_text : Option ℕ → String
bus_hz_text none = ""
bus_hz_text (some hz) = ", hardware.max_bus_hz=" <> to_dec hz

abbrev manual_text : DiscoveryMode → List ℕ → String
manual_text DiscoveryMode.scan addresses = ""
manual_text DiscoveryMode.manual addresses =
    ", discovery.addresses=[" <> addresses_text addresses <> "]"

unfoldable pub summarize_config : ProviderConfig → String
summarize_config config =
    "provider.name="
    <> config.provider_name
    <> ", provider.outputs_on_startup="
    <> outputs_on_startup_to_string config.outputs_on_startup
    <> ", hardware.bus_path="
    <> config.bus_path
    <> ", hardware.query_delay_us="
    <> to_dec config.query_delay_us
    <> ", hardware.timeout_ms="
    <> to_dec config.timeout_ms
    <> ", hardware.retry_count="
    <> to_text_ℤ config.retry_count
    <> bus_hz_text config.max_bus_hz
    <> ", discovery.mode="
    <> discovery_mode_to_string config.discovery_mode
    <> ", devices="
    <> to_dec (length config.devices)
    <> manual_text config.discovery_mode config.manual_addresses

-- A parser that reads exactly the texts that are written.
abbrev pub Reads : {A : Type 0} → (String → Parsed A) → (A → String) → Type 0
Reads {A} parse print =
    ((a : A) → parse (print a) ≡ parsed a)
    × ((value : String)
        → ((what : String) × (parse value ≡ throws what))
          ⊎ ((a : A) × (parse value ≡ parsed a) × (value ≡ print a)))

-- A parser that tests a text against those of two values.
reads_two :
    {A : Type 0} (parse : String → Parsed A) (print : A → String) (x y : A) (what : String → String)
    → ((value : String)
        → parse value ≡ (
            if value =ₛ print x
            then parsed x
            else if value =ₛ print y
            then parsed y
            else throws (what value)))
    → (value : String)
    → ((why : String) × (parse value ≡ throws why))
      ⊎ ((a : A) × (parse value ≡ parsed a) × (value ≡ print a))
reads_two parse print x y what body value = elim (Bool-cases (value =ₛ print x)) [
  | inl e ↦ inr (x, body value ∙ rw e refl, (eq_iff value (print x)).0 e)
  | inr other ↦ elim (Bool-cases (value =ₛ print y)) [
    | inl e ↦ inr (y, body value ∙ rw (other, e) refl, (eq_iff value (print y)).0 e)
    | inr neither ↦ inl (what value, body value ∙ rw (other, neither) refl)
  ]
]

discovery_mode-Reads : Reads parse_discovery_mode discovery_mode_to_string
unfolding parse_discovery_mode discovery_mode_to_string
discovery_mode-Reads = (
  written,
  reads_two parse_discovery_mode discovery_mode_to_string DiscoveryMode.scan DiscoveryMode.manual
      (λ value. "Invalid discovery.mode: '" <> value <> "'") (λ value. refl),
)
  where
    written : (a : DiscoveryMode) → parse_discovery_mode (discovery_mode_to_string a) ≡ parsed a
    written DiscoveryMode.scan = refl
    written DiscoveryMode.manual = refl

outputs-Reads : Reads parse_outputs_on_startup outputs_on_startup_to_string
unfolding parse_outputs_on_startup outputs_on_startup_to_string
outputs-Reads = (
  written,
  reads_two parse_outputs_on_startup outputs_on_startup_to_string OutputsOnStartup.safe
      OutputsOnStartup.leave (λ value. "Invalid provider.outputs_on_startup: '" <> value <> "'")
      (λ value. refl),
)
  where
    written :
        (a : OutputsOnStartup)
        → parse_outputs_on_startup (outputs_on_startup_to_string a) ≡ parsed a
    written OutputsOnStartup.safe = refl
    written OutputsOnStartup.leave = refl

device_type-Reads : Reads parse_device_type device_type_to_string
unfolding parse_device_type device_type_to_string
device_type-Reads = (
  written,
  reads_two parse_device_type device_type_to_string DeviceType.rlht DeviceType.dcmt
      (λ value. "Invalid devices[].type: '" <> value <> "'") (λ value. refl),
)
  where
    written : (a : DeviceType) → parse_device_type (device_type_to_string a) ≡ parsed a
    written DeviceType.rlht = refl
    written DeviceType.dcmt = refl

-- The parsers of the discovery mode, the outputs policy and the device type read the text that is
-- written of a value as that value, and throw on every text that is not written of some value.
pub settings_round_trip :
    Reads parse_discovery_mode discovery_mode_to_string
    × Reads parse_outputs_on_startup outputs_on_startup_to_string
    × Reads parse_device_type device_type_to_string
settings_round_trip = (discovery_mode-Reads, outputs-Reads, device_type-Reads)
