-- ===== src/Program.antt =====
-- src/core/main.cpp and src/core/host_check.cpp: the command line, what each command does and the exit
-- code it ends in, and what a configuration needs from the host. The host checks and the run loop of
-- the SDK are parameters; the mode of the standard streams is left out.
pub mod CommandLine
pub mod HostChecks
use anolis_provider_bread.Base.{
  ◌⊎◌, ◌≡◌, ℕ, String, ◌=ₛ◌, ◌<>◌, starts_with, Bool, true, false, List, [], ◌∷◌, Option, none,
  some, ◌==◌, if◌then◌else◌,
}
use anolis_provider_bread.Transport.{Transport}
use anolis_provider_bread.Contracts.{Contracts, Doubles}
use anolis_provider_bread.Config.{ProviderConfig}
use anolis_provider_bread.Config.Schema.{Schema, build_schema}
use anolis_provider_bread.Config.Texts.{throws, parsed, summarize_config}
use anolis_provider_bread.Config.Load.{Yaml, or_default, load_config}
use anolis_provider_bread.Session.State.{Session}
use anolis_provider_bread.Runtime.{Runtime}
use anolis_provider_bread.Runtime.Opening.{initialize_hardware}

-- The host checks of the SDK: the requirements of an I2C bus with a limit of its clock, the exit code
-- of requirements, the entry of their diagnostics at "host_unmet", and the envelope with the code that
-- is returned when it is written. `R` is the type of requirements.
pub record HostSdk (R : Type 0) : Type 0 where
  pub check_i2c : String → Option ℕ → List R
  pub exit_code : List R → ℕ
  pub host_unmet : List R → Option String
  pub write_envelope : List R → String × ℕ

-- What the SDK documents: the code is 0 without requirements and 0 or 1 with them, and writing the
-- envelope returns it.
pub record HostSdkLaws {R : Type 0} (sdk : HostSdk R) : Type 0 where
  pub none_needed : sdk.exit_code [] ≡ 0
  pub zero_or_one : (needed : List R) → (sdk.exit_code needed ≡ 0) ⊎ (sdk.exit_code needed ≡ 1)
  pub returned_code : (needed : List R) → (sdk.write_envelope needed).1 ≡ sdk.exit_code needed

module _ {R : Type 0} (sdk : HostSdk R) where
  unfoldable pub check_host : ProviderConfig → List R
  check_host config =
      if starts_with config.bus_path "mock://"
      then []
      else sdk.check_i2c config.bus_path config.max_bus_hz

  unfoldable pub summarize_unmet : List R → String
  summarize_unmet needed = or_default "" (sdk.host_unmet needed)

  -- What start-up finds unmet.
  unfoldable pub unmet_for : ProviderConfig → Option String
  unmet_for config =
      let needed = check_host config in
      if sdk.exit_code needed == 0 then none else some (summarize_unmet needed)

  -- The hardware path of the start-up with its host check.
  abbrev pub start_hardware :
      {D : Type 0}
      → Contracts
      → Doubles D
      → {W : Type 0} → Transport W
      → (String → ℕ → String)
      → (Session W → ℕ)
      → ProviderConfig
      → Option ℕ
      → Session W
      → Runtime (Session W)
  start_hardware c fl t claim_key now config deadline s =
      initialize_hardware c fl t claim_key now config deadline (unmet_for config) s

-- The command line so far.
pub record Options : Type 0 where
  pub config_path : String
  pub check_config_only : Bool
  pub check_host_only : Bool

abbrev pub no_options : Options
no_options = record { config_path = ""; check_config_only = false; check_host_only = false }

-- What the arguments ask for.
pub data Request : Type 0 where
  wants_version wants_schema wants_usage : Request
  use_config : Options → Request

-- An option that takes a value.
unfoldable pub with_value : String → String → Options → Option Options
with_value arg value o =
    if arg =ₛ "--check-config"
    then some (record o { config_path = value; check_config_only = true })
    else if arg =ₛ "--check-host"
    then some (record o { config_path = value; check_host_only = true })
    else if arg =ₛ "--config"
    then some (record o { config_path = value })
    else none

unfoldable pub parse_args : List String → Options → Request
parse_args [] o = use_config o
parse_args (arg ∷ []) o =
    if arg =ₛ "--version"
    then wants_version
    else if arg =ₛ "--config-schema"
    then wants_schema
    else wants_usage
parse_args (arg ∷ value ∷ args) o =
    let next : Request = elim (with_value arg value o) [
      | none ↦ wants_usage
      | some o' ↦ parse_args args o'
    ] in
    if arg =ₛ "--version"
    then wants_version
    else if arg =ₛ "--config-schema"
    then wants_schema
    else next

-- The exit code, with what stands on the standard output and the lines that are logged.
pub record Exit : Type 0 where
  pub code : ℕ
  pub out : String
  pub log : List String

-- The version of the build, the envelope of the SDK around a schema for a provider's name and version,
-- and the run loop of the SDK on a configuration.
pub record Surroundings : Type 0 where
  pub version : String
  pub schema_envelope : Schema → String → String → String
  pub run_loop : ProviderConfig → Exit

unfoldable pub print_usage : String → String
print_usage program_name =
    "Usage:\n  " <> program_name <> " --version\n  " <> program_name <> " --config-schema\n  "
    <> program_name <> " --check-config <path>\n  " <> program_name <> " --check-host <path>\n  "
    <> program_name
    <> " --config <path>\n\nImplements ADPP v1 over BREAD-over-CRUMBS with config-seeded or hardware-backed inventory.\n"

module _ {R Y E : Type 0} (sdk : HostSdk R) (yaml : Yaml Y E) (around : Surroundings) where
  -- main from a loaded configuration on.
  unfoldable pub run_config : Options → ProviderConfig → Exit
  run_config o config =
      let (envelope, code) = sdk.write_envelope (check_host sdk config) in
      if o.check_host_only
      then record { code = code; out = envelope; log = [] }
      else if o.check_config_only
      then record { code = 0; out = ""; log = ("Config valid: " <> summarize_config config) ∷ [] }
      else let served = around.run_loop config in
        record served { log = ("starting with config: " <> summarize_config config) ∷ served.log }

  unfoldable pub run_options : Options → Exit
  run_options o = elim (load_config yaml o.config_path) [
    | throws what ↦ record { code = if o.check_host_only then 2 else 1; out = ""; log = what ∷ [] }
    | parsed config ↦ run_config o config
  ]

  -- main on the program's name and the arguments after it.
  unfoldable pub main : String → List String → Exit
  main program_name args =
      let misused : Exit = record { code = 1; out = print_usage program_name; log = [] } in
      elim (parse_args args no_options) [
        | wants_version ↦ record { code = 0; out = around.version <> "\n"; log = [] }
        | wants_schema ↦
            let envelope =
              around.schema_envelope build_schema "anolis-provider-bread" around.version in
            record { code = 0; out = envelope; log = [] }
        | wants_usage ↦ misused
        | use_config o ↦ if o.config_path =ₛ "" then misused else run_options o
      ]
