-- ===== src/Tests/ProgramRuns.antt =====
-- Runs of the command line on a host whose one bus is not there.
use anolis_provider_bread.Base.{
  String, ◌⊎◌, inl, inr, ◌≡◌, refl, List, [], ◌∷◌, none, some, if◌then◌else◌, is_empty,
}
use anolis_provider_bread.Config.{ProviderConfig}
use anolis_provider_bread.Config.Texts.{throws, parsed}
use anolis_provider_bread.Config.Load.{load_config}
use anolis_provider_bread.Session.State.{new_session}
use anolis_provider_bread.Program.{HostSdk, HostSdkLaws, Surroundings, main, parse_args, with_value}
use anolis_provider_bread.Program.CommandLine.{Flag, spelled}
use anolis_provider_bread.Program.HostChecks.{Foretold, check_host-foretells}
use anolis_provider_bread.Tests.{
  sample_contracts, sample_transport, sample_options, sample_claim, tenths,
}
use anolis_provider_bread.Tests.ReportRuns.{sample_file}

abbrev no_bus : HostSdk String
no_bus = record {
  check_i2c = λ path max_hz. ("bus: " ∷ []);
  exit_code = λ needed. if is_empty needed then 0 else 1;
  host_unmet = λ needed. if is_empty needed then none else some "bus: not found";
  write_envelope = λ needed. ("{}", if is_empty needed then 0 else 1);
}

either_code : (needed : List String) → (no_bus.exit_code needed ≡ 0) ⊎ (no_bus.exit_code needed ≡ 1)
either_code [] = inl refl
either_code (r ∷ rest) = inr refl

no_bus_laws : HostSdkLaws no_bus
no_bus_laws = record {
  none_needed = refl;
  zero_or_one = either_code;
  returned_code = λ needed. refl;
}

abbrev shell : Surroundings
shell = record {
  version = "1.0.0";
  schema_envelope = λ schema name version. "{}";
  run_loop = λ config. record { code = 0; out = ""; log = [] };
}

abbrev host_flags : List (Flag × String)
host_flags = (Flag.flag_config, "old.yaml") ∷ (Flag.flag_check_host, "new.yaml") ∷ []

-- An option without its value, and an option that is not known.
usage_codes :
    ((main no_bus sample_file shell "bread" ("--config" ∷ [])).code ≡ 1)
    × ((main no_bus sample_file shell "bread" ("--config" ∷ "a.yaml" ∷ "--fast" ∷ [])).code ≡ 1)
    × ((main no_bus sample_file shell "bread" ("--config" ∷ "a.yaml" ∷ "--version" ∷ [])).code ≡ 0)
unfolding main parse_args with_value
usage_codes = (refl, refl, refl)

check_host-foretells_example :
    let exit = main no_bus sample_file shell "bread" (spelled host_flags) in
    let plain =
      main no_bus sample_file shell "bread" (spelled ((Flag.flag_config, "new.yaml") ∷ [])) in
    ((what : String) × (load_config sample_file "new.yaml" ≡ throws what)
      × (exit.code ≡ 2)
      × (plain.code ≡ 1))
    ⊎ ((config : ProviderConfig) × (load_config sample_file "new.yaml" ≡ parsed config)
        × Foretold no_bus no_bus_laws sample_file shell "bread" sample_contracts tenths
            sample_transport sample_claim
            (λ s. 7)
            none
            (new_session 0 sample_options)
            config
            exit.code)
check_host-foretells_example =
    check_host-foretells no_bus no_bus_laws sample_file shell "bread" sample_contracts tenths
      sample_transport sample_claim (λ s. 7) none (new_session 0 sample_options) host_flags refl
      refl
