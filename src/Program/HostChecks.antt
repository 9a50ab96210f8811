-- ===== src/Program/HostChecks.antt =====
-- What --check-host says of the start-up on the same configuration.
use anolis_provider_bread.Base.{
  ℕ, String, ◌=ₛ◌, ◌<>◌, true, false, ◌⊎◌, inl, inr, ◌≡◌, refl, ap, ◌∙◌, List, [], ◌∷◌, Option,
  none, some, Bool-cases, if◌then◌else◌, arith,
}
use anolis_provider_bread.Transport.{Transport}
use anolis_provider_bread.Contracts.{Contracts, Doubles}
use anolis_provider_bread.Config.{ProviderConfig}
use anolis_provider_bread.Config.Texts.{Parsed, throws, parsed}
use anolis_provider_bread.Config.Load.{Yaml, load_config}
use anolis_provider_bread.Session.State.{Session}
use anolis_provider_bread.Runtime.Opening.{is_mock_mode, published, initialize_hardware}
use anolis_provider_bread.Program.{
  HostSdk, HostSdkLaws, check_host, summarize_unmet, unmet_for, start_hardware, Options, no_options,
  use_config, parse_args, Surroundings, run_config, run_options, main,
}
use anolis_provider_bread.Program.CommandLine.{
  Flag, spelled, last_path, asked, is_check_config, is_check_host, parse_args-spelled,
}

Parsed-cases :
    {A : Type 0} (p : Parsed A) → ((what : String) × (p ≡ throws what)) ⊎ ((a : A) × (p ≡ parsed a))
Parsed-cases (throws what) = inl (what, refl)
Parsed-cases (parsed a) = inr (a, refl)

module _ {R : Type 0} (sdk : HostSdk R) (laws : HostSdkLaws sdk) where
  check_host-mock :
      (config : ProviderConfig)
      → is_mock_mode config ≡ true
      → sdk.exit_code (check_host sdk config) ≡ 0
  unfolding check_host is_mock_mode
  check_host-mock config mock = rw mock laws.none_needed

  unmet_for-none :
      (config : ProviderConfig)
      → sdk.exit_code (check_host sdk config) ≡ 0
      → unmet_for sdk config ≡ none
  unfolding unmet_for
  unmet_for-none config e = rw e refl

  unmet_for-some :
      (config : ProviderConfig)
      → sdk.exit_code (check_host sdk config) ≡ 1
      → unmet_for sdk config ≡ some (summarize_unmet sdk (check_host sdk config))
  unfolding unmet_for
  unmet_for-some config e = rw e refl

  module _ {Y E : Type 0} (yaml : Yaml Y E) (around : Surroundings) (name : String) where
    abbrev options_of : List (Flag × String) → Options
    options_of flags = record {
      config_path = last_path "" flags;
      check_config_only = asked is_check_config false flags;
      check_host_only = asked is_check_host false flags;
    }

    main_lem :
        (args : List String) (o : Options)
        → parse_args args no_options ≡ use_config o
        → (o.config_path =ₛ "") ≡ false
        → main sdk yaml around name args ≡ run_options sdk yaml around o
    unfolding main
    main_lem args o e path = rw (main, e, path) refl

    -- main on options whose last path is not empty.
    main-spelled :
        (flags : List (Flag × String))
        → (last_path "" flags =ₛ "") ≡ false
        → main sdk yaml around name (spelled flags) ≡ run_options sdk yaml around (options_of flags)
    main-spelled flags path =
        main_lem (spelled flags) (options_of flags) (parse_args-spelled flags no_options) path

    run_options_threw :
        (o : Options) (what : String)
        → load_config yaml o.config_path ≡ throws what
        → (run_options sdk yaml around o).code ≡ (if o.check_host_only then 2 else 1)
    unfolding run_options
    run_options_threw o what e = rw (run_options, e) refl

    run_options_checked :
        (o : Options) (config : ProviderConfig)
        → o.check_host_only ≡ true
        → load_config yaml o.config_path ≡ parsed config
        → (run_options sdk yaml around o).code ≡ sdk.exit_code (check_host sdk config)
    unfolding run_options run_config
    run_options_checked o config host e =
        rw (run_options, e, run_config, host) (laws.returned_code (check_host sdk config))

    rejected_code :
        (flags : List (Flag × String)) (what : String)
        → (last_path "" flags =ₛ "") ≡ false
        → load_config yaml (last_path "" flags) ≡ throws what
        → (main sdk yaml around name (spelled flags)).code
          ≡ (if asked is_check_host false flags then 2 else 1)
    rejected_code flags what path e =
        ap (λ x. x.code) (main-spelled flags path) ∙ run_options_threw (options_of flags) what e

    checked_code :
        (flags : List (Flag × String)) (config : ProviderConfig)
        → (last_path "" flags =ₛ "") ≡ false
        → asked is_check_host false flags ≡ true
        → load_config yaml (last_path "" flags) ≡ parsed config
        → (main sdk yaml around name (spelled flags)).code ≡ sdk.exit_code (check_host sdk config)
    checked_code flags config path host e =
        ap (λ x. x.code) (main-spelled flags path)
        ∙ run_options_checked (options_of flags) config host e

    module _ (c : Contracts) {D : Type 0} (fl : Doubles D) {W : Type 0} (t : Transport W)
        (claim_key : String → ℕ → String) (now : Session W → ℕ) (deadline : Option ℕ)
        (s : Session W) where
      -- Whether the start-up on hardware passes its host check, by the exit code of --check-host.
      abbrev pub Foretold : ProviderConfig → ℕ → Type 0
      Foretold config code =
          let started = start_hardware sdk c fl t claim_key now config deadline s in
          ((code ≡ 0) × (started ≡ initialize_hardware c fl t claim_key now config deadline none s))
          ⊎ ((code ≡ 1)
              × (is_mock_mode config ≡ false)
              × (started
                  ≡ published config
                      ("host requirements unmet: " <> summarize_unmet sdk (check_host sdk config))))

      foretold : (config : ProviderConfig) → Foretold config (sdk.exit_code (check_host sdk config))
      unfolding initialize_hardware
      foretold config = elim (laws.zero_or_one (check_host sdk config)) [
        | inl met ↦ inl (met, rw (unmet_for-none config met) refl)
        | inr unmet ↦ inr (
          unmet,
          elim (Bool-cases (is_mock_mode config)) [
            | inl mock ↦ absurd (two_codes (check_host-mock config mock) unmet)
            | inr hardware ↦ hardware
          ],
          rw (unmet_for-some config unmet) refl,
        )
      ]
        where
          two_codes : {n : ℕ} → n ≡ 0 → n ≡ 1 → ⊥
          two_codes zero one = omega arith

      -- Any options on the command line that hold --check-host and end in a path that is not empty: the
      -- program exits with 2 where the configuration does not load, and --config alone then exits with
      -- 1. Otherwise it exits with 0 where the start-up on hardware with that configuration passes its
      -- host check, or with 1 where that start-up publishes the unmet requirements and nothing else,
      -- which no configuration in mock mode does.
      pub check_host-foretells :
          (flags : List (Flag × String))
          → (last_path "" flags =ₛ "") ≡ false
          → asked is_check_host false flags ≡ true
          → let path = last_path "" flags in
            let exit = main sdk yaml around name (spelled flags) in
            let plain = main sdk yaml around name (spelled ((Flag.flag_config, path) ∷ [])) in
            ((what : String) × (load_config yaml path ≡ throws what)
              × (exit.code ≡ 2)
              × (plain.code ≡ 1))
            ⊎ ((config : ProviderConfig) × (load_config yaml path ≡ parsed config)
                × Foretold config exit.code)
      check_host-foretells flags path host =
          let last = last_path "" flags in
          elim (Parsed-cases (load_config yaml last)) [
            | inl (what, e) ↦ inl (
              what,
              e,
              rejected_code flags what path e ∙ ap (λ b. if b then 2 else 1) host,
              rejected_code ((Flag.flag_config, last) ∷ []) what path e,
            )
            | inr (config, e) ↦
                inr (config, e, rw (checked_code flags config path host e) (foretold config))
          ]
