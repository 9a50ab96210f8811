-- ===== src/Program/CommandLine.antt =====
-- What a list of options on the command line asks for.
use anolis_provider_bread.Base.{String, Bool, true, false, ◌≡◌, refl, List, [], ◌∷◌, ◌||◌}
use anolis_provider_bread.Program.{Options, use_config, with_value, parse_args}

-- The options that take a path.
pub data Flag : Type 0 where
  flag_check_config flag_check_host flag_config : Flag

abbrev pub flag_text : Flag → String
flag_text Flag.flag_check_config = "--check-config"
flag_text Flag.flag_check_host = "--check-host"
flag_text Flag.flag_config = "--config"

-- The arguments that spell a list of options.
abbrev pub spelled : List (Flag × String) → List String
spelled [] = []
spelled ((flag, path) ∷ flags) = flag_text flag ∷ path ∷ spelled flags

-- The options as a whole: the last path, and whether each check is asked for.
abbrev pub last_path : String → List (Flag × String) → String
last_path path [] = path
last_path path ((_, next) ∷ flags) = last_path next flags

abbrev pub is_check_config : Flag → Bool
is_check_config Flag.flag_check_config = true
is_check_config Flag.flag_check_host = false
is_check_config Flag.flag_config = false

abbrev pub is_check_host : Flag → Bool
is_check_host Flag.flag_check_config = false
is_check_host Flag.flag_check_host = true
is_check_host Flag.flag_config = false

abbrev pub asked : (Flag → Bool) → Bool → List (Flag × String) → Bool
asked test before [] = before
asked test before ((flag, _) ∷ flags) = asked test (test flag || before) flags

-- Reading spelled options gives the last path and the union of the checks, whatever the paths are.
pub parse_args-spelled :
    (flags : List (Flag × String)) (o : Options)
    → parse_args (spelled flags) o
      ≡ use_config (record {
        config_path = last_path o.config_path flags;
        check_config_only = asked is_check_config o.check_config_only flags;
        check_host_only = asked is_check_host o.check_host_only flags;
      })
unfolding parse_args with_value
parse_args-spelled [] o = refl
parse_args-spelled ((Flag.flag_check_config, path) ∷ flags) o =
    parse_args-spelled flags (record o { config_path = path; check_config_only = true })
parse_args-spelled ((Flag.flag_check_host, path) ∷ flags) o =
    parse_args-spelled flags (record o { config_path = path; check_host_only = true })
parse_args-spelled ((Flag.flag_config, path) ∷ flags) o =
    parse_args-spelled flags (record o { config_path = path })
