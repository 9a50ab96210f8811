-- ===== src/Tests.antt =====
-- A concrete set of contracts, a transport and a session interface, with the devices and
-- configurations on which the tests run.
pub mod SessionRuns
pub mod CommandRuns
pub mod StartupRuns
pub mod SampleBus
pub mod BusRuns
pub mod ReportRuns
pub mod ProgramRuns
use anolis_provider_bread.Base.{
  ℕ, suc, ◌+◌, ℤ, pos, ltb_ℤ, String, ◌<>◌, Bool, true, false, List, [], ◌∷◌, Option, none, some,
  leb, ◌==◌, if◌then◌else◌, length, Act,
}
use anolis_provider_bread.Base.Text.{to_hex}
use anolis_provider_bread.Frames.{SessionStatus, success, RawFrame, SessionOptions}
use anolis_provider_bread.Transport.{Transport}
use anolis_provider_bread.Session.State.{zero_stats}
use anolis_provider_bread.SessionApi.{SessionApi}
use anolis_provider_bread.Contracts.{
  Contracts, Crumbs, Bread, RlhtOps, DcmtOps, Doubles, Ack, AckOutcome,
}
use anolis_provider_bread.Config.{
  DeviceType, DiscoveryMode, OutputsOnStartup, DeviceSpec, ProviderConfig,
}
use anolis_provider_bread.Inventory.Capabilities.{add_function}
use anolis_provider_bread.Devices.{
  Category, CapabilityProfile, CapabilitySource, InventorySource, InventoryDevice, ModuleVersion,
}

-- A record whose counter is the first byte.
abbrev pub sample_ack : List ℕ → Option Ack
sample_ack (n ∷ rest) = some (record { counter = n; opcode = 1; status = 0; reason = 0 })
sample_ack [] = none

abbrev pub sample_classify : Ack → Ack → ℕ → AckOutcome
sample_classify before after opcode =
    if after.counter == before.counter + 1
    then AckOutcome.set_applied
    else AckOutcome.set_not_advanced

abbrev pub sample_contracts : Contracts
sample_contracts = record {
  crumbs = record {
    cmd_get_ack = 253;
    ack_min_version = 1600;
    ack_read_attempts = 3;
    ack_reject_no_handler = 1;
    ack_reject_type = 2;
    ack_decode = λ frame. sample_ack frame.payload;
    ack_classify = sample_classify;
    version = 1600;
  };
  bread = record {
    op_set_watchdog = 112;
    op_get_watchdog = 113;
    op_clear_watchdog_trip = 114;
    op_get_caps = 127;
    caps_schema_v1 = 1;
    watchdog_parse_payload = λ payload. none;
    caps_parse_payload = λ payload. none;
    parse_version = λ payload. none;
    check_crumbs_compat = λ version. leb 1600 version;
    check_module_compat = λ major minor expected expected_minor. major == expected;
    is_valid_i16 = λ z. true;
    refuse_estop = 16;
    refuse_watchdog_trip = 17;
    refuse_wrong_mode = 18;
    refuse_malformed = 19;
    refuse_undefined_value = 20;
    refuse_unknown_op = 21;
    refuse_not_built = 22;
  };
  rlht = record {
    type_id = 1;
    op_get_state = 128;
    op_set_mode = 1;
    op_set_setpoints = 2;
    op_set_pid = 3;
    op_set_periods = 4;
    op_set_tc_select = 5;
    op_set_open_duty = 6;
    mode_open_loop = 1;
    mode_closed_loop = 0;
    period_min_ms = 100;
    period_max_ms = 60000;
    flag_relay1_on = 1;
    flag_relay2_on = 2;
    flag_estop = 4;
    state_off_estop_count = 24;
    parse_state_payload = λ payload. none;
    cap_mode_control = 1;
    cap_setpoint_control = 2;
    cap_pid_tuning = 4;
    cap_period_control = 8;
    cap_tc_select = 16;
    cap_open_duty_control = 32;
    cap_cmd_watchdog = 64;
    cap_clear_watchdog_trip = 128;
    cap_estop_count = 256;
    cap_refuses = 512;
    cap_level_1 = 1;
    cap_baseline_flags = 63;
    module_ver_major = 2;
    module_ver_minor = 0;
    module_ver_patch = 0;
  };
  dcmt = record {
    type_id = 2;
    op_get_state = 128;
    op_set_open_loop = 1;
    op_set_brake = 2;
    op_set_mode = 3;
    op_set_setpoint = 4;
    op_set_pid = 5;
    mode_open_loop = 0;
    mode_closed_position = 1;
    mode_closed_speed = 2;
    pid_loop_position = 0;
    pid_loop_speed = 1;
    parse_state_payload = λ payload. some (record {
      mode = 0;
      m1_pwm = pos 0;
      m2_pwm = pos 0;
      sp1 = pos 0;
      sp2 = pos 0;
      pos1 = pos 0;
      pos2 = pos 0;
      spd1 = pos 0;
      spd2 = pos 0;
      brakes = 1;
      estop = 0;
      estop_count = 0;
    });
    set_pid_pack = λ pid. pid.loop ∷ pid.kp1_x1000 ∷ [];
    cap_open_loop_control = 1;
    cap_brake_control = 2;
    cap_closed_loop_position = 4;
    cap_closed_loop_speed = 8;
    cap_pid_tuning = 16;
    cap_cmd_watchdog = 32;
    cap_clear_watchdog_trip = 64;
    cap_refuses = 128;
    cap_level_1 = 1;
    cap_level_3 = 3;
    cap_baseline_flags = 7;
    module_ver_major = 2;
    module_ver_minor = 0;
    module_ver_patch = 0;
  };
}

-- Numbers counted in tenths: the adapters multiply and divide by ten only.
abbrev pub tenths : Doubles ℤ
tenths = record {
  of_int = λ z. z;
  mul = λ a b. a;
  div = λ a b. a;
  lt = ltb_ℤ;
  is_finite = λ a. true;
  llround = λ a. a;
}

-- A bus on which every operation succeeds; its world counts the frames sent.
abbrev pub sample_transport : Transport ℕ
sample_transport = record {
  open_bus = λ options w. (success, w);
  close = λ w. w;
  is_open = λ w. true;
  scan = λ options out w. ((success, out), w);
  send = λ address frame w. (success, suc w);
  read = λ address frame timeout w.
      ((success, record { type_id = 2; opcode = 128; payload = w ∷ [] }), w);
  delay_us = λ us w. w;
  system_now = λ w. (w, w);
  etimedout = pos 110;
}

-- One device that counts the commands it applies, and answers every query with the count.
abbrev pub sample_api : SessionApi ℕ
sample_api = record {
  scan = λ options out s. ((success, out), s);
  send = λ address frame s. (success, suc s);
  query_read = λ address opcode out s.
      ((success, record { type_id = 2; opcode = opcode; payload = s ∷ [] }), s);
  stats_for = λ address s. zero_stats;
  record_rejection = λ address s. s;
  take_recovery = λ address s. (true, s);
  last_op_failed = λ address s. false;
}

abbrev pub sample_options : SessionOptions
sample_options = record {
  bus_path = "/dev/i2c-1";
  query_delay_us = 10000;
  timeout_ms = 100;
  retry_count = pos 2;
}

-- A DCMT of CRUMBS 1600 that acknowledges, with a watchdog of 2 s and one function.
abbrev pub sample_device : InventoryDevice
sample_device = record {
  descriptor = record {
    device_id = "motors";
    provider_name = "anolis-provider-bread";
    label = "Motors";
    address = "0x20";
    type_id = "bread.dcmt";
    type_version = "2";
    claims = [];
    tags = [];
  };
  capabilities = record {
    functions = add_function 1 "set_open_loop" Category.cat_actuate [] ∷ [];
    signals = [];
  };
  type = DeviceType.dcmt;
  address = 32;
  source = InventorySource.discovered;
  expected = true;
  version = record { crumbs_version = 1600; module_major = 2; module_minor = 0; module_patch = 0 };
  capability_profile = record {
    schema = 1;
    level = 3;
    flags = 255;
    source = CapabilitySource.queried;
  };
  command_watchdog_ms = 2000;
  encoders = true;
}

abbrev pub sample_spec : DeviceSpec
sample_spec = record {
  id = "motors";
  type = DeviceType.dcmt;
  label = "";
  address = 32;
  command_watchdog_ms = 2000;
  encoders = true;
}

abbrev pub sample_config : ProviderConfig
sample_config = record {
  config_file_path = "provider.yaml";
  provider_name = "bread0";
  outputs_on_startup = OutputsOnStartup.safe;
  bus_path = "/dev/i2c-1";
  query_delay_us = 10000;
  timeout_ms = 100;
  retry_count = pos 2;
  max_bus_hz = none;
  discovery_mode = DiscoveryMode.manual;
  manual_addresses = 32 ∷ [];
  devices = sample_spec ∷ [];
}

abbrev pub sample_claim : String → ℕ → String
sample_claim bus address = bus <> ":" <> to_hex 2 address

abbrev pub command_frame : List ℕ → RawFrame
command_frame payload = record { type_id = 2; opcode = 1; payload = payload }
