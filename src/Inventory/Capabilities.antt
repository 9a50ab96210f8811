-- ===== src/Inventory/Capabilities.antt =====
-- The capability tables of src/devices/common/inventory.cpp: the functions and signals that a device
-- offers for its capability flags. The descriptions, the common `accepted` result and the polling
-- hints, the same for every entry, are left out.
use anolis_provider_bread.Base.{
  ℕ, pos, negsuc, int16_min, int16_max, String, Bool, true, not, ◌&&◌, List, [], ◌∷◌, ◌++◌, ◌==◌,
  bit_and, bit_or, push_if, map,
}
use anolis_provider_bread.Contracts.{Contracts}
use anolis_provider_bread.Config.{DeviceType}
use anolis_provider_bread.Devices.{
  ValueType, Category, Bounds, unbounded, int64_bounds, uint64_bounds, tenths_bounds, ArgSpec,
  FunctionSpec, SignalSpec, CapabilitySet,
}
use anolis_provider_bread.Rlht.Frame.{thermocouple_min, thermocouple_max}

-- A required argument with its range and unit.
abbrev pub add_arg : String → ValueType → String → Bounds → ArgSpec
add_arg name type unit bounds = record {
  name = name;
  type = type;
  required = true;
  unit = unit;
  allowed_values = [];
  bounds = bounds;
}

abbrev pub mode_arg : List String → ArgSpec
mode_arg allowed = record {
  name = "mode";
  type = ValueType.vt_string;
  required = true;
  unit = "";
  allowed_values = allowed;
  bounds = unbounded;
}

abbrev pub add_function : ℕ → String → Category → List ArgSpec → FunctionSpec
add_function function_id name category args = record {
  function_id = function_id;
  name = name;
  category = category;
  args = args;
}

abbrev pub add_signal : String → ValueType → String → SignalSpec
add_signal signal_id type unit = record { signal_id = signal_id; value_type = type; unit = unit }

abbrev pub uint_args : List String → String → Bounds → List ArgSpec
uint_args names unit bounds = map (λ name. add_arg name ValueType.vt_uint64 unit bounds) names

abbrev pub int_args : List String → Bounds → List ArgSpec
int_args names bounds = map (λ name. add_arg name ValueType.vt_int64 "" bounds) names

-- A flag that a device advertises.
abbrev pub advertises : ℕ → ℕ → Bool
advertises flags flag = not (bit_and flags flag == 0)

abbrev pub clear_function : ℕ → FunctionSpec
clear_function function_id = add_function function_id "clear_watchdog_trip" Category.cat_config []

abbrev rlht_signals : List SignalSpec
rlht_signals =
    add_signal "mode" ValueType.vt_string ""
    ∷ add_signal "t1_c" ValueType.vt_double "C"
    ∷ add_signal "t2_c" ValueType.vt_double "C"
    ∷ add_signal "setpoint1_c" ValueType.vt_double "C"
    ∷ add_signal "setpoint2_c" ValueType.vt_double "C"
    ∷ add_signal "period1_ms" ValueType.vt_uint64 "ms"
    ∷ add_signal "period2_ms" ValueType.vt_uint64 "ms"
    ∷ add_signal "on1_ms" ValueType.vt_uint64 "ms"
    ∷ add_signal "on2_ms" ValueType.vt_uint64 "ms"
    ∷ add_signal "channel1_thermocouple" ValueType.vt_uint64 ""
    ∷ add_signal "channel2_thermocouple" ValueType.vt_uint64 ""
    ∷ add_signal "relay1_on" ValueType.vt_bool ""
    ∷ add_signal "relay2_on" ValueType.vt_bool ""
    ∷ add_signal "estop" ValueType.vt_bool ""
    ∷ []

abbrev dcmt_signals : List SignalSpec
dcmt_signals =
    add_signal "mode" ValueType.vt_string ""
    ∷ add_signal "motor1_target" ValueType.vt_int64 ""
    ∷ add_signal "motor2_target" ValueType.vt_int64 ""
    ∷ add_signal "motor1_value" ValueType.vt_int64 ""
    ∷ add_signal "motor2_value" ValueType.vt_int64 ""
    ∷ add_signal "motor1_brake" ValueType.vt_bool ""
    ∷ add_signal "motor2_brake" ValueType.vt_bool ""
    ∷ add_signal "estop" ValueType.vt_bool ""
    ∷ add_signal "estop_count" ValueType.vt_uint64 ""
    ∷ []

module _ (c : Contracts) where
  open c use {rlht, dcmt}

  unfoldable pub build_rlht_functions : ℕ → List FunctionSpec
  build_rlht_functions flags =
      push_if (advertises flags rlht.cap_mode_control)
        (add_function 1 "set_mode" Category.cat_config
          (mode_arg ("closed_loop" ∷ "open_loop" ∷ []) ∷ []))
        (push_if (advertises flags rlht.cap_setpoint_control)
          (add_function 2 "set_setpoints" Category.cat_config (
            map
              (λ name.
                add_arg name ValueType.vt_double "C" (tenths_bounds (negsuc 32767) (pos 32767)))
              ("setpoint1_c" ∷ "setpoint2_c" ∷ [])))
          (push_if (advertises flags rlht.cap_pid_tuning)
            (add_function 3 "set_pid_x10" Category.cat_config (
              uint_args ("kp1_x10" ∷ "ki1_x10" ∷ "kd1_x10" ∷ "kp2_x10" ∷ "ki2_x10" ∷ "kd2_x10" ∷ [])
                "" (uint64_bounds 0 255)))
            (push_if (advertises flags rlht.cap_period_control)
              (add_function 4 "set_periods_ms" Category.cat_config (
                uint_args ("period1_ms" ∷ "period2_ms" ∷ []) "ms"
                  (uint64_bounds rlht.period_min_ms rlht.period_max_ms)))
              (push_if (advertises flags rlht.cap_tc_select)
                (add_function 5 "set_tc_select" Category.cat_config (
                  uint_args ("channel1_thermocouple" ∷ "channel2_thermocouple" ∷ []) ""
                    (uint64_bounds thermocouple_min thermocouple_max)))
                (push_if (advertises flags rlht.cap_open_duty_control)
                  (add_function 6 "set_open_duty_pct" Category.cat_actuate
                    (uint_args ("duty1_pct" ∷ "duty2_pct" ∷ []) "%" (uint64_bounds 0 100)))
                  (push_if
                    (advertises flags rlht.cap_cmd_watchdog
                      && advertises flags rlht.cap_clear_watchdog_trip)
                    (clear_function 7) []))))))

  unfoldable pub build_rlht_capabilities : ℕ → CapabilitySet
  build_rlht_capabilities flags = record {
    functions = build_rlht_functions flags;
    signals =
        rlht_signals
        ++ push_if (advertises flags rlht.cap_estop_count)
            (add_signal "estop_count" ValueType.vt_uint64 "") [];
  }

  unfoldable pub add_dcmt_pid_function : ℕ → String → FunctionSpec
  add_dcmt_pid_function function_id name = add_function function_id name Category.cat_config (
      uint_args
        ("kp1_x1000" ∷ "ki1_x1000" ∷ "kd1_x1000" ∷ "kp2_x1000" ∷ "ki2_x1000" ∷ "kd2_x1000" ∷ []) ""
        (uint64_bounds 0 65535))

  unfoldable pub dcmt_modes : ℕ → List String
  dcmt_modes flags =
      "open_loop"
      ∷ push_if (advertises flags dcmt.cap_closed_loop_position) "closed_position"
          (push_if (advertises flags dcmt.cap_closed_loop_speed) "closed_speed" [])

  unfoldable pub build_dcmt_functions : ℕ → List FunctionSpec
  build_dcmt_functions flags =
      push_if (advertises flags dcmt.cap_open_loop_control)
        (add_function 1 "set_open_loop" Category.cat_actuate
          (int_args ("motor1_pwm" ∷ "motor2_pwm" ∷ []) (int64_bounds (negsuc 254) (pos 255))))
        (push_if (advertises flags dcmt.cap_brake_control)
          (add_function 2 "set_brake" Category.cat_actuate (
            map (λ name. add_arg name ValueType.vt_bool "" unbounded)
              ("motor1_brake" ∷ "motor2_brake" ∷ [])))
          (push_if
            (advertises flags (
              bit_or (bit_or dcmt.cap_open_loop_control dcmt.cap_closed_loop_position)
                dcmt.cap_closed_loop_speed))
            (add_function 3 "set_mode" Category.cat_config (mode_arg (dcmt_modes flags) ∷ []))
            (push_if
              (advertises flags (bit_or dcmt.cap_closed_loop_position dcmt.cap_closed_loop_speed))
              (add_function 4 "set_setpoint" Category.cat_config (
                int_args ("motor1_target" ∷ "motor2_target" ∷ [])
                  (int64_bounds int16_min int16_max)))
              (push_if (advertises flags dcmt.cap_pid_tuning)
                (add_dcmt_pid_function 5 "set_pid_x1000")
                (push_if
                  (advertises flags dcmt.cap_pid_tuning
                    && advertises flags dcmt.cap_closed_loop_speed)
                  (add_dcmt_pid_function 7 "set_speed_pid_x1000")
                  (push_if
                    (advertises flags dcmt.cap_cmd_watchdog
                      && advertises flags dcmt.cap_clear_watchdog_trip)
                    (clear_function 6) []))))))

  unfoldable pub build_dcmt_capabilities : ℕ → CapabilitySet
  build_dcmt_capabilities flags = record {
    functions = build_dcmt_functions flags;
    signals = dcmt_signals;
  }

  unfoldable pub build_capabilities : DeviceType → ℕ → CapabilitySet
  build_capabilities DeviceType.rlht flags = build_rlht_capabilities flags
  build_capabilities DeviceType.dcmt flags = build_dcmt_capabilities flags
