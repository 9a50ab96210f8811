-- ===== src/Rlht/Frame.antt =====
-- build_frame of src/devices/rlht/rlht_adapter.cpp: one function for each case of its switch, over the
-- payload so far. It validates and encodes without a session.
use anolis_provider_bread.Base.{
  ℕ, ℤ, pos, int16_min, int16_max, ltb_ℤ, String, ◌=ₛ◌, ◌<>◌, Bool, not, ◌&&◌, ◌||◌, List, ltb,
  ◌==◌, if◌then◌else◌,
}
use anolis_provider_bread.Base.Text.{to_dec}
use anolis_provider_bread.Frames.{RawFrame}
use anolis_provider_bread.Contracts.{Contracts, Doubles}
use anolis_provider_bread.Devices.{StatusCode, AdapterCallResult, ValueMap}
use anolis_provider_bread.AdapterHelpers.{
  append_u8, append_u16_le, append_i16_le, get_arg_double, get_arg_string, get_arg_uint64,
  call_failed, call_done,
}
use anolis_provider_bread.AdapterHelpers.Checked.{
  Checked, refused, checked, ◌>>=◌, ◌>>◌, require, guard, invalid_argument, out_of_range,
}

abbrev pub thermocouple_min : ℕ
thermocouple_min = 1

abbrev pub thermocouple_max : ℕ
thermocouple_max = 2

abbrev pub within : ℕ → ℕ → ℕ → Bool
within lo hi n = not (ltb n lo || ltb hi n)

module _ (c : Contracts) {D : Type 0} (fl : Doubles D) where
  open c use {bread, rlht}

  unfoldable pub set_mode : ValueMap D → List ℕ → Checked (ℕ × List ℕ)
  set_mode args payload = do
    mode ←
        require (get_arg_string args "mode")
          (invalid_argument "missing or invalid arg: mode (string)")
    guard (mode =ₛ "closed_loop" || mode =ₛ "open_loop")
        (invalid_argument "mode must be 'closed_loop' or 'open_loop'")
    checked (
      rlht.op_set_mode,
      append_u8 payload
          (if mode =ₛ "open_loop" then rlht.mode_open_loop else rlht.mode_closed_loop),
    )

  -- INT16_MIN / 10.0 and INT16_MAX / 10.0
  abbrev pub min_setpoint_c : D
  min_setpoint_c = fl.div (fl.of_int int16_min) (fl.of_int (pos 10))

  abbrev pub max_setpoint_c : D
  max_setpoint_c = fl.div (fl.of_int int16_max) (fl.of_int (pos 10))

  abbrev pub deci : D → ℤ
  deci sp = fl.llround (fl.mul sp (fl.of_int (pos 10)))

  abbrev pub outside_i16 : ℤ → Bool
  outside_i16 z = ltb_ℤ z int16_min || ltb_ℤ int16_max z

  unfoldable pub set_setpoints : ValueMap D → List ℕ → Checked (ℕ × List ℕ)
  set_setpoints args payload = do
    sp1 ←
        require (get_arg_double args "setpoint1_c")
          (invalid_argument "missing or invalid arg: setpoint1_c (double)")
    sp2 ←
        require (get_arg_double args "setpoint2_c")
          (invalid_argument "missing or invalid arg: setpoint2_c (double)")
    guard (not (not (fl.is_finite sp1) || not (fl.is_finite sp2)))
        (invalid_argument "setpoint values must be finite (not NaN or +/-Inf)")
    guard
        (not (
          fl.lt sp1 min_setpoint_c
          || (fl.lt max_setpoint_c sp1 || (fl.lt sp2 min_setpoint_c || fl.lt max_setpoint_c sp2))))
        (out_of_range "setpoint values must be in [-3276.8, 3276.7] C")
    guard (not (outside_i16 (deci sp1) || outside_i16 (deci sp2)))
        (invalid_argument "setpoint conversion out of int16 range")
    checked (rlht.op_set_setpoints, append_i16_le (append_i16_le payload (deci sp1)) (deci sp2))

  abbrev pub pid_text : String
  pid_text = "missing or invalid PID gain args (kp1/ki1/kd1/kp2/ki2/kd2_x10, all uint64)"

  unfoldable pub set_pid_x10 : ValueMap D → List ℕ → Checked (ℕ × List ℕ)
  set_pid_x10 args payload = do
    kp1 ← require (get_arg_uint64 args "kp1_x10") (invalid_argument pid_text)
    ki1 ← require (get_arg_uint64 args "ki1_x10") (invalid_argument pid_text)
    kd1 ← require (get_arg_uint64 args "kd1_x10") (invalid_argument pid_text)
    kp2 ← require (get_arg_uint64 args "kp2_x10") (invalid_argument pid_text)
    ki2 ← require (get_arg_uint64 args "ki2_x10") (invalid_argument pid_text)
    kd2 ← require (get_arg_uint64 args "kd2_x10") (invalid_argument pid_text)
    guard
        (not (
          ltb 255 kp1
          || (ltb 255 ki1 || (ltb 255 kd1 || (ltb 255 kp2 || (ltb 255 ki2 || ltb 255 kd2))))))
        (out_of_range "PID gain values must be in [0, 255]")
    checked (
      rlht.op_set_pid,
      append_u8
          (append_u8 (append_u8 (append_u8 (append_u8 (append_u8 payload kp1) ki1) kd1) kp2) ki2)
          kd2,
    )

  unfoldable pub set_periods_ms : ValueMap D → List ℕ → Checked (ℕ × List ℕ)
  set_periods_ms args payload = do
    p1 ←
        require (get_arg_uint64 args "period1_ms")
          (invalid_argument "missing or invalid args: period1_ms, period2_ms (uint64)")
    p2 ←
        require (get_arg_uint64 args "period2_ms")
          (invalid_argument "missing or invalid args: period1_ms, period2_ms (uint64)")
    guard
        (within rlht.period_min_ms rlht.period_max_ms p1
          && within rlht.period_min_ms rlht.period_max_ms p2)
        (out_of_range (
          "period values must be in ["
          <> to_dec rlht.period_min_ms
          <> ", "
          <> to_dec rlht.period_max_ms
          <> "] ms"))
    checked (rlht.op_set_periods, append_u16_le (append_u16_le payload p1) p2)

  unfoldable pub set_tc_select : ValueMap D → List ℕ → Checked (ℕ × List ℕ)
  set_tc_select args payload = do
    tc1 ← require (get_arg_uint64 args "channel1_thermocouple") (
        invalid_argument
          "missing or invalid args: channel1_thermocouple, channel2_thermocouple (uint64)")
    tc2 ← require (get_arg_uint64 args "channel2_thermocouple") (
        invalid_argument
          "missing or invalid args: channel1_thermocouple, channel2_thermocouple (uint64)")
    guard
        (within thermocouple_min thermocouple_max tc1
          && within thermocouple_min thermocouple_max tc2)
        (out_of_range "thermocouple values must be 1 or 2")
    checked (rlht.op_set_tc_select, append_u8 (append_u8 payload tc1) tc2)

  unfoldable pub set_open_duty_pct : ValueMap D → List ℕ → Checked (ℕ × List ℕ)
  set_open_duty_pct args payload = do
    d1 ←
        require (get_arg_uint64 args "duty1_pct")
          (invalid_argument "missing or invalid args: duty1_pct, duty2_pct (uint64)")
    d2 ←
        require (get_arg_uint64 args "duty2_pct")
          (invalid_argument "missing or invalid args: duty1_pct, duty2_pct (uint64)")
    guard (not (ltb 100 d1 || ltb 100 d2)) (out_of_range "duty_pct values must be in [0, 100]")
    checked (rlht.op_set_open_duty, append_u8 (append_u8 payload d1) d2)

  -- The switch over the function id.
  unfoldable pub build_command : ℕ → ValueMap D → List ℕ → Checked (ℕ × List ℕ)
  build_command function_id args payload =
      if function_id == 1
      then set_mode args payload
      else if function_id == 2
      then set_setpoints args payload
      else if function_id == 3
      then set_pid_x10 args payload
      else if function_id == 4
      then set_periods_ms args payload
      else if function_id == 5
      then set_tc_select args payload
      else if function_id == 6
      then set_open_duty_pct args payload
      else if function_id == 7
      then checked (bread.op_clear_watchdog_trip, payload)
      else refused (
          call_failed StatusCode.code_not_found ("unknown RLHT function_id " <> to_dec function_id))

  -- The result and the frame as the call leaves it.
  unfoldable pub build_frame : ℕ → ValueMap D → RawFrame → AdapterCallResult × RawFrame
  build_frame function_id args frame = elim (build_command function_id args frame.payload) [
    | refused r ↦ (r, record frame { type_id = rlht.type_id })
    | checked (opcode, payload) ↦
        (call_done "ok", record { type_id = rlht.type_id; opcode = opcode; payload = payload })
  ]
