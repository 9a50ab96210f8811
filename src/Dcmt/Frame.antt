-- ===== src/Dcmt/Frame.antt =====
-- build_frame of src/devices/dcmt/dcmt_adapter.cpp: one function for each case of its switch, over the
-- payload so far. It validates and encodes without a session.
use anolis_provider_bread.Base.{
  ℕ, ◌%◌, ◌^◌, ℤ, pos, negsuc, int16_min, int16_max, ltb_ℤ, String, ◌=ₛ◌, ◌<>◌, Bool, not, ◌&&◌,
  ◌||◌, List, Option, none, some, ltb, ◌==◌, if◌then◌else◌,
}
use anolis_provider_bread.Base.Text.{to_dec}
use anolis_provider_bread.Frames.{RawFrame}
use anolis_provider_bread.Contracts.{Contracts}
use anolis_provider_bread.Devices.{StatusCode, AdapterCallResult, ValueMap}
use anolis_provider_bread.AdapterHelpers.{
  append_u8, append_i16_le, get_arg_bool, get_arg_int64, get_arg_string, get_arg_uint64,
  call_failed, call_done,
}
use anolis_provider_bread.AdapterHelpers.Checked.{
  Checked, refused, checked, ◌>>=◌, ◌>>◌, require, guard, invalid_argument, out_of_range,
}

-- The test that a value is in [lo, hi].
abbrev pub between : ℤ → ℤ → ℤ → Bool
between lo hi z = not (ltb_ℤ z lo || ltb_ℤ hi z)

abbrev pub pwm_min : ℤ
pwm_min = negsuc 254

abbrev pub pwm_max : ℤ
pwm_max = pos 255

abbrev flag_byte : Bool → ℕ
flag_byte b = if b then 1 else 0

abbrev pub pid_text : String
pid_text = "missing or invalid PID gain args (kp1/ki1/kd1/kp2/ki2/kd2_x1000, all uint64)"

abbrev over_u16 : ℕ → Bool
over_u16 n = ltb 65535 n

module _ (c : Contracts) where
  open c use {dcmt}

  -- The mode byte of a mode's name.
  unfoldable pub mode_byte : String → Option ℕ
  mode_byte mode =
      if mode =ₛ "open_loop"
      then some dcmt.mode_open_loop
      else if mode =ₛ "closed_position"
      then some dcmt.mode_closed_position
      else if mode =ₛ "closed_speed"
      then some dcmt.mode_closed_speed
      else none

module _ (c : Contracts) {D : Type 0} where
  open c use {bread, dcmt}

  unfoldable pub set_open_loop : ValueMap D → List ℕ → Checked (ℕ × List ℕ)
  set_open_loop args payload = do
    m1 ←
        require (get_arg_int64 args "motor1_pwm")
          (invalid_argument "missing or invalid arg: motor1_pwm (int64)")
    m2 ←
        require (get_arg_int64 args "motor2_pwm")
          (invalid_argument "missing or invalid arg: motor2_pwm (int64)")
    guard (between pwm_min pwm_max m1 && between pwm_min pwm_max m2)
        (out_of_range "motor PWM values must be in [-255, 255]")
    checked (dcmt.op_set_open_loop, append_i16_le (append_i16_le payload m1) m2)

  unfoldable pub set_brake : ValueMap D → List ℕ → Checked (ℕ × List ℕ)
  set_brake args payload = do
    b1 ←
        require (get_arg_bool args "motor1_brake")
          (invalid_argument "missing or invalid arg: motor1_brake (bool)")
    b2 ←
        require (get_arg_bool args "motor2_brake")
          (invalid_argument "missing or invalid arg: motor2_brake (bool)")
    checked (dcmt.op_set_brake, append_u8 (append_u8 payload (flag_byte b1)) (flag_byte b2))

  unfoldable pub set_mode : ValueMap D → List ℕ → Checked (ℕ × List ℕ)
  set_mode args payload = do
    mode ←
        require (get_arg_string args "mode")
          (invalid_argument "missing or invalid arg: mode (string)")
    byte ←
        require (mode_byte c mode)
          (invalid_argument "mode must be 'open_loop', 'closed_position', or 'closed_speed'")
    checked (dcmt.op_set_mode, append_u8 payload byte)

  unfoldable pub set_setpoint : ValueMap D → List ℕ → Checked (ℕ × List ℕ)
  set_setpoint args payload = do
    t1 ←
        require (get_arg_int64 args "motor1_target")
          (invalid_argument "missing or invalid arg: motor1_target (int64)")
    t2 ←
        require (get_arg_int64 args "motor2_target")
          (invalid_argument "missing or invalid arg: motor2_target (int64)")
    guard (between int16_min int16_max t1 && between int16_min int16_max t2)
        (out_of_range "motor target values must be in [-32768, 32767]")
    checked (dcmt.op_set_setpoint, append_i16_le (append_i16_le payload t1) t2)

  unfoldable pub set_pid_x1000 : ℕ → ValueMap D → Checked (ℕ × List ℕ)
  set_pid_x1000 function_id args = do
    kp1 ← require (get_arg_uint64 args "kp1_x1000") (invalid_argument pid_text)
    ki1 ← require (get_arg_uint64 args "ki1_x1000") (invalid_argument pid_text)
    kd1 ← require (get_arg_uint64 args "kd1_x1000") (invalid_argument pid_text)
    kp2 ← require (get_arg_uint64 args "kp2_x1000") (invalid_argument pid_text)
    ki2 ← require (get_arg_uint64 args "ki2_x1000") (invalid_argument pid_text)
    kd2 ← require (get_arg_uint64 args "kd2_x1000") (invalid_argument pid_text)
    guard
        (not (
          over_u16 kp1
          || (over_u16 ki1 || (over_u16 kd1 || (over_u16 kp2 || (over_u16 ki2 || over_u16 kd2))))))
        (out_of_range "PID gain values must be in [0, 65535]")
    checked (
      dcmt.op_set_pid,
      dcmt.set_pid_pack (record {
        loop = if function_id == 5 then dcmt.pid_loop_position else dcmt.pid_loop_speed;
        kp1_x1000 = kp1 % 2 ^ 16;
        ki1_x1000 = ki1 % 2 ^ 16;
        kd1_x1000 = kd1 % 2 ^ 16;
        kp2_x1000 = kp2 % 2 ^ 16;
        ki2_x1000 = ki2 % 2 ^ 16;
        kd2_x1000 = kd2 % 2 ^ 16;
      }),
    )

  -- The switch over the function id.
  unfoldable pub build_command : ℕ → ValueMap D → List ℕ → Checked (ℕ × List ℕ)
  build_command function_id args payload =
      if function_id == 1
      then set_open_loop args payload
      else if function_id == 2
      then set_brake args payload
      else if function_id == 3
      then set_mode args payload
      else if function_id == 4
      then set_setpoint args payload
      else if function_id == 5 || function_id == 7
      then set_pid_x1000 function_id args
      else if function_id == 6
      then checked (bread.op_clear_watchdog_trip, payload)
      else refused (
          call_failed StatusCode.code_not_found ("unknown DCMT function_id " <> to_dec function_id))

  -- The result and the frame as the call leaves it.
  unfoldable pub build_frame : ℕ → ValueMap D → RawFrame → AdapterCallResult × RawFrame
  build_frame function_id args frame = elim (build_command function_id args frame.payload) [
    | refused r ↦ (r, record frame { type_id = dcmt.type_id })
    | checked (opcode, payload) ↦
        (call_done "ok", record { type_id = dcmt.type_id; opcode = opcode; payload = payload })
  ]
