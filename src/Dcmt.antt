-- ===== src/Dcmt.antt =====
-- src/devices/dcmt/dcmt_adapter.cpp: DCMT signals and control calls. The proofs are in the modules
-- below.
pub mod Frame
pub mod Commands
pub mod Refusals
pub mod Brakes
use anolis_provider_bread.Base.{
  ℕ, ◌%◌, ◌^◌, ℤ, pos, eq_ℤ, String, ◌=ₛ◌, ◌<>◌, Bool, true, false, not, ◌&&◌, ◌||◌, List, [], ◌∷◌,
  Option, none, some, ltb, ◌==◌, if◌then◌else◌, bit_and, push_if, any, is_empty, length, Act,
}
use anolis_provider_bread.Frames.{SessionStatus, is_ok, RawFrame, empty_frame}
use anolis_provider_bread.SessionApi.{SessionApi}
use anolis_provider_bread.Contracts.{Contracts, DcmtStateResult}
use anolis_provider_bread.Devices.{
  InventoryDevice, StatusCode, AdapterCallResult, AdapterReadResult, Value, bool_val, int64_val,
  uint64_val, string_val, ValueMap, Quality, SignalValue, SafeOutputStep,
}
use anolis_provider_bread.AdapterHelpers.{
  read_i16_le, make_signal_value, read_error_from_session, call_failed,
}
use anolis_provider_bread.SetConfirm.{transmit_confirmed}
use Frame.{build_frame}

pub record DcmtState : Type 0 where
  pub mode : ℕ
  pub target1 : ℤ
  pub target2 : ℤ
  pub value1 : ℤ
  pub value2 : ℤ
  pub brakes : ℕ
  pub estop : ℕ
  pub estop_count : ℕ

abbrev pub is_default_signal : String → Bool
is_default_signal id =
    id =ₛ "motor1_value" || (id =ₛ "motor2_value" || (id =ₛ "motor1_brake" || id =ₛ "motor2_brake"))

unfoldable pub should_include : List String → String → Bool
should_include ids id = if is_empty ids then is_default_signal id else any (λ req. req =ₛ id) ids

-- Whether a motor, 1 or 2, is braked.
unfoldable pub is_braked : ℕ → ℕ → Bool
is_braked brakes motor = not (bit_and brakes (if motor == 1 then 1 else 2) == 0)

-- The first motor that a command would not move, because its brake is engaged.
unfoldable pub stalled_motor : ℤ × ℤ → ℕ → Option ℕ
stalled_motor (command1, command2) brakes =
    if not (eq_ℤ command1 (pos 0)) && is_braked brakes 1
    then some 1
    else if not (eq_ℤ command2 (pos 0)) && is_braked brakes 2
    then some 2
    else none

abbrev pub motor_name : ℕ → String
motor_name motor = if motor == 1 then "motor1" else "motor2"

abbrev pub brake_refusal : ℕ → AdapterCallResult
brake_refusal motor = call_failed StatusCode.code_failed_precondition (
    motor_name motor
    <> " brake is engaged, so the command would not move it; release it first with set_brake ("
    <> motor_name motor
    <> "_brake: false)")

abbrev pub encoders_refusal : AdapterCallResult
encoders_refusal =
    call_failed StatusCode.code_invalid_argument
      "closed-loop modes need encoders; this device is configured with encoders: false"

-- Both commands, where both are read and one is not zero.
unfoldable pub nonzero_commands : Option ℤ → Option ℤ → Option (ℤ × ℤ)
nonzero_commands (some command1) (some command2) =
    if not (eq_ℤ command1 (pos 0)) || not (eq_ℤ command2 (pos 0))
    then some (command1, command2)
    else none
nonzero_commands _ _ = none

module _ (c : Contracts) where
  open c use {bread, dcmt}

  -- The targets and values of a state, by its mode.
  unfoldable pub state_of : DcmtStateResult → Option DcmtState
  state_of raw =
      let surface : ℤ → ℤ → ℤ → ℤ → DcmtState = λ t1 t2 v1 v2. record {
        mode = raw.mode;
        target1 = t1;
        target2 = t2;
        value1 = v1;
        value2 = v2;
        brakes = raw.brakes;
        estop = raw.estop;
        estop_count = raw.estop_count;
      } in
      if raw.mode == dcmt.mode_open_loop
      then some (surface raw.m1_pwm raw.m2_pwm raw.m1_pwm raw.m2_pwm)
      else if raw.mode == dcmt.mode_closed_position
      then if not (bread.is_valid_i16 raw.sp1) || not (bread.is_valid_i16 raw.sp2)
        then none
        else some (surface raw.sp1 raw.sp2 raw.pos1 raw.pos2)
      else if raw.mode == dcmt.mode_closed_speed
      then if not (bread.is_valid_i16 raw.sp1)
          || (not (bread.is_valid_i16 raw.sp2)
              || (not (bread.is_valid_i16 raw.spd1) || not (bread.is_valid_i16 raw.spd2)))
        then none
        else some (surface raw.sp1 raw.sp2 raw.spd1 raw.spd2)
      else none

  unfoldable pub parse_state : List ℕ → Option DcmtState
  parse_state payload =
      if ltb 255 (length payload)
      then none
      else elim (dcmt.parse_state_payload payload) [ none ↦ none | some raw ↦ state_of raw ]

  unfoldable pub mode_to_string : ℕ → String
  mode_to_string mode =
      if mode == dcmt.mode_open_loop
      then "open_loop"
      else if mode == dcmt.mode_closed_position
      then "closed_position"
      else if mode == dcmt.mode_closed_speed
      then "closed_speed"
      else "unknown"

  module _ {D : Type 0} where
    -- The signals of one state, filtered by the request.
    unfoldable pub signals_of : DcmtState → List String → List (SignalValue D)
    signals_of s ids =
        let include = should_include ids in
        let plain : String → Value D → SignalValue D =
          λ id v. make_signal_value id v Quality.quality_ok in
        push_if (include "mode") (plain "mode" (string_val (mode_to_string s.mode))) (
          push_if (include "motor1_target") (plain "motor1_target" (int64_val s.target1)) (
            push_if (include "motor2_target") (plain "motor2_target" (int64_val s.target2)) (
              push_if (include "motor1_value") (plain "motor1_value" (int64_val s.value1)) (
                push_if (include "motor2_value") (plain "motor2_value" (int64_val s.value2)) (
                  push_if (include "motor1_brake")
                    (plain "motor1_brake" (bool_val (is_braked s.brakes 1)))
                    (push_if (include "motor2_brake")
                      (plain "motor2_brake" (bool_val (is_braked s.brakes 2)))
                      (push_if (include "estop") (plain "estop" (bool_val (not (s.estop == 0)))) (
                        push_if (include "estop_count")
                          (plain "estop_count" (uint64_val s.estop_count)) []))))))))

    abbrev pub read_failed : String → AdapterReadResult D
    read_failed message = record {
      ok = false;
      error_code = StatusCode.code_internal;
      error_message = message;
      values = [];
    }

    -- What read_signals makes of a reply, and whether it counts a rejection.
    unfoldable pub decode_reply : RawFrame → List String → Bool × AdapterReadResult D
    decode_reply frame ids =
        if not (frame.type_id == dcmt.type_id) || not (frame.opcode == dcmt.op_get_state)
        then (true, read_failed "unexpected DCMT GET_STATE frame header")
        else elim (parse_state frame.payload) [
          | none ↦ (true, read_failed "DCMT GET_STATE payload too short or malformed")
          | some s ↦ (
            false,
            record {
              ok = true;
              error_code = StatusCode.code_unavailable;
              error_message = "";
              values = signals_of s ids;
            },
          )
        ]

    module _ {S : Type 0} (api : SessionApi S) where
      unfoldable pub read_signals : InventoryDevice → List String → Act S (AdapterReadResult D)
      read_signals device signal_ids s =
          let ((status, frame), s') =
            api.query_read device.address dcmt.op_get_state empty_frame s in
          let (rejected, result) = decode_reply frame signal_ids in
          if is_ok status
          then (result, if rejected then api.record_rejection device.address s' else s')
          else (read_error_from_session status "DCMT GET_STATE", s')

  -- The commands of a frame that moves a motor.
  unfoldable pub motor_commands : RawFrame → Option (ℤ × ℤ)
  motor_commands frame =
      if frame.opcode == dcmt.op_set_open_loop || frame.opcode == dcmt.op_set_setpoint
      then nonzero_commands (read_i16_le frame.payload 0) (read_i16_le frame.payload 2)
      else none

  -- The motor that the state read before a command refuses; `none` also where it cannot be read.
  unfoldable pub refused_motor : ℤ × ℤ → SessionStatus → RawFrame → Option ℕ
  refused_motor commands status frame =
      if is_ok status && (frame.type_id == dcmt.type_id && frame.opcode == dcmt.op_get_state)
      then elim (parse_state frame.payload) [
        | none ↦ none
        | some state ↦ stalled_motor commands state.brakes
      ]
      else none

  -- A closed-loop mode on a device without encoders.
  unfoldable pub needs_encoders : InventoryDevice → RawFrame → Bool
  needs_encoders device frame =
      not device.encoders
      && (frame.opcode == dcmt.op_set_mode && elim frame.payload [
        | [] ↦ false
        | front ∷ _ ↦ not (front == dcmt.mode_open_loop % 2 ^ 8)
      ])

  module _ {S : Type 0} (api : SessionApi S) where
    unfoldable pub brake_check : InventoryDevice → RawFrame → Act S (Option ℕ)
    brake_check device frame s = elim (motor_commands frame) [
      | none ↦ (none, s)
      | some commands ↦
          let ((status, reply), s') =
            api.query_read device.address dcmt.op_get_state empty_frame s in
          (refused_motor commands status reply, s')
    ]

    unfoldable pub transmit : InventoryDevice → RawFrame → Act S AdapterCallResult
    transmit device frame s =
        let (braked, s') = brake_check device frame s in
        elim braked [
          | some motor ↦ (brake_refusal motor, s')
          | none ↦
              if needs_encoders device frame
              then (encoders_refusal, s')
              else transmit_confirmed c api device frame "DCMT SET command" s'
        ]

unfoldable pub safe_output_steps : {D : Type 0} → List (SafeOutputStep D)
safe_output_steps =
    record { function_id = 3; name = "set_mode"; args = ("mode", string_val "open_loop") ∷ [] }
    ∷ record {
      function_id = 1;
      name = "set_open_loop";
      args = ("motor1_pwm", int64_val (pos 0)) ∷ ("motor2_pwm", int64_val (pos 0)) ∷ [];
    }
    ∷ []
