-- ===== src/Rlht.antt =====
-- src/devices/rlht/rlht_adapter.cpp: RLHT signals and control calls. The proofs are in the modules
-- below.
pub mod Frame
pub mod Commands
pub mod Setpoints
use anolis_provider_bread.Base.{
  ℕ, ◌/◌, ◌≤◌, ℤ, pos, String, ◌=ₛ◌, ◌<>◌, Bool, true, false, not, ◌&&◌, ◌||◌, List, [], ◌∷◌, ◌++◌,
  Option, none, some, ltb, leb, ◌==◌, if◌then◌else◌, bit_and, push_if, any, is_empty, length, Act,
}
use anolis_provider_bread.Frames.{SessionStatus, is_ok, RawFrame, empty_frame}
use anolis_provider_bread.SessionApi.{SessionApi}
use anolis_provider_bread.Contracts.{Contracts, Doubles, RlhtStateResult}
use anolis_provider_bread.Devices.{
  InventoryDevice, StatusCode, AdapterCallResult, AdapterReadResult, Value, bool_val, uint64_val,
  double_val, string_val, ValueMap, Quality, SignalValue, SafeOutputStep,
}
use anolis_provider_bread.AdapterHelpers.{make_signal_value, read_error_from_session}
use anolis_provider_bread.SetConfirm.{transmit_confirmed}
use Frame.{build_frame, thermocouple_min, thermocouple_max}

abbrev pub is_default_signal : String → Bool
is_default_signal id = id =ₛ "t1_c" || (id =ₛ "t2_c" || (id =ₛ "relay1_on" || id =ₛ "relay2_on"))

unfoldable pub should_include : List String → String → Bool
should_include ids id = if is_empty ids then is_default_signal id else any (λ req. req =ₛ id) ids

module _ (c : Contracts) where
  open c use {bread, rlht}

  -- parse_state; the field names of the state are those of the contracts parser.
  unfoldable pub parse_state : List ℕ → Option RlhtStateResult
  parse_state payload = if ltb 255 (length payload) then none else rlht.parse_state_payload payload

  unfoldable pub has_estop_count : InventoryDevice → Bool
  has_estop_count device = not (bit_and device.capability_profile.flags rlht.cap_estop_count == 0)

  module _ {D : Type 0} (fl : Doubles D) where
    unfoldable pub deci_c_signal : String → ℤ → SignalValue D
    deci_c_signal id deci_c =
        if bread.is_valid_i16 deci_c
        then make_signal_value id (double_val (fl.div (fl.of_int deci_c) (fl.of_int (pos 10))))
            Quality.quality_ok
        else make_signal_value id (double_val (fl.of_int (pos 0))) Quality.quality_fault

    unfoldable pub thermocouple_signal : String → ℕ → SignalValue D
    thermocouple_signal id select = make_signal_value id (uint64_val select) (
        if ltb select thermocouple_min || ltb thermocouple_max select
        then Quality.quality_fault
        else Quality.quality_ok)

    -- The signals of one state, filtered by the request.
    unfoldable pub signals_of :
        InventoryDevice → RlhtStateResult → List String → List (SignalValue D)
    signals_of device s ids =
        let include = should_include ids in
        let plain : String → Value D → SignalValue D =
          λ id v. make_signal_value id v Quality.quality_ok in
        let flag : ℕ → Value D = λ bit. bool_val (not (bit_and s.flags bit == 0)) in
        push_if (include "mode")
          (plain "mode"
            (string_val (if s.mode == rlht.mode_open_loop then "open_loop" else "closed_loop")))
          (push_if (include "t1_c") (deci_c_signal "t1_c" s.t1_deci_c) (
            push_if (include "t2_c") (deci_c_signal "t2_c" s.t2_deci_c) (
              push_if (include "setpoint1_c") (deci_c_signal "setpoint1_c" s.sp1_deci_c) (
                push_if (include "setpoint2_c") (deci_c_signal "setpoint2_c" s.sp2_deci_c) (
                  push_if (include "period1_ms") (plain "period1_ms" (uint64_val s.period1_ms)) (
                    push_if (include "period2_ms") (plain "period2_ms" (uint64_val s.period2_ms)) (
                      push_if (include "on1_ms") (plain "on1_ms" (uint64_val s.on1_ms)) (
                        push_if (include "on2_ms") (plain "on2_ms" (uint64_val s.on2_ms)) (
                          push_if (include "channel1_thermocouple")
                            (thermocouple_signal "channel1_thermocouple" s.tc1)
                            (push_if (include "channel2_thermocouple")
                              (thermocouple_signal "channel2_thermocouple" s.tc2)
                              (push_if (include "relay1_on")
                                (plain "relay1_on" (flag rlht.flag_relay1_on))
                                (push_if (include "relay2_on")
                                  (plain "relay2_on" (flag rlht.flag_relay2_on))
                                  (push_if (include "estop") (plain "estop" (flag rlht.flag_estop))
                                    (push_if (has_estop_count device && include "estop_count")
                                      (plain "estop_count" (uint64_val s.estop_count))
                                      []))))))))))))))

    abbrev pub read_failed : String → AdapterReadResult D
    read_failed message = record {
      ok = false;
      error_code = StatusCode.code_internal;
      error_message = message;
      values = [];
    }

    -- What read_signals makes of a reply: a rejection with its text, or the result.
    unfoldable pub decode_reply :
        InventoryDevice → RawFrame → List String → Option String × AdapterReadResult D
    decode_reply device frame ids =
        let header : String = "unexpected RLHT GET_STATE frame header" in
        let malformed : String = "RLHT GET_STATE payload too short or malformed" in
        let short : String =
          "RLHT GET_STATE payload lacks estop_count although the device advertises it" in
        if not (frame.type_id == rlht.type_id) || not (frame.opcode == rlht.op_get_state)
        then (some header, read_failed header)
        else elim (parse_state frame.payload) [
          | none ↦ (some malformed, read_failed malformed)
          | some s ↦
              if has_estop_count device && leb (length frame.payload) rlht.state_off_estop_count
              then (some short, read_failed short)
              else (
                none,
                record {
                  ok = true;
                  error_code = StatusCode.code_unavailable;
                  error_message = "";
                  values = signals_of device s ids;
                },
              )
        ]

    module _ {S : Type 0} (api : SessionApi S) where
      abbrev reject_if : Option String → ℕ → S → S
      reject_if none address s = s
      reject_if (some why) address s = api.record_rejection address s

      unfoldable pub read_signals : InventoryDevice → List String → Act S (AdapterReadResult D)
      read_signals device signal_ids s =
          let ((status, frame), s') =
            api.query_read device.address rlht.op_get_state empty_frame s in
          let (rejection, result) = decode_reply device frame signal_ids in
          if is_ok status
          then (result, reject_if rejection device.address s')
          else (read_error_from_session status "RLHT GET_STATE", s')

  module _ {S : Type 0} (api : SessionApi S) where
    unfoldable pub transmit : InventoryDevice → RawFrame → Act S AdapterCallResult
    transmit device frame = transmit_confirmed c api device frame "RLHT SET command"

unfoldable pub safe_output_steps : {D : Type 0} → Doubles D → List (SafeOutputStep D)
safe_output_steps fl =
    record {
      function_id = 2;
      name = "set_setpoints";
      args =
          ("setpoint1_c", double_val (fl.of_int (pos 0)))
          ∷ ("setpoint2_c", double_val (fl.of_int (pos 0)))
          ∷ [];
    }
    ∷ record { function_id = 1; name = "set_mode"; args = ("mode", string_val "open_loop") ∷ [] }
    ∷ record {
      function_id = 6;
      name = "set_open_duty_pct";
      args = ("duty1_pct", uint64_val 0) ∷ ("duty2_pct", uint64_val 0) ∷ [];
    }
    ∷ []
