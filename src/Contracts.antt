-- ===== src/Contracts.antt =====
-- What the provider uses of the CRUMBS library and of bread-crumbs-contracts, whose headers are not
-- in this repository: opcodes, flags and type ids as numbers, parsers and checks as functions. A
-- parser that returns nonzero in C returns `none` here, and a check that returns 0 is `true`.
use anolis_provider_bread.Base.{ℕ, ℤ, Bool, List, Option}
use anolis_provider_bread.Frames.{RawFrame}

-- The GET_ACK record: [counter][opcode][status][reason].
pub record Ack : Type 0 where
  pub counter : ℕ
  pub opcode : ℕ
  pub status : ℕ
  pub reason : ℕ

-- The values of crumbs_ack_classify that the provider tells apart; `other` is its default case.
pub data AckOutcome : Type 0 where
  set_applied set_refused set_rejected set_not_advanced ack_mismatch ack_unknown other : AckOutcome

pub record Crumbs : Type 0 where
  pub cmd_get_ack : ℕ
  pub ack_min_version : ℕ
  pub ack_read_attempts : ℕ
  pub ack_reject_no_handler : ℕ
  pub ack_reject_type : ℕ
  pub ack_decode : RawFrame → Option Ack
  pub ack_classify : Ack → Ack → ℕ → AckOutcome
  pub version : ℕ

pub record WatchdogResult : Type 0 where
  pub armed : ℕ
  pub timeout_ms : ℕ
  pub tripped : ℕ
  pub trip_count : ℕ

pub record CapsResult : Type 0 where
  pub schema : ℕ
  pub level : ℕ
  pub flags : ℕ

pub record VersionResult : Type 0 where
  pub crumbs_version : ℕ
  pub module_major : ℕ
  pub module_minor : ℕ
  pub module_patch : ℕ

pub record Bread : Type 0 where
  pub op_set_watchdog : ℕ
  pub op_get_watchdog : ℕ
  pub op_clear_watchdog_trip : ℕ
  pub op_get_caps : ℕ
  pub caps_schema_v1 : ℕ
  pub watchdog_parse_payload : List ℕ → Option WatchdogResult
  pub caps_parse_payload : List ℕ → Option CapsResult
  pub parse_version : List ℕ → Option VersionResult
  pub check_crumbs_compat : ℕ → Bool
  pub check_module_compat : ℕ → ℕ → ℕ → ℕ → Bool
  -- BREAD_IS_VALID_I16
  pub is_valid_i16 : ℤ → Bool
  pub refuse_estop : ℕ
  pub refuse_watchdog_trip : ℕ
  pub refuse_wrong_mode : ℕ
  pub refuse_malformed : ℕ
  pub refuse_undefined_value : ℕ
  pub refuse_unknown_op : ℕ
  pub refuse_not_built : ℕ

-- rlht_state_result_t
pub record RlhtStateResult : Type 0 where
  pub mode : ℕ
  pub flags : ℕ
  pub t1_deci_c : ℤ
  pub t2_deci_c : ℤ
  pub sp1_deci_c : ℤ
  pub sp2_deci_c : ℤ
  pub period1_ms : ℕ
  pub period2_ms : ℕ
  pub on1_ms : ℕ
  pub on2_ms : ℕ
  pub tc1 : ℕ
  pub tc2 : ℕ
  pub estop_count : ℕ

pub record RlhtOps : Type 0 where
  pub type_id : ℕ
  pub op_get_state : ℕ
  pub op_set_mode : ℕ
  pub op_set_setpoints : ℕ
  pub op_set_pid : ℕ
  pub op_set_periods : ℕ
  pub op_set_tc_select : ℕ
  pub op_set_open_duty : ℕ
  pub mode_open_loop : ℕ
  pub mode_closed_loop : ℕ
  pub period_min_ms : ℕ
  pub period_max_ms : ℕ
  pub flag_relay1_on : ℕ
  pub flag_relay2_on : ℕ
  pub flag_estop : ℕ
  pub state_off_estop_count : ℕ
  pub parse_state_payload : List ℕ → Option RlhtStateResult
  pub cap_mode_control : ℕ
  pub cap_setpoint_control : ℕ
  pub cap_pid_tuning : ℕ
  pub cap_period_control : ℕ
  pub cap_tc_select : ℕ
  pub cap_open_duty_control : ℕ
  pub cap_cmd_watchdog : ℕ
  pub cap_clear_watchdog_trip : ℕ
  pub cap_estop_count : ℕ
  pub cap_refuses : ℕ
  pub cap_level_1 : ℕ
  pub cap_baseline_flags : ℕ
  pub module_ver_major : ℕ
  pub module_ver_minor : ℕ
  pub module_ver_patch : ℕ

-- dcmt_state_result_t
pub record DcmtStateResult : Type 0 where
  pub mode : ℕ
  pub m1_pwm : ℤ
  pub m2_pwm : ℤ
  pub sp1 : ℤ
  pub sp2 : ℤ
  pub pos1 : ℤ
  pub pos2 : ℤ
  pub spd1 : ℤ
  pub spd2 : ℤ
  pub brakes : ℕ
  pub estop : ℕ
  pub estop_count : ℕ

-- dcmt_set_pid_t
pub record DcmtSetPid : Type 0 where
  pub loop : ℕ
  pub kp1_x1000 : ℕ
  pub ki1_x1000 : ℕ
  pub kd1_x1000 : ℕ
  pub kp2_x1000 : ℕ
  pub ki2_x1000 : ℕ
  pub kd2_x1000 : ℕ

pub record DcmtOps : Type 0 where
  pub type_id : ℕ
  pub op_get_state : ℕ
  pub op_set_open_loop : ℕ
  pub op_set_brake : ℕ
  pub op_set_mode : ℕ
  pub op_set_setpoint : ℕ
  pub op_set_pid : ℕ
  pub mode_open_loop : ℕ
  pub mode_closed_position : ℕ
  pub mode_closed_speed : ℕ
  pub pid_loop_position : ℕ
  pub pid_loop_speed : ℕ
  pub parse_state_payload : List ℕ → Option DcmtStateResult
  -- The payload that dcmt_set_pid_pack leaves in a fresh message.
  pub set_pid_pack : DcmtSetPid → List ℕ
  pub cap_open_loop_control : ℕ
  pub cap_brake_control : ℕ
  pub cap_closed_loop_position : ℕ
  pub cap_closed_loop_speed : ℕ
  pub cap_pid_tuning : ℕ
  pub cap_cmd_watchdog : ℕ
  pub cap_clear_watchdog_trip : ℕ
  pub cap_refuses : ℕ
  pub cap_level_1 : ℕ
  pub cap_level_3 : ℕ
  pub cap_baseline_flags : ℕ
  pub module_ver_major : ℕ
  pub module_ver_minor : ℕ
  pub module_ver_patch : ℕ

pub record Contracts : Type 0 where
  pub crumbs : Crumbs
  pub bread : Bread
  pub rlht : RlhtOps
  pub dcmt : DcmtOps

-- IEEE doubles, with the operations that the adapters use.
pub record Doubles (D : Type 0) : Type 0 where
  pub of_int : ℤ → D
  pub mul : D → D → D
  pub div : D → D → D
  pub lt : D → D → Bool
  pub is_finite : D → Bool
  pub llround : D → ℤ
