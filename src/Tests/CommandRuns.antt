-- ===== src/Tests/CommandRuns.antt =====
-- Runs of commands, of their confirmation, and of the watchdog's feeding.
use anolis_provider_bread.Base.{
  ℕ, ◌≤◌, ◌<◌, ℤ, pos, negsuc, true, false, ◌&&◌, ◌⊎◌, inr, ◌≡◌, ◌≢◌, refl, [], ◌∷◌, some, length,
  leb, if◌then◌else◌, arith,
}
use anolis_provider_bread.Frames.{RawFrame, empty_frame}
use anolis_provider_bread.SessionApi.Log.{Sent, logged, asked}
use anolis_provider_bread.Devices.{int64_val, uint64_val, double_val, ValueMap, AdapterCallResult}
use anolis_provider_bread.AdapterHelpers.{
  get_arg_uint64, get_arg_double, get_arg_int64, read_u16_le, read_i16_le,
}
use anolis_provider_bread.AdapterHelpers.Pairs.{Given, NotGiven}
use anolis_provider_bread.SetConfirm.{SetConfirmation, set_confirmation, transmit_confirmed}
use anolis_provider_bread.SetConfirm.Sends.{
  Unconfirmed, NotSent, Confirmed, SameSends, transmit_confirmed-cases, transmit_confirmed_sends,
}
use anolis_provider_bread.Dcmt.{transmit}
use anolis_provider_bread.Dcmt.Brakes.{Stalled, NoEncoders, Passed, transmit-cases}
use anolis_provider_bread.Dcmt.Commands.{TwoWords, pwm_valid, target_valid, motor_commands-encode}
use anolis_provider_bread.Dcmt.Frame as DcmtFrame
use anolis_provider_bread.Rlht.Frame as RlhtFrame
use anolis_provider_bread.Rlht.Commands.{periods_valid, set_periods-encodes}
use anolis_provider_bread.Rlht.Frame.{deci}
use anolis_provider_bread.Rlht.Setpoints.{setpoints_valid, set_setpoints-encodes}
use anolis_provider_bread.Watchdog.{new_watchdog_status, capability_supported, rearm_if_rebooted}
use anolis_provider_bread.Watchdog.Arming.{rearm_if_rebooted-sends}
use anolis_provider_bread.Keepalive.{new_keepalive, Keepalive, contacted, tick}
use anolis_provider_bread.Keepalive.Thread.{Meanwhile}
use anolis_provider_bread.Keepalive.Schedule.{IsScheduled-kept}
use anolis_provider_bread.Keepalive.Due.{IsScheduled, Chosen, tick-Due}
use anolis_provider_bread.Keepalive.Feeds.{due, waits_for, requests, tick-asks}
use anolis_provider_bread.DeviceAdapter.{DeviceAdapter, adapter_for}
use anolis_provider_bread.SafeOutputs.{drive}
use anolis_provider_bread.SafeOutputs.Drives.{after_all, all_ok, drive-all}
use anolis_provider_bread.Tests.{sample_contracts, sample_api, sample_device, tenths, command_frame}

abbrev pwm_frame : RawFrame
pwm_frame = command_frame (10 ∷ 0 ∷ 0 ∷ 0 ∷ [])

abbrev zero_frame : RawFrame
zero_frame = command_frame (0 ∷ 0 ∷ 0 ∷ 0 ∷ [])

abbrev sent_run : AdapterCallResult × (ℕ × Sent)
sent_run =
    transmit_confirmed sample_contracts (logged sample_api) sample_device zero_frame "SET" (4, [])

transmit_confirmed-cases_example :
    Unconfirmed sample_contracts sample_api sample_device zero_frame "SET" 4 sent_run
    ⊎ ((set_confirmation sample_contracts sample_device ≢ SetConfirmation.unconfirmed)
        × (NotSent sample_contracts sample_api sample_device zero_frame "SET" 4 sent_run
            ⊎ Confirmed sample_contracts sample_api sample_device zero_frame "SET" 4 sent_run))
transmit_confirmed-cases_example =
    transmit_confirmed-cases sample_contracts sample_api sample_device zero_frame "SET" 4

transmit_confirmed_sends_example :
    (length sent_run.1.1 ≤ 3) × SameSends (32, zero_frame) sent_run.1.1
transmit_confirmed_sends_example =
    transmit_confirmed_sends sample_contracts sample_api sample_device zero_frame "SET" 4

abbrev braked_run : AdapterCallResult × (ℕ × Sent)
braked_run = transmit sample_contracts (logged sample_api) sample_device pwm_frame (4, [])

transmit-cases_example :
    Stalled sample_contracts sample_api sample_device pwm_frame 4 braked_run
    ⊎ (NoEncoders sample_contracts sample_api sample_device pwm_frame 4 braked_run
        ⊎ Passed sample_contracts sample_api sample_device pwm_frame 4 braked_run)
transmit-cases_example = transmit-cases sample_contracts sample_api sample_device pwm_frame 4

abbrev motor_args : ValueMap ℤ
motor_args =
    ("motor1_pwm", int64_val (pos 255))
    ∷ ("motor2_pwm", int64_val (pos 0))
    ∷ ("motor1_target", int64_val (pos 9000))
    ∷ []

motor_commands-encode_example :
    TwoWords sample_contracts 1
      (get_arg_int64 motor_args "motor1_pwm")
      (get_arg_int64 motor_args "motor2_pwm")
      pwm_valid
      (DcmtFrame.build_frame sample_contracts 1 motor_args empty_frame)
    × TwoWords sample_contracts 4
        (get_arg_int64 motor_args "motor1_target")
        (get_arg_int64 motor_args "motor2_target")
        target_valid
        (DcmtFrame.build_frame sample_contracts 4 motor_args empty_frame)
motor_commands-encode_example = motor_commands-encode sample_contracts motor_args

abbrev heater_args : ValueMap ℤ
heater_args =
    ("period1_ms", uint64_val 1000)
    ∷ ("period2_ms", uint64_val 2000)
    ∷ ("duty1_pct", uint64_val 50)
    ∷ ("duty2_pct", uint64_val 101)
    ∷ []

abbrev setpoint_args : ValueMap ℤ
setpoint_args = ("setpoint1_c", double_val (pos 250)) ∷ ("setpoint2_c", double_val (negsuc 99)) ∷ []

set_setpoints-encodes_example :
    let o = get_arg_double setpoint_args "setpoint1_c" in
    let p = get_arg_double setpoint_args "setpoint2_c" in
    let (result, frame) =
      RlhtFrame.build_frame sample_contracts tenths 2 setpoint_args empty_frame in
    ((result.ok ≡ false) × NotGiven o p (setpoints_valid sample_contracts tenths))
    ⊎ ((result.ok ≡ true)
        × (a b : ℤ) × Given o p (setpoints_valid sample_contracts tenths) a b
        × (frame.type_id ≡ 1)
        × (frame.opcode ≡ 2)
        × (read_i16_le frame.payload 0 ≡ some (deci sample_contracts tenths a))
        × (read_i16_le frame.payload 2 ≡ some (deci sample_contracts tenths b)))
set_setpoints-encodes_example = set_setpoints-encodes sample_contracts tenths setpoint_args

set_periods-encodes_example :
    let o = get_arg_uint64 heater_args "period1_ms" in
    let p = get_arg_uint64 heater_args "period2_ms" in
    let (result, frame) = RlhtFrame.build_frame sample_contracts tenths 4 heater_args empty_frame in
    ((result.ok ≡ false) × NotGiven o p (periods_valid sample_contracts tenths))
    ⊎ ((result.ok ≡ true)
        × (p1 p2 : ℕ) × Given o p (periods_valid sample_contracts tenths) p1 p2
        × (frame.type_id ≡ 1)
        × (frame.opcode ≡ 4)
        × (read_u16_le frame.payload 0 ≡ some p1)
        × (read_u16_le frame.payload 2 ≡ some p2))
set_periods-encodes_example = set_periods-encodes sample_contracts tenths heater_args (omega arith)

rearm_if_rebooted-sends_example :
    let (rearmed, (s', l')) =
      rearm_if_rebooted sample_contracts
        (logged sample_api)
        sample_device
        new_watchdog_status
        (4, []) in
    ((rearmed ≡ true)
      × (0 < sample_device.command_watchdog_ms)
      × (capability_supported sample_contracts sample_device ≡ true)
      × (false ≡ false)
      × (false ≡ false)
      × ((frame : RawFrame) × (l' ≡ (32, frame) ∷ [])
          × (frame.opcode ≡ 112)
          × (read_u16_le frame.payload 0 ≡ some sample_device.command_watchdog_ms)))
    ⊎ ((rearmed ≡ false)
        × ((sample_device.command_watchdog_ms ≡ 0)
            ⊎ (capability_supported sample_contracts sample_device ≡ false)
            ⊎ (false ≡ true)
            ⊎ (false ≡ true))
        × (s' ≡ 4)
        × (l' ≡ []))
rearm_if_rebooted-sends_example =
    rearm_if_rebooted-sends sample_contracts sample_api sample_device new_watchdog_status 4
      (omega arith)

abbrev kept : Keepalive
kept = record {
  armed_at = 0;
  deadline = 30000;
  fed = record { device = sample_device; interval = 500; next_due = 500; done = false } ∷ [];
  capped = false;
}

tick-Due_example :
    let ((next, k'), _) = tick sample_contracts sample_api 600 kept 4 in
    Chosen sample_contracts sample_api 600 30000 next k'.fed
tick-Due_example =
    tick-Due sample_contracts sample_api 600 kept 4 refl (omega arith)
      ((omega arith, inr (omega arith)), tt)

IsScheduled-kept_example :
    IsScheduled 0 (new_keepalive sample_contracts (sample_device ∷ []) 30000 0)
    × IsScheduled 700 (tick sample_contracts sample_api 600 kept 4).0.1
    × IsScheduled 700 (contacted "motors" kept)
IsScheduled-kept_example =
    IsScheduled-kept sample_contracts sample_api (sample_device ∷ []) 30000 0 600 700 "motors" kept
      4 ((omega arith, inr (omega arith)), tt) (omega arith)

tick-asks_example :
    ((tick sample_contracts (asked sample_api) 600 kept (4, [])).1.1
      ≡ requests sample_contracts sample_api (due 600) kept.fed)
    × ((tick sample_contracts (asked sample_api) 600 (contacted "motors" kept) (4, [])).1.1
        ≡ requests sample_contracts sample_api (λ f. due 600 f && waits_for "motors" f) kept.fed)
tick-asks_example = tick-asks sample_contracts sample_api 600 "motors" kept 4 refl (omega arith)

abbrev dcmt_adapter : DeviceAdapter ℕ ℤ
dcmt_adapter = adapter_for sample_contracts tenths sample_api sample_device.type

drive-all_example :
    let (result, s') = drive sample_contracts tenths sample_api sample_device 4 in
    (s' ≡ after_all dcmt_adapter sample_device dcmt_adapter.safe_output_steps 4)
    × (result.ok ≡ all_ok dcmt_adapter sample_device dcmt_adapter.safe_output_steps 4)
drive-all_example = drive-all sample_contracts tenths sample_api sample_device 4

-- A thread that wakes 3 ms late each time, where the runtime contacts the device during the second wait.
abbrev quiet : ℕ → Meanwhile ℕ
quiet rounds = record {
  late = 3;
  contacts = if leb rounds 29994 then "motors" ∷ [] else [];
  others = λ s. s;
  stopping = false;
}
