-- ===== src/Watchdog.antt =====
-- src/devices/common/watchdog.hpp and watchdog.cpp: the firmware command watchdog. Logging, and with
-- it the context argument, is left out.
pub mod Arming
use anolis_provider_bread.Base.{
  ℕ, ◌%◌, ◌^◌, ◌/◌, Bool, true, false, not, ◌&&◌, ◌||◌, List, [], ◌∷◌, Option, none, some, ltb, leb,
  ◌==◌, if◌then◌else◌, bit_and, length, take, Act,
}
use anolis_provider_bread.Frames.{
  SessionErrorCode, SessionStatus, is_ok, success, failure, RawFrame, empty_frame,
}
use anolis_provider_bread.SessionApi.{SessionApi}
use anolis_provider_bread.Contracts.{Contracts, WatchdogResult}
use anolis_provider_bread.Config.{DeviceType}
use anolis_provider_bread.Devices.{InventoryDevice}
use anolis_provider_bread.Compatibility.{bread_type_id}

pub record WatchdogStatus : Type 0 where
  pub armed : Bool
  pub timeout_ms : ℕ
  pub tripped : Bool
  pub trip_count : ℕ

abbrev pub new_watchdog_status : WatchdogStatus
new_watchdog_status = record { armed = false; timeout_ms = 0; tripped = false; trip_count = 0 }

module _ (c : Contracts) where
  open c use {bread, rlht, dcmt}

  unfoldable pub capability_flag_for : DeviceType → ℕ
  capability_flag_for DeviceType.rlht = rlht.cap_cmd_watchdog
  capability_flag_for DeviceType.dcmt = dcmt.cap_cmd_watchdog

  unfoldable pub capability_supported : InventoryDevice → Bool
  capability_supported device =
      let flag = capability_flag_for device.type in
      not (flag == 0) && not (bit_and device.capability_profile.flags flag == 0)

  -- The SET_WATCHDOG frame, with the timeout as a 16-bit value, low byte first.
  unfoldable pub set_watchdog_frame : InventoryDevice → RawFrame
  set_watchdog_frame device =
      let timeout_ms = device.command_watchdog_ms % 2 ^ 16 in
      record {
        type_id = bread_type_id c device.type;
        opcode = bread.op_set_watchdog;
        payload = timeout_ms % 2 ^ 8 ∷ timeout_ms / 2 ^ 8 % 2 ^ 8 ∷ [];
      }

  -- What parsing a GET_WATCHDOG payload leaves in `out`.
  abbrev pub status_of : WatchdogResult → WatchdogStatus
  status_of parsed = record {
    armed = not (parsed.armed == 0);
    timeout_ms = parsed.timeout_ms;
    tripped = not (parsed.tripped == 0);
    trip_count = parsed.trip_count;
  }

  module _ {S : Type 0} (api : SessionApi S) where
    unfoldable pub arm_if_configured : InventoryDevice → S → S
    arm_if_configured device s =
        let sent = (api.send (device.address % 2 ^ 8) (set_watchdog_frame device) s).1 in
        if leb device.command_watchdog_ms 0
        then s
        else if not (capability_supported device)
        then s
        else sent

    unfoldable pub rearm_if_rebooted : InventoryDevice → WatchdogStatus → Act S Bool
    rearm_if_rebooted device status s =
        if leb device.command_watchdog_ms 0
          || (not (capability_supported device) || (status.armed || status.tripped))
        then (false, s)
        else (true, arm_if_configured device s)

    -- A reply that cannot be used is counted as a rejection, and fails.
    unfoldable pub reject :
        ℕ → SessionStatus → WatchdogStatus → Act S (SessionStatus × WatchdogStatus)
    reject address status out s = ((status, out), api.record_rejection address s)

    unfoldable pub query_status :
        InventoryDevice → WatchdogStatus → Act S (SessionStatus × WatchdogStatus)
    query_status device out s =
        let ((status, frame), s') =
          api.query_read device.address bread.op_get_watchdog empty_frame s in
        if not (is_ok status)
        then ((status, out), s')
        else if not (frame.opcode == bread.op_get_watchdog)
        then reject device.address
            (failure SessionErrorCode.decode_failed "unexpected watchdog reply opcode") out s'
        else elim (bread.watchdog_parse_payload
            (take (length frame.payload % 2 ^ 8) frame.payload)) [
              | none ↦
                  reject device.address
                    (failure SessionErrorCode.decode_failed "failed to parse watchdog payload") out
                    s'
              | some parsed ↦ ((success, status_of parsed), s')
            ]
