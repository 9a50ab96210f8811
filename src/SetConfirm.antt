-- ===== src/SetConfirm.antt =====
-- src/devices/common/set_confirm.hpp and set_confirm.cpp: a SET is sent and confirmed from the
-- device's GET_ACK record. The proofs are in the modules below.
pub mod Rounds
pub mod Outcomes
pub mod Sends
use anolis_provider_bread.Base.{
  ℕ, zero, suc, String, ◌<>◌, Bool, true, false, not, ◌&&◌, Option, none, some, ltb, ◌==◌,
  if◌then◌else◌, bit_and, Act,
}
use anolis_provider_bread.Base.Text.{to_dec, to_hex}
use anolis_provider_bread.Frames.{SessionStatus, is_ok, RawFrame, empty_frame}
use anolis_provider_bread.SessionApi.{SessionApi}
use anolis_provider_bread.Contracts.{Contracts, Ack, AckOutcome}
use anolis_provider_bread.Config.{DeviceType}
use anolis_provider_bread.Devices.{InventoryDevice, StatusCode, AdapterCallResult}
use anolis_provider_bread.AdapterHelpers.{call_error_from_session, call_failed, call_done}

abbrev pub confirmed_sends : ℕ
confirmed_sends = 3

pub data SetConfirmation : Type 0 where
  acknowledged delivery_only unconfirmed : SetConfirmation

unfoldable pub confirmation_to_string : SetConfirmation → String
confirmation_to_string SetConfirmation.acknowledged = "acknowledged"
confirmation_to_string SetConfirmation.delivery_only = "delivery_only"
confirmation_to_string SetConfirmation.unconfirmed = "unconfirmed"

abbrev pub hex_byte : ℕ → String
hex_byte value = "0x" <> to_hex 2 value

abbrev pub not_a_record : ℕ → String
not_a_record opcode = "reply is not a GET_ACK record (opcode " <> hex_byte opcode <> ")"

-- What read_ack leaves: the record, or the reason why there is none.
pub data AckRead : Type 0 where
  ack_read : Ack → AckRead
  ack_failed : String → AckRead

abbrev pub or_hex : Option String → ℕ → String
or_hex none reason = hex_byte reason
or_hex (some name) reason = name

abbrev pub unread_after : String → String → SessionStatus → AdapterCallResult
unread_after op why send_status = call_failed StatusCode.code_unavailable (
    op
    <> " unconfirmed: GET_ACK after send failed: "
    <> why
    <> (if is_ok send_status
        then ""
        else " (the write also failed: " <> send_status.message <> ")"))

abbrev pub not_applied : String → AdapterCallResult
not_applied op =
    call_failed StatusCode.code_unavailable (
      op
      <> " not applied: the device did not count it after "
      <> to_dec confirmed_sends
      <> " sends")

module _ (c : Contracts) where
  open c use {crumbs, bread, rlht, dcmt}

  unfoldable pub refuses_flag_for : DeviceType → ℕ
  refuses_flag_for DeviceType.rlht = rlht.cap_refuses
  refuses_flag_for DeviceType.dcmt = dcmt.cap_refuses

  -- The name and the code of a refusal; a reason of a family has no name.
  unfoldable pub refusal_for : ℕ → Option String × StatusCode
  refusal_for reason =
      if reason == bread.refuse_estop
      then (some "ESTOP", StatusCode.code_failed_precondition)
      else if reason == bread.refuse_watchdog_trip
      then (some "WATCHDOG_TRIP", StatusCode.code_failed_precondition)
      else if reason == bread.refuse_wrong_mode
      then (some "WRONG_MODE", StatusCode.code_failed_precondition)
      else if reason == bread.refuse_malformed
      then (some "MALFORMED", StatusCode.code_invalid_argument)
      else if reason == bread.refuse_undefined_value
      then (some "UNDEFINED_VALUE", StatusCode.code_invalid_argument)
      else if reason == bread.refuse_unknown_op
      then (some "UNKNOWN_OP", StatusCode.code_invalid_argument)
      else if reason == bread.refuse_not_built
      then (some "NOT_BUILT", StatusCode.code_unimplemented)
      else (none, StatusCode.code_failed_precondition)

  unfoldable pub reject_name : ℕ → String
  reject_name reason =
      if reason == crumbs.ack_reject_no_handler
      then "NO_HANDLER"
      else if reason == crumbs.ack_reject_type
      then "TYPE"
      else hex_byte reason

  unfoldable pub set_confirmation : InventoryDevice → SetConfirmation
  set_confirmation device =
      let refuses = refuses_flag_for device.type in
      if ltb device.version.crumbs_version crumbs.ack_min_version
      then SetConfirmation.unconfirmed
      else if not (refuses == 0) && not (bit_and device.capability_profile.flags refuses == 0)
      then SetConfirmation.acknowledged
      else SetConfirmation.delivery_only

  -- The result that a classified record gives, or `none` where the SET is sent again.
  unfoldable pub settle : String → Ack → AckOutcome → Option AdapterCallResult
  settle op after AckOutcome.set_applied = some (call_done "ok")
  settle op after AckOutcome.set_refused =
      let (name, code) = refusal_for after.reason in
      some (call_failed code (op <> " refused: " <> or_hex name after.reason))
  settle op after AckOutcome.set_rejected =
      some (call_failed StatusCode.code_internal (op <> " rejected: " <> reject_name after.reason))
  settle op after AckOutcome.set_not_advanced = none
  settle op after AckOutcome.ack_mismatch = some (
      call_failed StatusCode.code_unavailable (
        op
        <> " unconfirmed: the device counted another command (opcode "
        <> hex_byte after.opcode
        <> ")"))
  settle op after AckOutcome.ack_unknown = some (
      call_failed StatusCode.code_unavailable
        (op <> " unconfirmed: the acknowledgement cannot say (the device may have restarted)"))
  settle op after AckOutcome.other =
      some (call_failed StatusCode.code_internal (op <> " unconfirmed: invalid acknowledgement"))

  -- What one send and the record read after it come to: a result, or `none` to send again.
  unfoldable pub judge : String → Ack → ℕ → SessionStatus → AckRead → Option AdapterCallResult
  judge op before opcode send_status (ack_failed why) = some (unread_after op why send_status)
  judge op before opcode send_status (ack_read after) =
      settle op after (crumbs.ack_classify before after opcode)

  module _ {S : Type 0} (api : SessionApi S) where
    -- read_ack, with `rounds` attempts left.
    unfoldable pub read_ack_loop : ℕ → ℕ → String → Act S AckRead
    read_ack_loop address zero why s = (ack_failed why, s)
    read_ack_loop address (suc rounds) why s =
        let ((status, reply), s') = api.query_read address crumbs.cmd_get_ack empty_frame s in
        let again =
          read_ack_loop address rounds (not_a_record reply.opcode)
            (api.record_rejection address s') in
        elim (is_ok status) [
          | false ↦ (ack_failed status.message, s')
          | true ↦ elim (crumbs.ack_decode reply) [ none ↦ again | some ack ↦ (ack_read ack, s') ]
        ]

    unfoldable pub read_ack : ℕ → Act S AckRead
    read_ack address = read_ack_loop address crumbs.ack_read_attempts ""

    -- One send and the record after it.
    unfoldable pub send_round : ℕ → RawFrame → Act S (SessionStatus × AckRead)
    send_round address frame s =
        let (send_status, s1) = api.send address frame s in
        let (after, s2) = read_ack address s1 in ((send_status, after), s2)

    -- The send loop of transmit_confirmed, with `rounds` sends left.
    unfoldable pub confirm_loop : String → ℕ → RawFrame → Ack → ℕ → Act S AdapterCallResult
    confirm_loop op address frame before zero s = (not_applied op, s)
    confirm_loop op address frame before (suc rounds) s =
        let ((send_status, after), s') = send_round address frame s in
        let again = confirm_loop op address frame before rounds s' in
        elim (judge op before frame.opcode send_status after) [
          | none ↦ again
          | some result ↦ (result, s')
        ]

    unfoldable pub transmit_unconfirmed : ℕ → RawFrame → String → Act S AdapterCallResult
    transmit_unconfirmed address frame op s =
        let (send_status, s') = api.send address frame s in
        (
          if is_ok send_status
              then call_done "ok (unconfirmed)"
              else call_error_from_session send_status op,
          s',
        )

    unfoldable pub transmit_acknowledged : ℕ → RawFrame → String → Act S AdapterCallResult
    transmit_acknowledged address frame op s =
        let (baseline, s') = read_ack address s in
        elim baseline [
          | ack_failed why ↦ (
            call_failed StatusCode.code_unavailable
                (op <> " not sent: GET_ACK baseline failed: " <> why),
            s',
          )
          | ack_read before ↦ confirm_loop op address frame before confirmed_sends s'
        ]

    unfoldable pub transmit_confirmed :
        InventoryDevice → RawFrame → String → Act S AdapterCallResult
    transmit_confirmed device frame op s = elim (set_confirmation device) [
      | SetConfirmation.unconfirmed ↦ transmit_unconfirmed device.address frame op s
      | _ ↦ transmit_acknowledged device.address frame op s
    ]
