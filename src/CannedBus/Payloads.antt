-- ===== src/CannedBus/Payloads.antt =====
-- What a canned device reports: the payloads are bytes, fit in a CRUMBS message, and hold the state of
-- the device.
use anolis_provider_bread.Base.{ℕ, ◌≤◌, List, length, All, arith}
use anolis_provider_bread.Contracts.{Contracts}
use anolis_provider_bread.Wire.{DeviceConstants}
use anolis_provider_bread.CannedBus.Device.{
  DeviceState, build_watchdog_payload, build_rlht_state_payload, build_dcmt_state_payload,
}
use anolis_provider_bread.CannedBus.Port.{
  CannedReply, payload_is, ack_read_fails, unanswered, ack_payload, ack_reply, canned_reply,
}
use anolis_provider_bread.CannedBus.Bytes.{IsByte, IsDevice}

-- A payload of bytes that a CRUMBS message has room for.
pub record IsPayload (payload : List ℕ) : Type 0 where
  pub bytes_fit : All IsByte payload
  pub fits : length payload ≤ 27

watchdog-IsPayload :
    (timeout_ms : ℕ) (tripped : _) (trips : ℕ)
    → IsPayload (build_watchdog_payload timeout_ms tripped trips)
unfolding build_watchdog_payload
watchdog-IsPayload timeout_ms tripped trips = record { bytes_fit = omega arith; fits = omega arith }

rlht-IsPayload : (c : Contracts) (dev : DeviceState) → IsPayload (build_rlht_state_payload c dev)
unfolding build_rlht_state_payload
rlht-IsPayload c dev = record { bytes_fit = omega arith; fits = omega arith }

dcmt-IsPayload :
    (k : DeviceConstants) (dev : DeviceState) → IsPayload (build_dcmt_state_payload k dev)
unfolding build_dcmt_state_payload
dcmt-IsPayload k dev = record { bytes_fit = omega arith; fits = omega arith }

ack-IsPayload : (dev : DeviceState) → IsDevice dev → IsPayload (ack_payload dev)
unfolding ack_payload
ack-IsPayload dev h = record {
  bytes_fit = (h.counter_fits, (h.opcode_fits, (h.status_fits, (h.reason_fits, tt))));
  fits = omega arith;
}

-- A reply is a payload that fits, or no payload at all.
abbrev pub IsReply : CannedReply → Type 0
IsReply (payload_is payload dev) = IsPayload payload
IsReply (ack_read_fails dev) = Unit
IsReply unanswered = Unit

ack_reply-IsReply : (dev : DeviceState) → IsDevice dev → IsReply (ack_reply dev)
unfolding ack_reply
ack_reply-IsReply dev h = ground (arith, ack-IsPayload dev h)

module _ (c : Contracts) (k : DeviceConstants) where
  pub canned_reply-IsReply : (dev : DeviceState) → IsDevice dev → IsReply (canned_reply c k dev)
  unfolding canned_reply
  canned_reply-IsReply dev h = ground (
    arith,
    rlht-IsPayload c dev,
    dcmt-IsPayload k dev,
    watchdog-IsPayload dev.watchdog_timeout_ms dev.watchdog_tripped dev.watchdog_trip_count,
    ack_reply-IsReply dev h,
  )
