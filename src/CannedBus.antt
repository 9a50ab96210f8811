-- ===== src/CannedBus.antt =====
-- class CrumbsCannedBus of src/crumbs/crumbs_canned_bus.hpp and src/crumbs/crumbs_canned_bus.cpp: canned
-- devices behind the interface of the I2C bus, which answer the CRUMBS protocol in bytes.
pub mod Device
pub mod Port
pub mod Bytes
pub mod Payloads
pub mod Answers
pub mod Queries
pub mod Sessions
pub mod EndToEnd
pub mod Commands
pub mod Outputs
use anolis_provider_bread.Base.{
  ℕ, ◌+◌, ◌-◌, ◌*◌, ◌/◌, ◌%◌, ◌^◌, ℤ, pos, negsuc, ltb_ℤ, eq_ℤ, ◌+ℤ◌, String, Bool, true, false,
  not, ◌&&◌, List, [], ◌∷◌, ◌++◌, Option, none, some, ltb, leb, ◌==◌, if◌then◌else◌, length, drop,
  replicate, is_empty, update, Act,
}
use anolis_provider_bread.Frames.{set_reply_opcode}
use anolis_provider_bread.Contracts.{Contracts}
use anolis_provider_bread.Wire.{
  I2cError, I2cStatus, I2cStatuses, Message, I2cBus, Codec, DeviceConstants,
}
use Device.{
  DeviceState, seeded_device, byte_at, data_u16_le, data_i16_le, build_watchdog_payload,
  build_rlht_state_payload, build_dcmt_state_payload,
}

pub record CannedBus : Type 0 where
  pub bus_path : String
  pub opened : Bool
  pub devices : ℕ → Option DeviceState

abbrev pub new_canned_bus : String → CannedBus
new_canned_bus bus_path = record { bus_path = bus_path; opened = false; devices = λ address. none }

-- devices_[address], which a missing entry makes new.
abbrev pub or_seeded : Option DeviceState → DeviceState
or_seeded none = seeded_device
or_seeded (some dev) = dev

abbrev pub put : ℕ → DeviceState → CannedBus → CannedBus
put address dev bus = record bus { devices = update bus.devices address (some dev) }

unfoldable pub add_device : ℕ → ℕ → CannedBus → CannedBus
add_device address type_id bus =
    put address (record (or_seeded (bus.devices address)) { type_id = type_id }) bus

unfoldable pub trip_watchdog : ℕ → CannedBus → CannedBus
trip_watchdog address bus = elim (bus.devices address) [
  | none ↦ bus
  | some dev ↦
      put address
        (record dev {
          watchdog_tripped = true;
          watchdog_trip_count = (dev.watchdog_trip_count + 1) % 2 ^ 8;
        })
        bus
]

unfoldable pub drop_next : ℕ → ℤ → CannedBus → CannedBus
drop_next address count bus =
    let dev = or_seeded (bus.devices address) in
    put address (record dev { drop_count = dev.drop_count +ℤ count }) bus

unfoldable pub fail_ack_reads : ℕ → ℤ → ℤ → CannedBus → CannedBus
fail_ack_reads address count skip bus =
    put address
      (record (or_seeded (bus.devices address)) { ack_read_skip = skip; ack_read_failures = count })
      bus

unfoldable pub writes_of : ℕ → ℕ → CannedBus → ℕ
writes_of address opcode bus = elim (bus.devices address) [
  | none ↦ 0
  | some dev ↦ dev.writes_by_opcode opcode
]

unfoldable pub is_positive : ℤ → Bool
is_positive z = ltb_ℤ (pos 0) z

abbrev pub pred : ℤ → ℤ
pred z = z +ℤ negsuc 0

module _ (k : DeviceConstants) where
  abbrev pub push_outcome : ℕ → ℕ × ℕ → CannedBus → CannedBus
  push_outcome address outcome bus =
      let dev = or_seeded (bus.devices address) in
      put address (record dev { next_outcomes = dev.next_outcomes ++ outcome ∷ [] }) bus

  unfoldable pub refuse_next : ℕ → ℕ → CannedBus → CannedBus
  refuse_next address reason = push_outcome address (k.ack_refused, reason)

  unfoldable pub reject_next : ℕ → ℕ → CannedBus → CannedBus
  reject_next address reason = push_outcome address (k.ack_rejected, reason)

  -- The status and the reason of the next command frame, and the outcomes left.
  unfoldable pub next_outcome : List (ℕ × ℕ) → (ℕ × ℕ) × List (ℕ × ℕ)
  next_outcome [] = ((k.ack_applied, 0), [])
  next_outcome (outcome ∷ rest) = (outcome, rest)

  -- A command frame that arrives, as the acknowledgement record counts it.
  unfoldable pub acknowledge : Message → DeviceState → DeviceState
  acknowledge m dev =
      let ((status, reason), rest) = next_outcome dev.next_outcomes in
      record dev {
        next_outcomes = rest;
        ack_opcode = m.opcode;
        ack_status = status;
        ack_reason = reason;
        ack_counter = (dev.ack_counter + 1) % 2 ^ 8;
      }

  module _ (c : Contracts) where
    unfoldable pub act_common : Message → DeviceState → DeviceState
    act_common m dev =
        if m.opcode == c.bread.op_set_watchdog && leb 2 m.data_len
        then record dev { watchdog_timeout_ms = data_u16_le m.bytes }
        else if m.opcode == c.bread.op_clear_watchdog_trip && m.data_len == k.clear_trip_payload_len
        then record dev { watchdog_tripped = false }
        else dev

    unfoldable pub act_rlht : Message → DeviceState → DeviceState
    act_rlht m dev =
        let is_set = λ (opcode len : ℕ).
          dev.type_id == c.rlht.type_id && (m.opcode == opcode && leb len m.data_len) in
        if is_set c.rlht.op_set_mode 1
        then record dev { rlht_mode = byte_at m.bytes 0 }
        else if is_set c.rlht.op_set_setpoints 4
        then record dev {
          rlht_sp1_deci_c = data_i16_le m.bytes;
          rlht_sp2_deci_c = data_i16_le (drop 2 m.bytes);
        }
        else if is_set c.rlht.op_set_open_duty 2
        then record dev {
          rlht_on1_ms = dev.rlht_period1_ms * byte_at m.bytes 0 / 100 % 2 ^ 16;
          rlht_on2_ms = dev.rlht_period2_ms * byte_at m.bytes 1 / 100 % 2 ^ 16;
        }
        else if is_set c.rlht.op_set_tc_select 2
        then record dev { rlht_tc1 = byte_at m.bytes 0; rlht_tc2 = byte_at m.bytes 1 }
        else act_common m dev

    -- What an applied command does.
    unfoldable pub act : Message → DeviceState → DeviceState
    act m dev =
        let is_set = λ (opcode len : ℕ).
          dev.type_id == c.dcmt.type_id && (m.opcode == opcode && leb len m.data_len) in
        if is_set c.dcmt.op_set_open_loop 4
        then record dev {
          dcmt_m1_pwm = data_i16_le m.bytes;
          dcmt_m2_pwm = data_i16_le (drop 2 m.bytes);
        }
        else if is_set c.dcmt.op_set_mode 1
        then record dev { dcmt_mode = byte_at m.bytes 0 }
        else act_rlht m dev

    -- A command frame, counted by its opcode: lost, or acknowledged and, where applied, acted on.
    unfoldable pub command : Message → DeviceState → DeviceState
    command m dev =
        let counted = record dev {
          writes_by_opcode =
              update dev.writes_by_opcode m.opcode (dev.writes_by_opcode m.opcode + 1);
        } in
        let acked = acknowledge m counted in
        if is_positive dev.drop_count
        then record counted { drop_count = pred dev.drop_count }
        else if acked.ack_status == k.ack_applied
        then act m acked
        else acked

    -- apply_write from the decoded message on.
    unfoldable pub receive : Message → DeviceState → DeviceState
    receive m dev =
        if m.opcode == set_reply_opcode && leb 1 m.data_len
        then record dev { pending_reply_opcode = byte_at m.bytes 0; has_pending = true }
        else command m dev

    unfoldable pub apply_write : {X : Type 0} → Codec X → ℕ → List ℕ → CannedBus → CannedBus
    apply_write codec address tx bus = elim (bus.devices address) [
      | none ↦ bus
      | some dev ↦
          let (rc, m) = codec.decode tx (length tx) in
          if eq_ℤ rc (pos 0) then put address (receive m dev) bus else bus
    ]
