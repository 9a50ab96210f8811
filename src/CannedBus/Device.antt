-- ===== src/CannedBus/Device.antt =====
-- struct DeviceState of src/crumbs/crumbs_canned_bus.hpp, the state of one canned device, and the
-- payloads that it reports (src/crumbs/crumbs_canned_bus.cpp).
use anolis_provider_bread.Base.{
  ℕ, zero, suc, ◌+◌, ◌*◌, ◌^◌, ◌%◌, bit_and, bit_or, ℤ, pos, negsuc, to_i16, Bool, false, List, [],
  ◌∷◌, ltb, ◌==◌, if◌then◌else◌,
}
use anolis_provider_bread.AdapterHelpers.{append_u8, append_u16_le, append_i16_le}
use anolis_provider_bread.Contracts.{Contracts}
use anolis_provider_bread.Wire.{DeviceConstants}

-- The counts of writes are the map writes_by_opcode, 0 where it has no entry.
pub record DeviceState : Type 0 where
  pub type_id : ℕ
  pub pending_reply_opcode : ℕ
  pub has_pending : Bool
  pub watchdog_timeout_ms : ℕ
  pub watchdog_tripped : Bool
  pub watchdog_trip_count : ℕ
  pub ack_counter : ℕ
  pub ack_opcode : ℕ
  pub ack_status : ℕ
  pub ack_reason : ℕ
  pub next_outcomes : List (ℕ × ℕ)
  pub drop_count : ℤ
  pub ack_read_skip : ℤ
  pub ack_read_failures : ℤ
  pub writes_by_opcode : ℕ → ℕ
  pub dcmt_mode : ℕ
  pub dcmt_m1_pwm : ℤ
  pub dcmt_m2_pwm : ℤ
  pub rlht_mode : ℕ
  pub rlht_sp1_deci_c : ℤ
  pub rlht_sp2_deci_c : ℤ
  pub rlht_on1_ms : ℕ
  pub rlht_on2_ms : ℕ
  pub rlht_period1_ms : ℕ
  pub rlht_period2_ms : ℕ
  pub rlht_tc1 : ℕ
  pub rlht_tc2 : ℕ

-- A new entry of the map of devices.
abbrev pub seeded_device : DeviceState
seeded_device = record {
  type_id = 0;
  pending_reply_opcode = 0;
  has_pending = false;
  watchdog_timeout_ms = 0;
  watchdog_tripped = false;
  watchdog_trip_count = 0;
  ack_counter = 0;
  ack_opcode = 0;
  ack_status = 0;
  ack_reason = 0;
  next_outcomes = [];
  drop_count = pos 0;
  ack_read_skip = pos 0;
  ack_read_failures = pos 0;
  writes_by_opcode = λ opcode. 0;
  dcmt_mode = 0;
  dcmt_m1_pwm = pos 100;
  dcmt_m2_pwm = negsuc 99;
  rlht_mode = 1;
  rlht_sp1_deci_c = pos 300;
  rlht_sp2_deci_c = pos 300;
  rlht_on1_ms = 500;
  rlht_on2_ms = 0;
  rlht_period1_ms = 1000;
  rlht_period2_ms = 1000;
  rlht_tc1 = 1;
  rlht_tc2 = 2;
}

-- A byte of a message's array, which is longer than every position that is read.
abbrev pub byte_at : List ℕ → ℕ → ℕ
byte_at [] i = 0
byte_at (b ∷ bytes) zero = b
byte_at (b ∷ bytes) (suc i) = byte_at bytes i

-- read_u16_le and read_i16_le of the canned bus; the two bytes do not overlap, so the sum is their
-- bitwise or.
unfoldable pub data_u16_le : List ℕ → ℕ
data_u16_le bytes = (byte_at bytes 0 + byte_at bytes 1 * 2 ^ 8) % 2 ^ 16

unfoldable pub data_i16_le : List ℕ → ℤ
data_i16_le bytes = to_i16 (data_u16_le bytes)

unfoldable pub build_watchdog_payload : ℕ → Bool → ℕ → List ℕ
build_watchdog_payload timeout_ms tripped trip_count =
    let armed = append_u8 [] (if timeout_ms == 0 then 0 else 1) in
    let timed = append_u16_le armed timeout_ms in
    append_u8 (append_u8 timed (if tripped then 1 else 0)) trip_count

module _ (c : Contracts) where
  unfoldable pub relay_flags : DeviceState → ℕ
  relay_flags dev =
      let flags = if ltb 0 dev.rlht_on1_ms then bit_or 0 c.rlht.flag_relay1_on else 0 in
      if ltb 0 dev.rlht_on2_ms then bit_or flags c.rlht.flag_relay2_on else flags

  unfoldable pub build_rlht_state_payload : DeviceState → List ℕ
  build_rlht_state_payload dev =
      let head = append_u8 (append_u8 [] dev.rlht_mode) (relay_flags dev) in
      let temperatures = append_i16_le (append_i16_le head (pos 250)) (pos 255) in
      let setpoints =
        append_i16_le (append_i16_le temperatures dev.rlht_sp1_deci_c) dev.rlht_sp2_deci_c in
      let on_times = append_u16_le (append_u16_le setpoints dev.rlht_on1_ms) dev.rlht_on2_ms in
      let periods =
        append_u16_le (append_u16_le on_times dev.rlht_period1_ms) dev.rlht_period2_ms in
      append_u8 periods (bit_or (bit_and dev.rlht_tc1 3) (bit_and dev.rlht_tc2 3 * 2 ^ 2))

module _ (k : DeviceConstants) where
  unfoldable pub build_dcmt_state_payload : DeviceState → List ℕ
  build_dcmt_state_payload dev =
      let commands =
        append_i16_le (append_i16_le (append_u8 [] dev.dcmt_mode) dev.dcmt_m1_pwm)
          dev.dcmt_m2_pwm in
      let positions = append_i16_le (append_i16_le commands k.invalid_i16) k.invalid_i16 in
      let zeros = append_i16_le (append_i16_le positions (pos 0)) (pos 0) in
      let speeds = append_i16_le (append_i16_le zeros k.invalid_i16) k.invalid_i16 in
      append_u8 (append_u8 (append_u8 speeds 0) 0) 0
