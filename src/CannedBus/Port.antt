-- ===== src/CannedBus/Port.antt =====
-- The canned bus as an I2C bus (src/crumbs/crumbs_canned_bus.cpp): opening, writes, and reads, which
-- encode the staged reply and pad it to the count that is asked for.
use anolis_provider_bread.Base.{
  ℕ, ◌-◌, ◌%◌, ◌^◌, true, false, not, ◌&&◌, List, [], ◌∷◌, ◌++◌, none, some, ◌==◌, if◌then◌else◌,
  length, replicate, is_empty, Act,
}
use anolis_provider_bread.Contracts.{Contracts}
use anolis_provider_bread.Wire.{
  I2cError, I2cStatus, I2cStatuses, Message, I2cBus, Codec, DeviceConstants,
}
use anolis_provider_bread.CannedBus.Device.{
  DeviceState, build_watchdog_payload, build_rlht_state_payload, build_dcmt_state_payload,
}
use anolis_provider_bread.CannedBus.{CannedBus, put, is_positive, pred, apply_write}

-- The first bytes of `rx` are the encoded frame, the others are 0xFF.
unfoldable pub fill : List ℕ → List ℕ → List ℕ
fill [] encoded = []
fill (x ∷ rx) [] = 0xFF ∷ fill rx []
fill (x ∷ rx) (b ∷ encoded) = b ∷ fill rx encoded

-- What the pending query finds: the payload, a GET_ACK read that a test makes fail, or no answer; the
-- device may change.
pub data CannedReply : Type 0 where
  payload_is : List ℕ → DeviceState → CannedReply
  ack_read_fails : DeviceState → CannedReply
  unanswered : CannedReply

unfoldable pub ack_payload : DeviceState → List ℕ
ack_payload dev = dev.ack_counter ∷ dev.ack_opcode ∷ dev.ack_status ∷ dev.ack_reason ∷ []

unfoldable pub ack_reply : DeviceState → CannedReply
ack_reply dev =
    if is_positive dev.ack_read_skip
    then payload_is (ack_payload dev) (record dev { ack_read_skip = pred dev.ack_read_skip })
    else if is_positive dev.ack_read_failures
    then ack_read_fails (record dev { ack_read_failures = pred dev.ack_read_failures })
    else payload_is (ack_payload dev) dev

module _ (c : Contracts) (k : DeviceConstants) where
  unfoldable pub canned_reply : DeviceState → CannedReply
  canned_reply dev =
      let asks = λ (opcode : ℕ). dev.pending_reply_opcode == opcode in
      if dev.type_id == c.rlht.type_id && asks c.rlht.op_get_state
      then payload_is (build_rlht_state_payload c dev) dev
      else if dev.type_id == c.dcmt.type_id && asks c.dcmt.op_get_state
      then payload_is (build_dcmt_state_payload k dev) dev
      else if asks c.bread.op_get_watchdog
      then payload_is
          (build_watchdog_payload dev.watchdog_timeout_ms dev.watchdog_tripped
            dev.watchdog_trip_count)
          dev
      else if asks c.crumbs.cmd_get_ack
      then ack_reply dev
      else unanswered

module _ {X : Type 0} (codec : Codec X) where
  unfoldable pub reply_message : DeviceState → List ℕ → Message
  reply_message dev payload = record {
    type_id = dev.type_id;
    opcode = dev.pending_reply_opcode;
    data_len = length payload % 2 ^ 8;
    bytes = payload ++ replicate (codec.max_payload - length payload) 0;
  }

module _ (st : I2cStatuses) where
  -- emit_reply of an encoded frame; nothing is received where the read fails.
  unfoldable pub emit_encoded : List ℕ → List ℕ → I2cStatus × (List ℕ × ℕ)
  emit_encoded encoded rx =
      if is_empty encoded
      then (st.failed I2cError.bus_error "canned bus: failed to encode reply", (rx, 0))
      else (st.done, (fill rx encoded, length rx))

module _ {X : Type 0} (c : Contracts) (k : DeviceConstants) (codec : Codec X)
    (st : I2cStatuses) where
  unfoldable pub emit_canned :
      ℕ → CannedReply → DeviceState → List ℕ → Act CannedBus (I2cStatus × (List ℕ × ℕ))
  emit_canned address (payload_is payload dev') dev rx bus =
      (emit_encoded st (codec.encode (reply_message codec dev payload)) rx, put address dev' bus)
  emit_canned address (ack_read_fails dev') dev rx bus = (
    (st.failed I2cError.bus_error "canned bus: injected GET_ACK read failure", (rx, 0)),
    put address dev' bus,
  )
  emit_canned address unanswered dev rx bus = (
    (st.failed I2cError.bus_error "canned bus: no canned response for requested reply", (rx, 0)),
    bus,
  )

  -- A null buffer is an empty one: both are refused.
  unfoldable pub emit_reply : ℕ → List ℕ → Act CannedBus (I2cStatus × (List ℕ × ℕ))
  emit_reply address rx bus =
      if is_empty rx
      then ((st.failed I2cError.invalid_argument "canned read requires rx buffer", (rx, 0)), bus)
      else elim (bus.devices address) [
        | none ↦
            ((st.failed I2cError.bus_error "canned bus: no seeded device at address", (rx, 0)), bus)
        | some dev ↦
            if dev.has_pending then emit_canned address (canned_reply c k dev) dev rx bus else (
              (st.failed I2cError.bus_error "canned bus: no query pending for address", (rx, 0)),
              bus,
            )
      ]

  abbrev pub bus_closed : I2cStatus
  bus_closed = st.failed I2cError.not_open "bus not open"

  unfoldable pub write : ℕ → List ℕ → Act CannedBus I2cStatus
  write address tx bus =
      if not bus.opened
      then (bus_closed, bus)
      else if is_empty tx
      then (st.failed I2cError.invalid_argument "write requires tx_len>0", bus)
      else (st.done, apply_write k c codec address tx bus)

  unfoldable pub read : ℕ → List ℕ → ℕ → Act CannedBus (I2cStatus × (List ℕ × ℕ))
  read address rx timeout_us bus =
      if bus.opened then emit_reply address rx bus else ((bus_closed, (rx, 0)), bus)

  unfoldable pub write_then_read : ℕ → List ℕ → List ℕ → Act CannedBus (I2cStatus × (List ℕ × ℕ))
  write_then_read address tx rx bus =
      let written = if is_empty tx then bus else apply_write k c codec address tx bus in
      if not bus.opened
      then ((bus_closed, (rx, 0)), bus)
      else if is_empty rx
      then ((st.done, (rx, 0)), written)
      else emit_reply address rx written

  -- CrumbsCannedBus::open, close and delay_us are in the record.
  abbrev pub canned_i2c : I2cBus CannedBus
  canned_i2c = record {
    open_bus = λ bus. (st.done, record bus { opened = true });
    close = λ bus. record bus { opened = false };
    write = write;
    read = read;
    delay_us = λ us bus. bus;
  }
