-- ===== src/CannedBus/Outputs.antt =====
-- What an applied output command sets, GET_STATE reports.
use anolis_provider_bread.Base.{
  ℕ, ◌+◌, ◌*◌, ◌%◌, ◌/◌, ◌^◌, ◌<◌, ℤ, ◌≤ℤ◌, int16_min, int16_max, to_u16, to_u16-lt, to_i16-to_u16,
  ◌≡◌, ◌≢◌, refl, ap, ◌∙◌, false, List, [], ◌++◌, some, drop, ==_refl, ◌==◌, arith, update,
  replicate, ◌-◌,
}
use anolis_provider_bread.Frames.{set_reply_opcode}
use anolis_provider_bread.Contracts.{Contracts}
use anolis_provider_bread.AdapterHelpers.{append_i16_le, read_i16_le, read_u16_le}
use anolis_provider_bread.Wire.{Message, DeviceConstants, Codec}
use anolis_provider_bread.CrumbsTransport.{populate_message}
use anolis_provider_bread.CannedBus.Device.{
  DeviceState, data_u16_le, data_i16_le, build_dcmt_state_payload, build_rlht_state_payload,
}
use anolis_provider_bread.CannedBus.{
  is_positive, next_outcome, acknowledge, act_rlht, act, command, receive,
}

-- Two signed values as a payload.
abbrev pub pair_payload : ℤ → ℤ → List ℕ
pair_payload a b = append_i16_le (append_i16_le [] a) b

abbrev pub InI16 : ℤ → Type 0
InI16 a = (int16_min ≤ℤ a) × (a ≤ℤ int16_max)

joined : (v : ℕ) → v < 2 ^ 16 → (v % 2 ^ 8 + v / 2 ^ 8 % 2 ^ 8 * 2 ^ 8) % 2 ^ 16 ≡ v
joined v h = omega arith

data_i16_le-pair :
    (a b : ℤ) (rest : List ℕ)
    → InI16 a
    → InI16 b
    → (data_i16_le (pair_payload a b ++ rest) ≡ a)
      × (data_i16_le (drop 2 (pair_payload a b ++ rest)) ≡ b)
unfolding data_i16_le data_u16_le
data_i16_le-pair a b rest (la, ha) (lb, hb) = (
  rw (joined (to_u16 a) (to_u16-lt a)) (to_i16-to_u16 a la ha),
  rw (joined (to_u16 b) (to_u16-lt b)) (to_i16-to_u16 b lb hb),
)

halves : (v : ℕ) → v < 2 ^ 16 → v % 2 ^ 8 + v / 2 ^ 8 % 2 ^ 8 * 2 ^ 8 ≡ v
halves v h = omega arith

-- The reported state reads as the PWM that the device holds.
dcmt_state-reads :
    (k : DeviceConstants) (dev : DeviceState)
    → InI16 dev.dcmt_m1_pwm
    → InI16 dev.dcmt_m2_pwm
    → (read_i16_le (build_dcmt_state_payload k dev) 1 ≡ some dev.dcmt_m1_pwm)
      × (read_i16_le (build_dcmt_state_payload k dev) 3 ≡ some dev.dcmt_m2_pwm)
unfolding read_i16_le read_u16_le build_dcmt_state_payload
dcmt_state-reads k dev (la, ha) (lb, hb) = (
  rw (halves (to_u16 dev.dcmt_m1_pwm) (to_u16-lt dev.dcmt_m1_pwm))
      (ap some (to_i16-to_u16 dev.dcmt_m1_pwm la ha)),
  rw (halves (to_u16 dev.dcmt_m2_pwm) (to_u16-lt dev.dcmt_m2_pwm))
      (ap some (to_i16-to_u16 dev.dcmt_m2_pwm lb hb)),
)

rlht_state-reads :
    (c : Contracts) (dev : DeviceState)
    → InI16 dev.rlht_sp1_deci_c
    → InI16 dev.rlht_sp2_deci_c
    → (read_i16_le (build_rlht_state_payload c dev) 6 ≡ some dev.rlht_sp1_deci_c)
      × (read_i16_le (build_rlht_state_payload c dev) 8 ≡ some dev.rlht_sp2_deci_c)
unfolding read_i16_le read_u16_le build_rlht_state_payload
rlht_state-reads c dev (la, ha) (lb, hb) = (
  rw (halves (to_u16 dev.rlht_sp1_deci_c) (to_u16-lt dev.rlht_sp1_deci_c))
      (ap some (to_i16-to_u16 dev.rlht_sp1_deci_c la ha)),
  rw (halves (to_u16 dev.rlht_sp2_deci_c) (to_u16-lt dev.rlht_sp2_deci_c))
      (ap some (to_i16-to_u16 dev.rlht_sp2_deci_c lb hb)),
)

module _ {X : Type 0} (codec : Codec X) (k : DeviceConstants) (c : Contracts) where
  -- The message of a command frame with two signed values.
  abbrev pub pair_message : ℕ → ℕ → ℤ → ℤ → Message
  pair_message type_id opcode a b =
      populate_message codec
        (record { type_id = type_id; opcode = opcode; payload = pair_payload a b })

  -- The next command arrives, and nothing makes the device refuse it.
  abbrev pub Accepts : DeviceState → Type 0
  Accepts dev = (is_positive dev.drop_count ≡ false) × (dev.next_outcomes ≡ [])

  -- The device when it acts on a command that it accepts.
  abbrev pub accepted : Message → DeviceState → DeviceState
  accepted m dev = record dev {
    writes_by_opcode = update dev.writes_by_opcode m.opcode (dev.writes_by_opcode m.opcode + 1);
    next_outcomes = [];
    ack_opcode = m.opcode;
    ack_status = k.ack_applied;
    ack_reason = 0;
    ack_counter = (dev.ack_counter + 1) % 2 ^ 8;
  }

  acknowledge-accepted :
      (m : Message) (dev : DeviceState)
      → dev.next_outcomes ≡ []
      → acknowledge k m (record dev {
        writes_by_opcode = update dev.writes_by_opcode m.opcode (dev.writes_by_opcode m.opcode + 1);
      })
        ≡ accepted m dev
  unfolding acknowledge next_outcome
  acknowledge-accepted m dev none_left =
      let e = ap (λ l. next_outcome k l) none_left in
      ap
        (λ r. record dev {
          writes_by_opcode =
              update dev.writes_by_opcode m.opcode (dev.writes_by_opcode m.opcode + 1);
          next_outcomes = r.1;
          ack_opcode = m.opcode;
          ack_status = r.0.0;
          ack_reason = r.0.1;
          ack_counter = (dev.ack_counter + 1) % 2 ^ 8;
        })
        (e ∙ next_outcome-none)
    where
      next_outcome-none : next_outcome k [] ≡ ((k.ack_applied, 0), [])
      next_outcome-none = refl

  pub receive-accepted :
      (m : Message) (dev : DeviceState)
      → Accepts dev
      → (m.opcode == set_reply_opcode) ≡ false
      → receive k c m dev ≡ act k c m (accepted m dev)
  unfolding receive command
  receive-accepted m dev (arrives, none_left) other =
      rw (other, arrives, acknowledge-accepted m dev none_left, ==_refl k.ack_applied) refl

  pub not_staging : (opcode : ℕ) → opcode ≢ set_reply_opcode → (opcode == set_reply_opcode) ≡ false
  not_staging opcode h = ground arith

  open_loop-set :
      (a b : ℤ) (dev : DeviceState)
      → Accepts dev
      → dev.type_id ≡ c.dcmt.type_id
      → c.dcmt.op_set_open_loop ≢ set_reply_opcode
      → InI16 a
      → InI16 b
      → (let dev' = receive k c (pair_message c.dcmt.type_id c.dcmt.op_set_open_loop a b) dev in
          (dev'.dcmt_m1_pwm ≡ a) × (dev'.dcmt_m2_pwm ≡ b))
  unfolding act populate_message
  open_loop-set a b dev accepts type other ha hb =
      let m = pair_message c.dcmt.type_id c.dcmt.op_set_open_loop a b in
      let rest : List ℕ = replicate (codec.max_payload - 4) 0 in
      rw
        (
          receive-accepted m dev accepts (not_staging c.dcmt.op_set_open_loop other),
          type,
          ==_refl c.dcmt.type_id,
          ==_refl c.dcmt.op_set_open_loop,
        )
        (data_i16_le-pair a b rest ha hb)

  -- SET_OPEN_LOOP, then GET_STATE: a DCMT that accepts the command reports the two PWM values that
  -- it was sent, sign included, for every pair of 16-bit values.
  pub open_loop-reported :
      (a b : ℤ) (dev : DeviceState)
      → Accepts dev
      → dev.type_id ≡ c.dcmt.type_id
      → c.dcmt.op_set_open_loop ≢ set_reply_opcode
      → InI16 a
      → InI16 b
      → (let dev' = receive k c (pair_message c.dcmt.type_id c.dcmt.op_set_open_loop a b) dev in
          (read_i16_le (build_dcmt_state_payload k dev') 1 ≡ some a)
          × (read_i16_le (build_dcmt_state_payload k dev') 3 ≡ some b))
  open_loop-reported a b dev accepts type other ha hb =
      let dev' = receive k c (pair_message c.dcmt.type_id c.dcmt.op_set_open_loop a b) dev in
      let (first, second) = open_loop-set a b dev accepts type other ha hb in
      let (one, two) = dcmt_state-reads k dev' (rw first ha) (rw second hb) in
      (one ∙ ap some first, two ∙ ap some second)

  pub not_same : (a b : ℕ) → a ≢ b → (a == b) ≡ false
  not_same a b h = ground arith

  setpoints-set :
      (a b : ℤ) (dev : DeviceState)
      → Accepts dev
      → dev.type_id ≡ c.rlht.type_id
      → c.rlht.type_id ≢ c.dcmt.type_id
      → c.rlht.op_set_setpoints ≢ c.rlht.op_set_mode
      → c.rlht.op_set_setpoints ≢ set_reply_opcode
      → InI16 a
      → InI16 b
      → (let dev' = receive k c (pair_message c.rlht.type_id c.rlht.op_set_setpoints a b) dev in
          (dev'.rlht_sp1_deci_c ≡ a) × (dev'.rlht_sp2_deci_c ≡ b))
  unfolding act act_rlht populate_message
  setpoints-set a b dev accepts type families mode other ha hb =
      let m = pair_message c.rlht.type_id c.rlht.op_set_setpoints a b in
      let rest : List ℕ = replicate (codec.max_payload - 4) 0 in
      rw
        (
          receive-accepted m dev accepts (not_staging c.rlht.op_set_setpoints other),
          type,
          not_same c.rlht.type_id c.dcmt.type_id families,
          not_same c.rlht.op_set_setpoints c.rlht.op_set_mode mode,
          ==_refl c.rlht.type_id,
          ==_refl c.rlht.op_set_setpoints,
        )
        (data_i16_le-pair a b rest ha hb)

  -- SET_SETPOINTS, then GET_STATE: an RLHT that accepts the command reports the two setpoints that it
  -- was sent.
  pub setpoints-reported :
      (a b : ℤ) (dev : DeviceState)
      → Accepts dev
      → dev.type_id ≡ c.rlht.type_id
      → c.rlht.type_id ≢ c.dcmt.type_id
      → c.rlht.op_set_setpoints ≢ c.rlht.op_set_mode
      → c.rlht.op_set_setpoints ≢ set_reply_opcode
      → InI16 a
      → InI16 b
      → (let dev' = receive k c (pair_message c.rlht.type_id c.rlht.op_set_setpoints a b) dev in
          (read_i16_le (build_rlht_state_payload c dev') 6 ≡ some a)
          × (read_i16_le (build_rlht_state_payload c dev') 8 ≡ some b))
  setpoints-reported a b dev accepts type families mode other ha hb =
      let dev' = receive k c (pair_message c.rlht.type_id c.rlht.op_set_setpoints a b) dev in
      let (first, second) = setpoints-set a b dev accepts type families mode other ha hb in
      let (one, two) = rlht_state-reads c dev' (rw first ha) (rw second hb) in
      (one ∙ ap some first, two ∙ ap some second)
