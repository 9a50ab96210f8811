-- ===== src/CannedBus/Commands.antt =====
-- What a message does to a canned device: the acknowledgement record and the watchdog's trip.
use anolis_provider_bread.Base.{
  ℕ, ◌+◌, ◌%◌, ◌^◌, Bool, true, false, ◌⊎◌, inl, inr, ◌≡◌, ◌≢◌, refl, ◌∙◌, List, [], ◌∷◌, ◌&&◌, leb,
  ◌==◌, update, Bool-cases, All, arith,
}
use anolis_provider_bread.Frames.{set_reply_opcode}
use anolis_provider_bread.Contracts.{Contracts}
use anolis_provider_bread.Wire.{Message, DeviceConstants}
use anolis_provider_bread.CannedBus.Device.{DeviceState, byte_at}
use anolis_provider_bread.CannedBus.{
  is_positive, pred, next_outcome, acknowledge, act_common, act_rlht, act, command, receive,
}
use anolis_provider_bread.CannedBus.Answers.{staged}
use anolis_provider_bread.CannedBus.Bytes.{act-SameLink}

-- What a command may set: the outputs, and the watchdog.
abbrev pub SameOutputs : DeviceState → DeviceState → Type 0
SameOutputs a b =
    (a.watchdog_timeout_ms ≡ b.watchdog_timeout_ms)
    × (a.watchdog_tripped ≡ b.watchdog_tripped)
    × (a.dcmt_mode ≡ b.dcmt_mode)
    × (a.dcmt_m1_pwm ≡ b.dcmt_m1_pwm)
    × (a.dcmt_m2_pwm ≡ b.dcmt_m2_pwm)
    × (a.rlht_mode ≡ b.rlht_mode)
    × (a.rlht_sp1_deci_c ≡ b.rlht_sp1_deci_c)
    × (a.rlht_sp2_deci_c ≡ b.rlht_sp2_deci_c)
    × (a.rlht_on1_ms ≡ b.rlht_on1_ms)
    × (a.rlht_on2_ms ≡ b.rlht_on2_ms)
    × (a.rlht_tc1 ≡ b.rlht_tc1)
    × (a.rlht_tc2 ≡ b.rlht_tc2)

abbrev pub SameAck : DeviceState → DeviceState → Type 0
SameAck a b =
    (a.ack_counter ≡ b.ack_counter)
    × (a.ack_opcode ≡ b.ack_opcode)
    × (a.ack_status ≡ b.ack_status)
    × (a.ack_reason ≡ b.ack_reason)

abbrev pub is_staging : Message → Bool
is_staging m = m.opcode == set_reply_opcode && leb 1 m.data_len

module _ (k : DeviceConstants) (c : Contracts) where
  -- The record after a command that arrives, whose outcome is `outcome`.
  abbrev pub Acknowledges : ℕ × ℕ → Message → DeviceState → DeviceState → Type 0
  Acknowledges (status, reason) m dev dev' =
      (dev'.ack_counter ≡ (dev.ack_counter + 1) % 2 ^ 8)
      × (dev'.ack_opcode ≡ m.opcode)
      × (dev'.ack_status ≡ status)
      × (dev'.ack_reason ≡ reason)

  abbrev pub Counts : Message → DeviceState → DeviceState → Type 0
  Counts m dev dev' =
      dev'.writes_by_opcode
      ≡ update dev.writes_by_opcode m.opcode (dev.writes_by_opcode m.opcode + 1)

  same_outputs : (dev : DeviceState) → SameOutputs dev dev
  same_outputs dev = (refl, refl, refl, refl, refl, refl, refl, refl, refl, refl, refl, refl)

  act_common-Counts :
      (m : Message) (dev : DeviceState)
      → (act_common k c m dev).writes_by_opcode ≡ dev.writes_by_opcode
  unfolding act_common
  act_common-Counts m dev = ground arith

  act_rlht-Counts :
      (m : Message) (dev : DeviceState)
      → (act_rlht k c m dev).writes_by_opcode ≡ dev.writes_by_opcode
  unfolding act_rlht
  act_rlht-Counts m dev = ground (arith, act_common-Counts m dev)

  act-Counts :
      (m : Message) (dev : DeviceState) → (act k c m dev).writes_by_opcode ≡ dev.writes_by_opcode
  unfolding act
  act-Counts m dev = ground (arith, act_rlht-Counts m dev)

  module _ (m : Message) (dev : DeviceState) where
    abbrev pub outcome : ℕ × ℕ
    outcome = (next_outcome k dev.next_outcomes).0

    -- A lost command: only the count of writes sees it, and one loss less is left.
    abbrev pub Lost : DeviceState → Type 0
    Lost dev' =
        (is_positive dev.drop_count ≡ true)
        × Counts m dev dev'
        × (dev'.drop_count ≡ pred dev.drop_count)
        × SameAck dev' dev
        × SameOutputs dev' dev

    -- A command that is refused or rejected is counted in the record and sets nothing.
    abbrev pub Rejected : DeviceState → Type 0
    Rejected dev' =
        (is_positive dev.drop_count ≡ false)
        × ((outcome.0 == k.ack_applied) ≡ false)
        × Counts m dev dev'
        × Acknowledges outcome m dev dev'
        × SameOutputs dev' dev

    abbrev pub Applied : DeviceState → Type 0
    Applied dev' =
        (is_positive dev.drop_count ≡ false)
        × ((outcome.0 == k.ack_applied) ≡ true)
        × Counts m dev dev'
        × Acknowledges outcome m dev dev'

    abbrev counted : DeviceState
    counted = record dev {
      writes_by_opcode = update dev.writes_by_opcode m.opcode (dev.writes_by_opcode m.opcode + 1);
    }

    acknowledge-Acknowledges :
        Acknowledges outcome m dev (acknowledge k m counted)
        × Counts m dev (acknowledge k m counted)
        × SameOutputs (acknowledge k m counted) dev
    unfolding acknowledge
    acknowledge-Acknowledges = ((refl, refl, refl, refl), refl, same_outputs dev)

    command-cases :
        Lost (command k c m dev) ⊎ (Rejected (command k c m dev) ⊎ Applied (command k c m dev))
    unfolding command
    command-cases =
        let acked = acknowledge k m counted in
        let ((counter, opcode, status, reason), counts, same) = acknowledge-Acknowledges in
        elim (Bool-cases (is_positive dev.drop_count)) [
          | inl lost ↦ inl (rw lost (refl, refl, refl, (refl, refl, refl, refl), same_outputs dev))
          | inr kept ↦ elim (Bool-cases (acked.ack_status == k.ack_applied)) [
            | inr bad ↦ inr (
                inl (
                  rw (kept, bad)
                    (refl, rw status at bad, counts, (counter, opcode, status, reason), same)))
            | inl good ↦
                let (_, _, _, counter', opcode', status', reason', _) = act-SameLink k c m acked in
                inr (
                  inr (
                    rw (kept, good)
                      (
                        refl,
                        rw status at good,
                        act-Counts m acked ∙ counts,
                        (counter' ∙ counter, opcode' ∙ opcode, status' ∙ status, reason' ∙ reason),
                      )))
          ]
        ]

    -- SET_REPLY sets the pending query and nothing else. Any other message is counted as a write of
    -- its opcode, and is lost, rejected or applied: a lost one changes neither the acknowledgement
    -- record nor the outputs; another one moves the counter of the record by one, modulo 256, and is
    -- recorded with its outcome, and changes the outputs only if that outcome is "applied".
    pub receive-cases :
        ((is_staging m ≡ true) × (receive k c m dev ≡ staged (byte_at m.bytes 0) dev))
        ⊎ ((is_staging m ≡ false)
            × (Lost (receive k c m dev)
                ⊎ (Rejected (receive k c m dev) ⊎ Applied (receive k c m dev))))
    unfolding receive
    receive-cases = elim (Bool-cases (is_staging m)) [
      | inl e ↦ inl (e, rw e refl)
      | inr e ↦ inr (e, rw e command-cases)
    ]

  act_common-trip :
      (m : Message) (dev : DeviceState)
      → ((m.opcode ≡ c.bread.op_clear_watchdog_trip) × (m.data_len ≡ k.clear_trip_payload_len))
        ⊎ ((act_common k c m dev).watchdog_tripped ≡ dev.watchdog_tripped)
  unfolding act_common
  act_common-trip m dev = ground arith

  act_rlht-trip :
      (m : Message) (dev : DeviceState)
      → ((m.opcode ≡ c.bread.op_clear_watchdog_trip) × (m.data_len ≡ k.clear_trip_payload_len))
        ⊎ ((act_rlht k c m dev).watchdog_tripped ≡ dev.watchdog_tripped)
  unfolding act_rlht
  act_rlht-trip m dev = ground (arith, act_common-trip m dev)

  act-trip :
      (m : Message) (dev : DeviceState)
      → ((m.opcode ≡ c.bread.op_clear_watchdog_trip) × (m.data_len ≡ k.clear_trip_payload_len))
        ⊎ ((act k c m dev).watchdog_tripped ≡ dev.watchdog_tripped)
  unfolding act
  act-trip m dev = ground (arith, act_rlht-trip m dev)

  -- A message that is no CLEAR_WATCHDOG_TRIP of the right length.
  abbrev pub IsNoClear : Message → Type 0
  IsNoClear m =
      (m.opcode ≢ c.bread.op_clear_watchdog_trip) ⊎ (m.data_len ≢ k.clear_trip_payload_len)

  receive-trip :
      (m : Message) (dev : DeviceState)
      → IsNoClear m
      → dev.watchdog_tripped ≡ true
      → (receive k c m dev).watchdog_tripped ≡ true
  unfolding receive command acknowledge
  receive-trip m dev h e =
      let counted' = counted m dev in ground (arith, act-trip m (acknowledge k m counted'))

  -- The messages, in order.
  abbrev pub receive_all : List Message → DeviceState → DeviceState
  receive_all [] dev = dev
  receive_all (m ∷ ms) dev = receive_all ms (receive k c m dev)

  -- A trip stays set through any sequence of messages, SET_WATCHDOG included, that has no
  -- CLEAR_WATCHDOG_TRIP of the right length.
  pub receive_all-trip :
      (ms : List Message) (dev : DeviceState)
      → All IsNoClear ms
      → dev.watchdog_tripped ≡ true
      → (receive_all ms dev).watchdog_tripped ≡ true
  receive_all-trip [] dev h e = e
  receive_all-trip (m ∷ ms) dev (h, hs) e =
      receive_all-trip ms (receive k c m dev) hs (receive-trip m dev h e)
