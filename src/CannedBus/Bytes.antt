-- ===== src/CannedBus/Bytes.antt =====
-- What a canned device holds and reports stays in the range of bytes.
use anolis_provider_bread.Base.{
  ℕ, zero, suc, ◌+◌, ◌^◌, ◌<◌, ◌≡◌, refl, List, [], ◌∷◌, All, arith, leb, ◌==◌, ◌&&◌, has_both,
  update,
}
use anolis_provider_bread.Frames.{set_reply_opcode}
use anolis_provider_bread.Contracts.{Contracts}
use anolis_provider_bread.Wire.{Message, DeviceConstants}
use anolis_provider_bread.CannedBus.Device.{DeviceState, byte_at}
use anolis_provider_bread.CannedBus.{
  next_outcome, acknowledge, act_common, act_rlht, act, command, receive, is_positive, pred,
}

abbrev pub IsByte : ℕ → Type 0
IsByte b = b < 2 ^ 8

-- The bytes of a device that its replies carry as they are.
pub record IsDevice (dev : DeviceState) : Type 0 where
  pub type_fits : IsByte dev.type_id
  pub pending_fits : IsByte dev.pending_reply_opcode
  pub counter_fits : IsByte dev.ack_counter
  pub opcode_fits : IsByte dev.ack_opcode
  pub status_fits : IsByte dev.ack_status
  pub reason_fits : IsByte dev.ack_reason
  pub outcomes_fit : All (λ outcome. IsByte outcome.0 × IsByte outcome.1) dev.next_outcomes

byte_at-IsByte : (bytes : List ℕ) (i : ℕ) → All IsByte bytes → IsByte (byte_at bytes i)
byte_at-IsByte [] i h = omega arith
byte_at-IsByte (b ∷ bytes) zero (h, hs) = h
byte_at-IsByte (b ∷ bytes) (suc i) (h, hs) = byte_at-IsByte bytes i hs

-- Two states that differ at most in the outputs, the watchdog and the counts of writes.
abbrev pub SameLink : DeviceState → DeviceState → Type 0
SameLink a b =
    (a.type_id ≡ b.type_id)
    × (a.pending_reply_opcode ≡ b.pending_reply_opcode)
    × (a.has_pending ≡ b.has_pending)
    × (a.ack_counter ≡ b.ack_counter)
    × (a.ack_opcode ≡ b.ack_opcode)
    × (a.ack_status ≡ b.ack_status)
    × (a.ack_reason ≡ b.ack_reason)
    × (a.next_outcomes ≡ b.next_outcomes)

same_link : (dev : DeviceState) → SameLink dev dev
same_link dev = (refl, refl, refl, refl, refl, refl, refl, refl)

-- IsDevice, from the fields that it speaks of.
linked : (a b : DeviceState) → SameLink a b → IsDevice b → IsDevice a
linked a b (type, pending, has, counter, opcode, status, reason, outcomes) h = record {
  type_fits = rw type h.type_fits;
  pending_fits = rw pending h.pending_fits;
  counter_fits = rw counter h.counter_fits;
  opcode_fits = rw opcode h.opcode_fits;
  status_fits = rw status h.status_fits;
  reason_fits = rw reason h.reason_fits;
  outcomes_fit = rw outcomes h.outcomes_fit;
}

module _ (k : DeviceConstants) (c : Contracts) where
  act_common-SameLink : (m : Message) (dev : DeviceState) → SameLink (act_common k c m dev) dev
  unfolding act_common
  act_common-SameLink m dev = ground arith

  act_rlht-SameLink : (m : Message) (dev : DeviceState) → SameLink (act_rlht k c m dev) dev
  unfolding act_rlht
  act_rlht-SameLink m dev = ground (arith, act_common-SameLink m dev)

  pub act-SameLink : (m : Message) (dev : DeviceState) → SameLink (act k c m dev) dev
  unfolding act
  act-SameLink m dev = ground (arith, act_rlht-SameLink m dev)

  acknowledge-IsDevice :
      (m : Message) (dev : DeviceState)
      → IsByte k.ack_applied
      → IsByte m.opcode
      → IsDevice dev
      → IsDevice (acknowledge k m dev)
  unfolding acknowledge next_outcome
  acknowledge-IsDevice m dev ha hm h =
      let (status, reason, rest) = next_outcome_fits dev.next_outcomes h.outcomes_fit in
      record {
        type_fits = h.type_fits;
        pending_fits = h.pending_fits;
        counter_fits = omega arith;
        opcode_fits = hm;
        status_fits = status;
        reason_fits = reason;
        outcomes_fit = rest;
      }
    where
      next_outcome_fits :
          (outcomes : List (ℕ × ℕ))
          → All (λ outcome. IsByte outcome.0 × IsByte outcome.1) outcomes
          → IsByte (next_outcome k outcomes).0.0
            × IsByte (next_outcome k outcomes).0.1
            × All (λ outcome. IsByte outcome.0 × IsByte outcome.1) (next_outcome k outcomes).1
      next_outcome_fits [] h = (ha, omega arith, tt)
      next_outcome_fits (outcome ∷ rest) ((h₁, h₂), hs) = (h₁, h₂, hs)

  command-IsDevice :
      (m : Message) (dev : DeviceState)
      → IsByte k.ack_applied
      → IsByte m.opcode
      → IsDevice dev
      → IsDevice (command k c m dev)
  unfolding command
  command-IsDevice m dev ha hm h =
      let counted = record dev {
        writes_by_opcode = update dev.writes_by_opcode m.opcode (dev.writes_by_opcode m.opcode + 1);
      } in
      let acked = acknowledge k m counted in
      let counted-IsDevice = linked counted dev (same_link dev) h in
      let acked-IsDevice = acknowledge-IsDevice m counted ha hm counted-IsDevice in
      has_both IsDevice (is_positive dev.drop_count)
        (linked (record counted { drop_count = pred dev.drop_count }) dev (same_link dev) h)
        (has_both IsDevice (acked.ack_status == k.ack_applied)
          (linked (act k c m acked) acked (act-SameLink m acked) acked-IsDevice) acked-IsDevice)

  -- Whatever message arrives, a device of bytes stays one.
  pub receive-IsDevice :
      (m : Message) (dev : DeviceState)
      → IsByte k.ack_applied
      → IsByte m.opcode
      → All IsByte m.bytes
      → IsDevice dev
      → IsDevice (receive k c m dev)
  unfolding receive
  receive-IsDevice m dev ha hm hb h =
      has_both IsDevice (m.opcode == set_reply_opcode && leb 1 m.data_len)
        (record {
          type_fits = h.type_fits;
          pending_fits = byte_at-IsByte m.bytes 0 hb;
          counter_fits = h.counter_fits;
          opcode_fits = h.opcode_fits;
          status_fits = h.status_fits;
          reason_fits = h.reason_fits;
          outcomes_fit = h.outcomes_fit;
        })
        (command-IsDevice m dev ha hm h)
