-- ===== src/SetConfirm/Sends.antt =====
-- What transmit_confirmed sends, and what its OK means.
use anolis_provider_bread.Base.{
  ℕ, zero, suc, ◌+◌, ◌≤◌, ◌<◌, String, ◌<>◌, false, ◌⊎◌, inl, inr, ◌≡◌, ◌≢◌, refl, [], ◌∷◌, length,
  All, arith,
}
use anolis_provider_bread.Frames.{SessionStatus, is_ok, RawFrame}
use anolis_provider_bread.SessionApi.{SessionApi}
use anolis_provider_bread.SessionApi.Log.{Sent, logged, copies}
use anolis_provider_bread.Contracts.{Contracts, Ack, AckOutcome}
use anolis_provider_bread.Devices.{InventoryDevice, AdapterCallResult, StatusCode}
use anolis_provider_bread.AdapterHelpers.{call_failed, call_error_from_session}
use anolis_provider_bread.SetConfirm.{
  SetConfirmation, set_confirmation, AckRead, ack_read, ack_failed, read_ack, send_round,
  confirm_loop, transmit_confirmed, transmit_acknowledged, transmit_unconfirmed,
}
use anolis_provider_bread.SetConfirm.Outcomes.{
  Decides, NotAdvanced, judge-Decides, judge-NotAdvanced,
}
use anolis_provider_bread.SetConfirm.Rounds.{
  EndsAt, round_state, confirm_loop-EndsAt, read_ack_loop-logged,
}

abbrev pub SameSends : ℕ × RawFrame → Sent → Type 0
SameSends sent = All (λ other. other ≡ sent)

copies_lem :
    (n : ℕ) (sent : ℕ × RawFrame) (l : Sent)
    → SameSends sent l
    → (length (copies n sent l) ≡ n + length l) × SameSends sent (copies n sent l)
copies_lem zero sent l h = (omega arith, h)
copies_lem (suc n) sent l h =
    let (len, same) = copies_lem n sent (sent ∷ l) (refl, h) in (omega (arith, len), same)

AckRead-cases :
    (r : AckRead) → ((why : String) × (r ≡ ack_failed why)) ⊎ ((ack : Ack) × (r ≡ ack_read ack))
AckRead-cases (ack_failed why) = inl (why, refl)
AckRead-cases (ack_read ack) = inr (ack, refl)

confirmation-cases :
    (k : SetConfirmation) → (k ≡ SetConfirmation.unconfirmed) ⊎ (k ≢ SetConfirmation.unconfirmed)
confirmation-cases SetConfirmation.unconfirmed = inl refl
confirmation-cases SetConfirmation.acknowledged = inr (λ e. cc)
confirmation-cases SetConfirmation.delivery_only = inr (λ e. cc)

module _ (c : Contracts) {S : Type 0} (api : SessionApi S) where
  read_ack-logged :
      (address : ℕ) (s : S) (l : Sent)
      → read_ack c (logged api) address (s, l)
        ≡ (let (r, s') = read_ack c api address s in (r, (s', l)))
  unfolding read_ack
  read_ack-logged address s l = read_ack_loop-logged c api address c.crumbs.ack_read_attempts "" s l

  module _ (device : InventoryDevice) (frame : RawFrame) (op : String) (s : S) where
    -- The three ways in which a call goes.
    abbrev pub Unconfirmed : AdapterCallResult × (S × Sent) → Type 0
    Unconfirmed (result, (s', l')) =
        (set_confirmation c device ≡ SetConfirmation.unconfirmed)
        × (l' ≡ (device.address, frame) ∷ [])
        × (result.ok ≡ is_ok (api.send device.address frame s).0)

    abbrev pub NotSent : AdapterCallResult × (S × Sent) → Type 0
    NotSent (result, (s', l')) =
        ((why : String) × ((read_ack c api device.address s).0 ≡ ack_failed why))
        × (l' ≡ [])
        × (result.ok ≡ false)
        × (result.error_code ≡ StatusCode.code_unavailable)

    abbrev pub Looped : AdapterCallResult × (S × Sent) → Type 0
    Looped r =
        (before : Ack) × ((read_ack c api device.address s).0 ≡ ack_read before)
        × ((k : ℕ) × EndsAt c api op device.address frame before k 2
              (read_ack c api device.address s).1 [] r)

    baseline_failed :
        (why : String)
        → (read_ack c api device.address s).0 ≡ ack_failed why
        → transmit_acknowledged c (logged api) device.address frame op (s, []) ≡ (
          call_failed StatusCode.code_unavailable
              (op <> " not sent: GET_ACK baseline failed: " <> why),
          ((read_ack c api device.address s).1, []),
        )
    unfolding transmit_acknowledged
    baseline_failed why e = ground (arith, read_ack-logged device.address s [])

    baseline_read :
        (before : Ack)
        → (read_ack c api device.address s).0 ≡ ack_read before
        → transmit_acknowledged c (logged api) device.address frame op (s, [])
          ≡ confirm_loop c
              (logged api)
              op
              device.address
              frame
              before
              3
              ((read_ack c api device.address s).1, [])
    unfolding transmit_acknowledged
    baseline_read before e = ground (arith, read_ack-logged device.address s [])

    acknowledged-cases :
        NotSent (transmit_acknowledged c (logged api) device.address frame op (s, []))
        ⊎ Looped (transmit_acknowledged c (logged api) device.address frame op (s, []))
    acknowledged-cases = elim (AckRead-cases (read_ack c api device.address s).0) [
      | inl (why, e) ↦ inl (rw (baseline_failed why e) ((why, e), refl, refl, refl))
      | inr (before, e) ↦ inr (
          rw (baseline_read before e) (
            before,
            e,
            confirm_loop-EndsAt c api op device.address frame before 2
                (read_ack c api device.address s).1 [],
          ))
    ]

    unconfirmed_lem :
        set_confirmation c device ≡ SetConfirmation.unconfirmed
        → Unconfirmed (transmit_confirmed c (logged api) device frame op (s, []))
    unfolding transmit_confirmed transmit_unconfirmed call_error_from_session
    unconfirmed_lem e = ground arith

    confirmed_lem :
        set_confirmation c device ≢ SetConfirmation.unconfirmed
        → transmit_confirmed c (logged api) device frame op (s, [])
          ≡ transmit_acknowledged c (logged api) device.address frame op (s, [])
    unfolding transmit_confirmed
    confirmed_lem h = ground arith

    -- The three ways, with the rounds as the code judges them.
    transmit_confirmed-judged :
        let r = transmit_confirmed c (logged api) device frame op (s, []) in
        Unconfirmed r
        ⊎ ((set_confirmation c device ≢ SetConfirmation.unconfirmed) × (NotSent r ⊎ Looped r))
    transmit_confirmed-judged = elim (confirmation-cases (set_confirmation c device)) [
      | inl e ↦ inl (unconfirmed_lem e)
      | inr h ↦ inr (h, rw (confirmed_lem h) acknowledged-cases)
    ]

    -- A call sends at most three frames, all of them the given frame to the given device.
    pub transmit_confirmed_sends :
        let (_, (_, l')) = transmit_confirmed c (logged api) device frame op (s, []) in
        (length l' ≤ 3) × SameSends (device.address, frame) l'
    transmit_confirmed_sends = elim transmit_confirmed-judged [
      | inl (_, sent, _) ↦ rw sent (omega arith, (refl, tt))
      | inr (_, inl (_, sent, _, _)) ↦ rw sent (omega arith, tt)
      | inr (_, inr (_, _, (k, (le, _, sent, _, _)))) ↦
          let (len, same) = copies_lem (suc k) (device.address, frame) [] tt in
          rw sent (omega (arith, len), same)
    ]

    -- What is read after send `j`, from 0 on.
    abbrev pub record_after : ℕ → AckRead
    record_after j =
        (send_round c api device.address frame
          (round_state c api device.address frame j (read_ack c api device.address s).1)).0.1

    -- The frame was sent k + 1 times: no record before the last was advanced, and the last decides the
    -- result, or was not advanced either after the third send.
    abbrev pub Confirmed : AdapterCallResult × (S × Sent) → Type 0
    Confirmed (result, (s', l')) =
        (before : Ack) × (k : ℕ) × ((read_ack c api device.address s).0 ≡ ack_read before)
        × (k ≤ 2)
        × (s' ≡ round_state c api device.address frame (suc k) (read_ack c api device.address s).1)
        × (l' ≡ copies (suc k) (device.address, frame) [])
        × ((j : ℕ) → j < k → NotAdvanced c frame.opcode before (record_after j))
        × (Decides c frame.opcode before (record_after k) result
            ⊎ (NotAdvanced c frame.opcode before (record_after k)
                × (k ≡ 2)
                × (result.ok ≡ false)
                × (result.error_code ≡ StatusCode.code_unavailable)))

    round_status : ℕ → SessionStatus
    round_status j =
        (send_round c api device.address frame
          (round_state c api device.address frame j (read_ack c api device.address s).1)).0.0

    Looped-Confirmed : (r : AdapterCallResult × (S × Sent)) → Looped r → Confirmed r
    unfolding round_status
    Looped-Confirmed (result, (s', l')) (before, base, (k, (le, at, sent, earlier, ends))) = (
      before,
      k,
      base,
      le,
      at,
      sent,
      λ j h.
          judge-NotAdvanced c op frame.opcode before (round_status j) (record_after j)
            (earlier j h),
      elim ends [
        | inl e ↦
            inl (judge-Decides c op frame.opcode before (round_status k) (record_after k) result e)
        | inr (e, last, text) ↦ inr (
          judge-NotAdvanced c op frame.opcode before (round_status k) (record_after k) e,
          last,
          rw text refl,
          rw text refl,
        )
      ],
    )

    -- A device below CRUMBS 1600 gets the frame once, and the call is OK exactly when the write is.
    -- For any other device the acknowledgement record is read first. If it cannot be read, nothing
    -- is sent and the call is unavailable. Otherwise the frame is sent 1 to 3 times and nothing
    -- else is: again only after a record that CRUMBS classifies as not advanced. The first other record
    -- decides the result: applied is OK, refused has the code of its reason, rejected and an invalid
    -- record are internal errors, and another command or an unknown state is unavailable. A record that
    -- cannot be read, and a third one that is not advanced, are unavailable too.
    pub transmit_confirmed-cases :
        let r = transmit_confirmed c (logged api) device frame op (s, []) in
        Unconfirmed r
        ⊎ ((set_confirmation c device ≢ SetConfirmation.unconfirmed) × (NotSent r ⊎ Confirmed r))
    transmit_confirmed-cases = elim transmit_confirmed-judged [
      | inl e ↦ inl e
      | inr (h, inl unsent) ↦ inr (h, inl unsent)
      | inr (h, inr looped) ↦ inr (h, inr (Looped-Confirmed _ looped))
    ]

    -- The records that an OK rests on: the baseline, and one read after a send of the frame, which
    -- CRUMBS classifies as applied against that baseline.
    abbrev pub Applied : Type 0
    Applied =
        (before : Ack) × (after : Ack) × (k : ℕ) × (k ≤ 2)
        × ((read_ack c api device.address s).0 ≡ ack_read before)
        × ((send_round c api device.address frame
              (round_state c api device.address frame k (read_ack c api device.address s).1)).0.1
            ≡ ack_read after)
        × (c.crumbs.ack_classify before after frame.opcode ≡ AckOutcome.set_applied)
