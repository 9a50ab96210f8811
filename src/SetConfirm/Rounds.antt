-- ===== src/SetConfirm/Rounds.antt =====
-- How the send loop of transmit_confirmed ends: which sends are made, and what decides the result.
use anolis_provider_bread.Base.{
  ℕ, zero, suc, ◌≤◌, ◌<◌, String, ◌⊎◌, inl, inr, ◌≡◌, refl, ap, Option, none, some, ◌∷◌,
  Option-cases, arith,
}
use anolis_provider_bread.Frames.{RawFrame, empty_frame}
use anolis_provider_bread.SessionApi.{SessionApi}
use anolis_provider_bread.SessionApi.Log.{Sent, logged, copies}
use anolis_provider_bread.Contracts.{Contracts, Ack}
use anolis_provider_bread.Devices.{AdapterCallResult}
use anolis_provider_bread.SetConfirm.{
  not_a_record, judge, not_applied, read_ack_loop, read_ack, send_round, confirm_loop,
}

module _ (c : Contracts) {S : Type 0} (api : SessionApi S) where
  -- Reading a record sends no frame.
  pub read_ack_loop-logged :
      (address rounds : ℕ) (why : String) (s : S) (l : Sent)
      → read_ack_loop c (logged api) address rounds why (s, l)
        ≡ (let (r, s') = read_ack_loop c api address rounds why s in (r, (s', l)))
  unfolding read_ack_loop
  read_ack_loop-logged address zero why s l = refl
  read_ack_loop-logged address (suc rounds) why s l =
      let ((_, reply), s') = api.query_read address c.crumbs.cmd_get_ack empty_frame s in
      ground (
        arith,
        read_ack_loop-logged address rounds (not_a_record reply.opcode)
            (api.record_rejection address s') l,
      )

  -- The session after `k` rounds, and what round k + 1 comes to.
  abbrev pub round_state : ℕ → RawFrame → ℕ → S → S
  round_state address frame zero s = s
  round_state address frame (suc k) s =
      round_state address frame k (send_round c api address frame s).1

  abbrev pub judged : String → ℕ → RawFrame → Ack → S → Option AdapterCallResult
  judged op address frame before s =
      let ((send_status, after), _) = send_round c api address frame s in
      judge c op before frame.opcode send_status after

  module _ (op : String) (address : ℕ) (frame : RawFrame) (before : Ack) where
    -- The loop made k + 1 sends of the frame and no other: every earlier record was not advanced,
    -- and the last gave the result, or it was the last send allowed.
    abbrev pub EndsAt : ℕ → ℕ → S → Sent → AdapterCallResult × (S × Sent) → Type 0
    EndsAt k rounds s l (result, (s', l')) =
        (k ≤ rounds)
        × (s' ≡ round_state address frame (suc k) s)
        × (l' ≡ copies (suc k) (address, frame) l)
        × ((j : ℕ) → j < k → judged op address frame before (round_state address frame j s) ≡ none)
        × ((judged op address frame before (round_state address frame k s) ≡ some result)
            ⊎ ((judged op address frame before (round_state address frame k s) ≡ none)
                × (k ≡ rounds)
                × (result ≡ not_applied op)))

    send_round-logged :
        (s : S) (l : Sent)
        → send_round c (logged api) address frame (s, l)
          ≡ (let (r, s') = send_round c api address frame s in (r, (s', (address, frame) ∷ l)))
    unfolding send_round read_ack
    send_round-logged s l =
        let (status, s1) = api.send address frame s in
        ground (
          arith,
          read_ack_loop-logged address c.crumbs.ack_read_attempts "" s1 ((address, frame) ∷ l),
        )

    loop-settled :
        (rounds : ℕ) (s : S) (l : Sent) (result : AdapterCallResult)
        → judged op address frame before s ≡ some result
        → confirm_loop c (logged api) op address frame before (suc rounds) (s, l)
          ≡ (result, ((send_round c api address frame s).1, (address, frame) ∷ l))
    unfolding confirm_loop
    loop-settled rounds s l result e = ground (arith, send_round-logged s l)

    loop-again :
        (rounds : ℕ) (s : S) (l : Sent)
        → judged op address frame before s ≡ none
        → confirm_loop c (logged api) op address frame before (suc rounds) (s, l)
          ≡ confirm_loop c
              (logged api)
              op
              address
              frame
              before
              rounds
              ((send_round c api address frame s).1, (address, frame) ∷ l)
    unfolding confirm_loop
    loop-again rounds s l e = ground (arith, send_round-logged s l)

    not_before :
        (k : ℕ) (s : S)
        → judged op address frame before s ≡ none
        → ((j : ℕ)
            → j < k
            → judged op address frame before
                (round_state address frame j (send_round c api address frame s).1)
              ≡ none)
        → (j : ℕ) → j < suc k
        → judged op address frame before (round_state address frame j s) ≡ none
    not_before k s go later zero h = go
    not_before k s go later (suc j) h = later j (omega arith)

    loop-spent :
        (s : S) (l : Sent)
        → judged op address frame before s ≡ none
        → (k : ℕ) × EndsAt k 0 s l (
            confirm_loop c
              (logged api)
              op
              address
              frame
              before
              0
              ((send_round c api address frame s).1, (address, frame) ∷ l))
    unfolding confirm_loop
    loop-spent s l e =
        (0, (omega arith, refl, refl, λ j h. absurd (omega arith), inr (e, refl, refl)))

    later_end :
        (rounds : ℕ) (s : S) (l : Sent)
        → judged op address frame before s ≡ none
        → (r : AdapterCallResult × (S × Sent))
        → (k : ℕ) × EndsAt k rounds (send_round c api address frame s).1 ((address, frame) ∷ l) r
        → (k : ℕ) × EndsAt k (suc rounds) s l r
    later_end rounds s l e (result, (s', l')) (k, (le, at, sent, earlier, inl end)) =
        (suc k, (omega arith, at, sent, not_before k s e earlier, inl end))
    later_end rounds s l e (result, (s', l'))
          (k, (le, at, sent, earlier, inr (no_end, last, text))) =
        (suc k, (omega arith, at, sent, not_before k s e earlier, inr (no_end, ap suc last, text)))

    pub confirm_loop-EndsAt :
        (rounds : ℕ) (s : S) (l : Sent)
        → (k : ℕ) × EndsAt k rounds s l
            (confirm_loop c (logged api) op address frame before (suc rounds) (s, l))
    confirm_loop-EndsAt zero s l = elim (Option-cases (judged op address frame before s)) [
      | inr (result, e) ↦
          rw (loop-settled 0 s l result e)
            (0, (omega arith, refl, refl, λ j h. absurd (omega arith), inl e))
      | inl e ↦ rw (loop-again 0 s l e) (loop-spent s l e)
    ]
    confirm_loop-EndsAt (suc rounds) s l = elim (Option-cases (judged op address frame before s)) [
      | inr (result, e) ↦
          rw (loop-settled (suc rounds) s l result e)
            (0, (omega arith, refl, refl, λ j h. absurd (omega arith), inl e))
      | inl e ↦ rw (loop-again (suc rounds) s l e) (
          later_end rounds s l e _ (
            confirm_loop-EndsAt rounds (send_round c api address frame s).1 ((address, frame) ∷ l)))
    ]
