-- ===== src/Session/Guards.antt =====
-- What the methods check before they touch the bus.
use anolis_provider_bread.Base.{
  ℕ, ◌≤◌, ◌<◌, String, true, false, ◌⊎◌, inl, inr, ◌≡◌, refl, length, ltb, Bool-cases, arith, Act,
}
use anolis_provider_bread.Frames.{
  SessionStatus, is_ok, RawFrame, min_i2c_address, max_i2c_address, max_payload_bytes,
}
use anolis_provider_bread.Transport.{Transport}
use anolis_provider_bread.Session.State.{Session, validate_address, validate_frame}
use anolis_provider_bread.Session.Retry.{execute_with_retry}
use anolis_provider_bread.Session.Retries.{execute_with_retry_attempts}
use anolis_provider_bread.Session.{send, exchange, query_read, record_outcome, query_attempt}

-- What an exchange may be addressed to.
abbrev pub InRange : ℕ → Type 0
InRange address = (min_i2c_address ≤ address) × (address ≤ max_i2c_address)

pub validate_address_iff :
    (address : ℕ)
    → ((is_ok (validate_address address) ≡ true) × InRange address)
      ⊎ ((is_ok (validate_address address) ≡ false)
          × ((address < min_i2c_address) ⊎ (max_i2c_address < address))
          × ((validate_address address).attempts ≡ 0))
unfolding validate_address
validate_address_iff address = ground arith

module _ {W : Type 0} (t : Transport W) where
  -- A refused call fails with no attempt and changes nothing.
  abbrev pub Refused : Session W → SessionStatus → Session W → Type 0
  Refused s status s' = (is_ok status ≡ false) × (status.attempts ≡ 0) × (s' ≡ s)

  -- The reasons to refuse a call: the address, the length of what is sent, and a closed transport.
  abbrev pub Barred : ℕ → ℕ → Session W → Type 0
  Barred address len s =
      (address < 0x08) ⊎ ((0x77 < address) ⊎ ((27 < len) ⊎ (t.is_open s.world ≡ false)))

  -- A call that is not refused: `run` is what its attempts come to.
  abbrev pub Recorded : ℕ → ℕ → Session W → SessionStatus × W → SessionStatus → Session W → Type 0
  Recorded address len s run status s' =
      (0x08 ≤ address)
      × (address ≤ 0x77)
      × (len ≤ 27)
      × (t.is_open s.world ≡ true)
      × (0 < status.attempts)
      × (status ≡ run.0)
      × (s' ≡ record_outcome t address status (record s { world = run.1 }))

  abbrev pub Guarded : ℕ → ℕ → Session W → SessionStatus × W → SessionStatus → Session W → Type 0
  Guarded address len s run status s' =
      (Barred address len s × Refused s status s') ⊎ Recorded address len s run status s'

  -- The attempts of an exchange, without the frame that they leave.
  abbrev pub attempts_of :
      Act (W × RawFrame) SessionStatus → String → RawFrame → Session W → SessionStatus × W
  attempts_of attempt operation frame s =
      let (status, (w, _)) =
        execute_with_retry t.etimedout attempt s.options.retry_count operation (s.world, frame) in
      (status, w)

  abbrev pub send_attempts : ℕ → RawFrame → Session W → SessionStatus × W
  send_attempts address frame s =
      execute_with_retry t.etimedout (t.send address frame) s.options.retry_count "send" s.world

  out_of_range :
      (address len : ℕ) (s : Session W)
      → (address < min_i2c_address) ⊎ (max_i2c_address < address)
      → Barred address len s
  out_of_range address len s (inl low) = inl low
  out_of_range address len s (inr high) = inr (inl high)

  pub exchange_cases :
      (attempt : Act (W × RawFrame) SessionStatus) (operation : String) (address : ℕ)
      (frame : RawFrame) (s : Session W)
      → let ((status, _), s') = exchange t attempt operation address frame s in
        Guarded address 1 s (attempts_of attempt operation frame s) status s'
  unfolding exchange
  exchange_cases attempt operation address frame s =
      let tried =
        execute_with_retry_attempts t.etimedout attempt s.options.retry_count operation
          (s.world, frame) in
      elim (validate_address_iff address) [
        | inr (bad, outside, none_made) ↦
            inl (out_of_range address 1 s outside, rw bad (bad, none_made, refl))
        | inl (good, (lo, hi)) ↦ elim (Bool-cases (t.is_open s.world)) [
          | inr shut ↦ inl (inr (inr (inr shut)), rw (good, shut) (refl, refl, refl))
          | inl opened ↦ inr (rw (good, opened) (lo, hi, omega arith, refl, tried, refl, refl))
        ]
      ]

  pub send_cases :
      (address : ℕ) (frame : RawFrame) (s : Session W)
      → let (status, s') = send t address frame s in
        Guarded address (length frame.payload) s (send_attempts address frame s) status s'
  unfolding send validate_frame
  send_cases address frame s =
      let len = length frame.payload in
      let tried =
        execute_with_retry_attempts t.etimedout (t.send address frame) s.options.retry_count "send"
          s.world in
      elim (validate_address_iff address) [
        | inr (bad, outside, none_made) ↦
            inl (out_of_range address len s outside, rw bad (bad, none_made, refl))
        | inl (good, (lo, hi)) ↦ elim (Bool-cases (ltb max_payload_bytes len)) [
          | inl long ↦ inl (inr (inr (inl (ground arith))), rw (good, long) (refl, refl, refl))
          | inr fits ↦ elim (Bool-cases (t.is_open s.world)) [
            | inr shut ↦ inl (inr (inr (inr shut)), rw (good, fits, shut) (refl, refl, refl))
            | inl opened ↦
                let short : len ≤ 27 = ground arith in
                inr (rw (good, fits, opened) (lo, hi, short, refl, tried, refl, refl))
          ]
        ]
      ]

  -- `send` and `query_read` are refused, without an attempt or a change of the session, only for an
  -- address outside 0x08 to 0x77, a payload over 27 bytes (`send`; that of a query has one) or a closed
  -- transport. Every other call has the result and the world of its attempts, of which there is at
  -- least one, and is recorded once under its address.
  pub guarded :
      (address reply_opcode : ℕ) (frame out : RawFrame) (s : Session W)
      → (let (status, s') = send t address frame s in
          Guarded address (length frame.payload) s (send_attempts address frame s) status s')
        × (let ((status, _), s') = query_read t address reply_opcode out s in
            Guarded address 1 s
              (attempts_of (query_attempt t s.options address reply_opcode) "query_read" out s)
              status
              s')
  unfolding query_read
  guarded address reply_opcode frame out s = (
    send_cases address frame s,
    exchange_cases (query_attempt t s.options address reply_opcode) "query_read" address out s,
  )
