-- ===== src/Dcmt/Brakes.antt =====
-- What the checks before a DCMT command refuse, and what they let through.
use anolis_provider_bread.Base.{
  ℕ, ◌%◌, ◌^◌, ◌∷◌, sym, ℤ, true, false, ◌⊎◌, inl, inr, ◌≡◌, ◌≢◌, refl, ap, ◌∙◌, List, [], none,
  some, Bool-cases, Option-cases, arith,
}
use anolis_provider_bread.Frames.{SessionStatus, RawFrame, empty_frame}
use anolis_provider_bread.SessionApi.{SessionApi}
use anolis_provider_bread.SessionApi.Log.{Sent, logged}
use anolis_provider_bread.Contracts.{Contracts}
use anolis_provider_bread.Devices.{InventoryDevice, AdapterCallResult}
use anolis_provider_bread.SetConfirm.{transmit_confirmed}
use anolis_provider_bread.Dcmt.{
  stalled_motor, brake_refusal, encoders_refusal, motor_commands, refused_motor, needs_encoders,
  brake_check, transmit,
}
use anolis_provider_bread.Dcmt.Refusals.{
  Holds, List-cases, stalls, Moves, Reports, motor_commands_lem, moves_lem, refused_motor_lem,
  reports_lem,
}

module _ (c : Contracts) where
  module _ {S : Type 0} (api : SessionApi S) (device : InventoryDevice) (frame : RawFrame) where
    -- The state of the device, read before a command.
    abbrev pub state_read : S → (SessionStatus × RawFrame) × S
    state_read = api.query_read device.address c.dcmt.op_get_state empty_frame

    -- The frame has a command that is not zero for a motor whose brake is engaged.
    abbrev pub Blocked : S → ℕ → Type 0
    Blocked s motor =
        let ((status, reply), _) = state_read s in
        (x y : ℤ) × (brakes : ℕ) × Moves c frame x y
        × Reports c status reply brakes
        × Holds motor x y brakes

    -- The frame sets a closed-loop mode on a device without encoders.
    abbrev pub Unsensed : Type 0
    Unsensed =
        (device.encoders ≡ false)
        × (frame.opcode ≡ c.dcmt.op_set_mode)
        × ((front : ℕ) × (rest : List ℕ) × (frame.payload ≡ front ∷ rest)
            × (front ≢ c.dcmt.mode_open_loop % 2 ^ 8))

    abbrev pub Stalled : S → AdapterCallResult × (S × Sent) → Type 0
    Stalled s (result, (s', l')) =
        (motor : ℕ) × (result ≡ brake_refusal motor)
        × (s' ≡ (state_read s).1)
        × (l' ≡ [])
        × Blocked s motor

    abbrev pub NoEncoders : S → AdapterCallResult × (S × Sent) → Type 0
    NoEncoders s (result, (s', l')) = (result ≡ encoders_refusal) × (l' ≡ []) × Unsensed

    -- The frame goes to transmit_confirmed, on the session as it was or after the state was read.
    abbrev pub Passed : S → AdapterCallResult × (S × Sent) → Type 0
    Passed s r =
        ((motor : ℕ) → ¬ Blocked s motor)
        × ¬ Unsensed
        × ((s1 : S) × ((s1 ≡ s) ⊎ (s1 ≡ (state_read s).1))
            × (r ≡ transmit_confirmed c (logged api) device frame "DCMT SET command" (s1, [])))

    brake_check-logged :
        (s : S) (l : Sent)
        → brake_check c (logged api) device frame (s, l)
          ≡ (let (r, s') = brake_check c api device frame s in (r, (s', l)))
    unfolding brake_check
    brake_check-logged s l = ground arith

    transmit_braked :
        (s : S) (motor : ℕ)
        → (brake_check c api device frame s).0 ≡ some motor
        → transmit c (logged api) device frame (s, [])
          ≡ (brake_refusal motor, ((brake_check c api device frame s).1, []))
    unfolding transmit
    transmit_braked s motor e = ground (arith, brake_check-logged s [])

    transmit_free :
        (s : S)
        → (brake_check c api device frame s).0 ≡ none
        → needs_encoders c device frame ≡ false
        → transmit c (logged api) device frame (s, [])
          ≡ transmit_confirmed c
              (logged api)
              device
              frame
              "DCMT SET command"
              ((brake_check c api device frame s).1, [])
    unfolding transmit
    transmit_free s e f = ground (arith, brake_check-logged s [])

    transmit_refused :
        (s : S)
        → (brake_check c api device frame s).0 ≡ none
        → needs_encoders c device frame ≡ true
        → transmit c (logged api) device frame (s, [])
          ≡ (encoders_refusal, ((brake_check c api device frame s).1, []))
    unfolding transmit
    transmit_refused s e f = ground (arith, brake_check-logged s [])

    brake_check_lem :
        (s : S) (motor : ℕ)
        → (brake_check c api device frame s).0 ≡ some motor
        → (x y : ℤ) × (motor_commands c frame ≡ some (x, y))
          × (let ((status, reply), read) =
                api.query_read device.address c.dcmt.op_get_state empty_frame s in
              refused_motor c (x, y) status reply ≡ some motor)
          × ((brake_check c api device frame s).1
              ≡ (api.query_read device.address c.dcmt.op_get_state empty_frame s).1)
    unfolding brake_check
    brake_check_lem s motor e = elim (Option-cases (motor_commands c frame)) [
      | inl bad ↦ ground arith
      | inr ((x, y), good) ↦ (x, y, good, ground arith, ground arith)
    ]

    check_session :
        (s : S)
        → let s1 = (brake_check c api device frame s).1 in (s1 ≡ s) ⊎ (s1 ≡ (state_read s).1)
    unfolding brake_check
    check_session s = elim (Option-cases (motor_commands c frame)) [
      | inl e ↦ inl (rw (brake_check, e) refl)
      | inr (commands, e) ↦ inr (rw (brake_check, e) refl)
    ]

    -- What the check finds on a frame that moves the motors.
    check_moves :
        (s : S) (commands : ℤ × ℤ)
        → motor_commands c frame ≡ some commands
        → (brake_check c api device frame s).0
          ≡ refused_motor c commands (state_read s).0.0 (state_read s).0.1
    unfolding brake_check
    check_moves s commands e = rw (brake_check, e) refl

    not-Blocked :
        (s : S) (motor : ℕ) → (brake_check c api device frame s).0 ≡ none → ¬ Blocked s motor
    not-Blocked s motor free
          (x, y, brakes, moves, (good, type, opcode, (state, parsed, same)), holds) =
        let ((status, reply), _) = state_read s in
        let found = check_moves s (x, y) (moves_lem c frame x y brakes motor moves holds) in
        let stall = reports_lem c x y status reply state good type opcode parsed in
        stalls x y brakes motor holds
          (ap (λ b. stalled_motor (x, y) b) (sym same) ∙ sym stall ∙ sym found ∙ free)

    needs_encoders_lem : needs_encoders c device frame ≡ true → Unsensed
    unfolding needs_encoders
    needs_encoders_lem e = elim (List-cases frame.payload) [
      | inl none_given ↦ ground arith
      | inr (front, rest, given) ↦ (ground arith, ground arith, (front, rest, given, ground arith))
    ]

    not_unsensed : needs_encoders c device frame ≡ false → ¬ Unsensed
    unfolding needs_encoders
    not_unsensed e (bare, mode, (front, rest, given, closed)) = ground arith

    stalled_lem :
        (s : S) (motor : ℕ)
        → (brake_check c api device frame s).0 ≡ some motor
        → Stalled s (transmit c (logged api) device frame (s, []))
    stalled_lem s motor e =
        let (x, y, read, refused, after) = brake_check_lem s motor e in
        let ((status, reply), _) = state_read s in
        let (brakes, reports, holds) = refused_motor_lem c x y status reply motor refused in
        rw (transmit_braked s motor e) (
          motor,
          refl,
          after,
          refl,
          (x, y, brakes, motor_commands_lem c frame x y read, reports, holds),
        )

    -- A DCMT command goes one of three ways. It is refused for a brake only when it is SET_OPEN_LOOP
    -- or SET_SETPOINT with both commands readable, the state just read is a GET_STATE reply of a DCMT
    -- that parses, and the brake of a motor whose command is not zero is engaged. It is refused for
    -- missing encoders only when the device has none and the frame is a SET_MODE to another mode than
    -- open loop. A refusal sends nothing. Every frame that is neither goes to transmit_confirmed
    -- unchanged, after the state was read or on the session as it was.
    pub transmit-cases :
        (s : S)
        → let r = transmit c (logged api) device frame (s, []) in
          Stalled s r ⊎ (NoEncoders s r ⊎ Passed s r)
    transmit-cases s = elim (Option-cases (brake_check c api device frame s).0) [
      | inr (motor, e) ↦ inl (stalled_lem s motor e)
      | inl e ↦ inr (elim (Bool-cases (needs_encoders c device frame)) [
        | inl f ↦ inl (rw (transmit_refused s e f) (refl, refl, needs_encoders_lem f))
        | inr f ↦ inr (
          λ motor. not-Blocked s motor e,
          not_unsensed f,
          ((brake_check c api device frame s).1, check_session s, transmit_free s e f),
        )
      ])
    ]
