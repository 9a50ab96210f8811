-- ===== src/Dcmt/Refusals.antt =====
-- What the values that are read before a DCMT command say of its motors.
use anolis_provider_bread.Base.{
  ℕ, ◌∷◌, ◌==◌, bit_and, ℤ, pos, eq_ℤ, true, false, ◌⊎◌, inl, inr, ◌≡◌, ◌≢◌, refl, List, [], Option,
  none, some, Option-cases, arith,
}
use anolis_provider_bread.Frames.{SessionStatus, is_ok, RawFrame}
use anolis_provider_bread.Contracts.{Contracts}
use anolis_provider_bread.AdapterHelpers.{read_i16_le}
use anolis_provider_bread.Dcmt.{
  DcmtState, is_braked, stalled_motor, nonzero_commands, parse_state, motor_commands, refused_motor,
}

-- A command that is not zero meets the engaged brake of its motor.
abbrev pub Holds : ℕ → ℤ → ℤ → ℕ → Type 0
Holds motor a b brakes =
    ((motor ≡ 1) × (eq_ℤ a (pos 0) ≡ false) × ((bit_and brakes 1 == 0) ≡ false))
    ⊎ ((motor ≡ 2) × (eq_ℤ b (pos 0) ≡ false) × ((bit_and brakes 2 == 0) ≡ false))

pub List-cases : (l : List ℕ) → (l ≡ []) ⊎ ((x : ℕ) × (xs : List ℕ) × (l ≡ x ∷ xs))
List-cases [] = inl refl
List-cases (x ∷ xs) = inr (x, xs, refl)

pub stalled_motor_lem :
    (a b : ℤ) (brakes motor : ℕ) → stalled_motor (a, b) brakes ≡ some motor → Holds motor a b brakes
unfolding stalled_motor is_braked
stalled_motor_lem a b brakes motor e = ground arith

pub stalls :
    (a b : ℤ) (brakes motor : ℕ) → Holds motor a b brakes → stalled_motor (a, b) brakes ≢ none
unfolding stalled_motor is_braked
stalls a b brakes motor (inl (_, nonzero, braked)) e = ground arith
stalls a b brakes motor (inr (_, nonzero, braked)) e = ground arith

pub nonzero_commands_lem :
    (a b : Option ℤ) (x y : ℤ) → nonzero_commands a b ≡ some (x, y) → (a ≡ some x) × (b ≡ some y)
unfolding nonzero_commands
nonzero_commands_lem none b x y e = ground arith
nonzero_commands_lem (some p) none x y e = ground arith
nonzero_commands_lem (some p) (some q) x y e = ground arith

module _ (c : Contracts) where
  -- A frame with commands for both motors.
  abbrev pub Moves : RawFrame → ℤ → ℤ → Type 0
  Moves frame x y =
      ((frame.opcode ≡ c.dcmt.op_set_open_loop) ⊎ (frame.opcode ≡ c.dcmt.op_set_setpoint))
      × (read_i16_le frame.payload 0 ≡ some x)
      × (read_i16_le frame.payload 2 ≡ some y)

  -- A reply that is the state of a DCMT with these brakes.
  abbrev pub Reports : SessionStatus → RawFrame → ℕ → Type 0
  Reports status reply brakes =
      (is_ok status ≡ true)
      × (reply.type_id ≡ c.dcmt.type_id)
      × (reply.opcode ≡ c.dcmt.op_get_state)
      × ((state : DcmtState) × (parse_state c reply.payload ≡ some state) × (state.brakes ≡ brakes))

  pub motor_opcode :
      (frame : RawFrame) (x y : ℤ)
      → motor_commands c frame ≡ some (x, y)
      → (frame.opcode ≡ c.dcmt.op_set_open_loop) ⊎ (frame.opcode ≡ c.dcmt.op_set_setpoint)
  unfolding motor_commands
  motor_opcode frame x y e = ground arith

  pub motor_commands_lem :
      (frame : RawFrame) (x y : ℤ) → motor_commands c frame ≡ some (x, y) → Moves frame x y
  unfolding motor_commands
  motor_commands_lem frame x y e =
      let (at_0, at_2) =
        nonzero_commands_lem (read_i16_le frame.payload 0) (read_i16_le frame.payload 2) x y
          (ground arith) in
      (motor_opcode frame x y e, at_0, at_2)

  pub moves_lem :
      (frame : RawFrame) (x y : ℤ) (brakes motor : ℕ)
      → Moves frame x y
      → Holds motor x y brakes
      → motor_commands c frame ≡ some (x, y)
  unfolding motor_commands nonzero_commands
  moves_lem frame x y brakes motor (inl opcode, at_0, at_2) (inl (_, nonzero, _)) = ground arith
  moves_lem frame x y brakes motor (inl opcode, at_0, at_2) (inr (_, nonzero, _)) = ground arith
  moves_lem frame x y brakes motor (inr opcode, at_0, at_2) (inl (_, nonzero, _)) = ground arith
  moves_lem frame x y brakes motor (inr opcode, at_0, at_2) (inr (_, nonzero, _)) = ground arith

  pub refused_motor_lem :
      (x y : ℤ) (status : SessionStatus) (reply : RawFrame) (motor : ℕ)
      → refused_motor c (x, y) status reply ≡ some motor
      → (brakes : ℕ) × Reports status reply brakes × Holds motor x y brakes
  unfolding refused_motor
  refused_motor_lem x y status reply motor e = elim (Option-cases (parse_state c reply.payload)) [
    | inl bad ↦ ground arith
    | inr (state, good) ↦ (
      state.brakes,
      (ground arith, ground arith, ground arith, (state, good, refl)),
      stalled_motor_lem x y state.brakes motor (ground arith),
    )
  ]

  pub reports_lem :
      (x y : ℤ) (status : SessionStatus) (reply : RawFrame) (state : DcmtState)
      → is_ok status ≡ true
      → reply.type_id ≡ c.dcmt.type_id
      → reply.opcode ≡ c.dcmt.op_get_state
      → parse_state c reply.payload ≡ some state
      → refused_motor c (x, y) status reply ≡ stalled_motor (x, y) state.brakes
  unfolding refused_motor
  reports_lem x y status reply state good type opcode parsed = ground arith
