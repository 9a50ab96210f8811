-- ===== src/Dcmt/Commands.antt =====
-- What a DCMT frame carries, and which arguments are refused.
use anolis_provider_bread.Base.{
  ℕ, ℤ, ◌≤ℤ◌, int16_min, int16_max, Bool, true, false, ◌&&◌, ◌⊎◌, inl, inr, ◌≡◌, refl, List, [],
  Option, some, arith,
}
use anolis_provider_bread.Frames.{RawFrame, empty_frame}
use anolis_provider_bread.Contracts.{Contracts}
use anolis_provider_bread.Devices.{AdapterCallResult, ValueMap}
use anolis_provider_bread.AdapterHelpers.{append_i16_le, read_i16_le, get_arg_int64, call_done}
use anolis_provider_bread.AdapterHelpers.Bytes.{read_i16_le-append}
use anolis_provider_bread.AdapterHelpers.Checked.{checked}
use anolis_provider_bread.AdapterHelpers.Pairs.{
  Given, NotGiven, Refuses, Outcome, pair_command-cases,
}
use anolis_provider_bread.Dcmt.Frame.{
  between, pwm_min, pwm_max, set_open_loop, set_setpoint, build_command, build_frame,
}

abbrev pub pwm_valid : ℤ → ℤ → Bool
pwm_valid m1 m2 = between pwm_min pwm_max m1 && between pwm_min pwm_max m2

abbrev pub target_valid : ℤ → ℤ → Bool
target_valid t1 t2 = between int16_min int16_max t1 && between int16_min int16_max t2

abbrev pub Fits : ℤ → Type 0
Fits z = (int16_min ≤ℤ z) × (z ≤ℤ int16_max)

between_lem : (z : ℤ) → between int16_min int16_max z ≡ true → Fits z
between_lem z e = (ground arith, ground arith)

pwm_lem : (z : ℤ) → between pwm_min pwm_max z ≡ true → Fits z
pwm_lem z e = (ground arith, ground arith)

and_lem : (a b : Bool) → (a && b) ≡ true → (a ≡ true) × (b ≡ true)
and_lem a b e = (ground arith, ground arith)

read_words :
    (a b : ℤ)
    → Fits a
    → Fits b
    → (read_i16_le (append_i16_le (append_i16_le [] a) b) 0 ≡ some a)
      × (read_i16_le (append_i16_le (append_i16_le [] a) b) 2 ≡ some b)
read_words a b (la, ha) (lb, hb) = read_i16_le-append a b la ha lb hb

module _ (c : Contracts) where
  open c use {dcmt}

  -- What a command of two 16-bit values comes to.
  abbrev pub TwoWords :
      ℕ → Option ℤ → Option ℤ → (ℤ → ℤ → Bool) → AdapterCallResult × RawFrame → Type 0
  TwoWords opcode o p test (result, frame) =
      ((result.ok ≡ false) × NotGiven o p test)
      ⊎ ((result.ok ≡ true)
          × (a b : ℤ) × Given o p test a b
          × (frame.type_id ≡ dcmt.type_id)
          × (frame.opcode ≡ opcode)
          × (read_i16_le frame.payload 0 ≡ some a)
          × (read_i16_le frame.payload 2 ≡ some b))

module _ (c : Contracts) {D : Type 0} where
  open c use {dcmt}

  module _ (function_id : ℕ) (args : ValueMap D) where
    frame_refused :
        Refuses (build_command c function_id args [])
        → (build_frame c function_id args empty_frame).0.ok ≡ false
    unfolding build_frame
    frame_refused (r, e, bad) = ground arith

    frame_built :
        (opcode : ℕ) (payload : List ℕ)
        → build_command c function_id args [] ≡ checked (opcode, payload)
        → build_frame c function_id args empty_frame
          ≡ (call_done "ok", record { type_id = dcmt.type_id; opcode = opcode; payload = payload })
    unfolding build_frame
    frame_built opcode payload e = ground arith

  set_open_loop_lem :
      (args : ValueMap D)
      → Outcome
          (build_command c 1 args [])
          (get_arg_int64 args "motor1_pwm")
          (get_arg_int64 args "motor2_pwm")
          pwm_valid
          (λ a b. (dcmt.op_set_open_loop, append_i16_le (append_i16_le [] a) b))
  unfolding build_command set_open_loop
  set_open_loop_lem args =
      pair_command-cases _ _ _ pwm_valid _ refl refl refl (get_arg_int64 args "motor1_pwm")
        (get_arg_int64 args "motor2_pwm")

  set_setpoint_lem :
      (args : ValueMap D)
      → Outcome
          (build_command c 4 args [])
          (get_arg_int64 args "motor1_target")
          (get_arg_int64 args "motor2_target")
          target_valid
          (λ a b. (dcmt.op_set_setpoint, append_i16_le (append_i16_le [] a) b))
  unfolding build_command set_setpoint
  set_setpoint_lem args =
      pair_command-cases _ _ _ target_valid _ refl refl refl (get_arg_int64 args "motor1_target")
        (get_arg_int64 args "motor2_target")

  two_words :
      (function_id opcode : ℕ) (args : ValueMap D) (o p : Option ℤ) (test : ℤ → ℤ → Bool)
      → ((a b : ℤ) → test a b ≡ true → Fits a × Fits b)
      → Outcome
          (build_command c function_id args [])
          o
          p
          test
          (λ a b. (opcode, append_i16_le (append_i16_le [] a) b))
      → TwoWords c opcode o p test (build_frame c function_id args empty_frame)
  two_words function_id opcode args o p test fits (inl (refuses, unless)) =
      inl (frame_refused function_id args refuses, unless)
  two_words function_id opcode args o p test fits (inr (a, b, given, e)) =
      let (fit_a, fit_b) = fits a b given.2 in
      let (at_0, at_2) = read_words a b fit_a fit_b in
      inr (rw (frame_built function_id args _ _ e) (refl, a, b, given, refl, refl, at_0, at_2))

  -- set_open_loop (function 1) is refused unless both PWM values are given and in [-255, 255], and
  -- set_setpoint (function 4) unless both targets are given and fit 16 bits. Otherwise the frame is a
  -- SET_OPEN_LOOP or a SET_SETPOINT whose payload reads back as the two values, sign included.
  pub motor_commands-encode :
      (args : ValueMap D)
      → TwoWords c dcmt.op_set_open_loop
          (get_arg_int64 args "motor1_pwm")
          (get_arg_int64 args "motor2_pwm")
          pwm_valid
          (build_frame c 1 args empty_frame)
        × TwoWords c dcmt.op_set_setpoint
            (get_arg_int64 args "motor1_target")
            (get_arg_int64 args "motor2_target")
            target_valid
            (build_frame c 4 args empty_frame)
  motor_commands-encode args = (
    two_words 1 dcmt.op_set_open_loop args _ _ pwm_valid
        (λ a b valid. let (va, vb) = and_lem _ _ valid in (pwm_lem a va, pwm_lem b vb))
        (set_open_loop_lem args),
    two_words 4 dcmt.op_set_setpoint args _ _ target_valid
        (λ a b valid. let (va, vb) = and_lem _ _ valid in (between_lem a va, between_lem b vb))
        (set_setpoint_lem args),
  )
