-- ===== src/Rlht/Setpoints.antt =====
-- What a SET_SETPOINTS frame carries, and which setpoints are refused.
use anolis_provider_bread.Base.{
  ℤ, ◌≤ℤ◌, int16_min, int16_max, Bool, true, false, not, ◌&&◌, ◌||◌, ◌⊎◌, inl, inr, ◌≡◌, refl, [],
  some, arith,
}
use anolis_provider_bread.Frames.{empty_frame}
use anolis_provider_bread.Contracts.{Contracts, Doubles}
use anolis_provider_bread.Devices.{ValueMap}
use anolis_provider_bread.AdapterHelpers.{append_i16_le, read_i16_le, get_arg_double}
use anolis_provider_bread.AdapterHelpers.Bytes.{read_i16_le-append}
use anolis_provider_bread.AdapterHelpers.Pairs.{Given, NotGiven, Outcome, tested_command-cases}
use anolis_provider_bread.Rlht.Frame.{
  deci, min_setpoint_c, max_setpoint_c, outside_i16, set_setpoints, build_command, build_frame,
}
use anolis_provider_bread.Rlht.Commands.{frame_refused, frame_built}

module _ (c : Contracts) {D : Type 0} (fl : Doubles D) where
  open c use {rlht}

  abbrev pub both_finite : D → D → Bool
  both_finite a b = not (not (fl.is_finite a) || not (fl.is_finite b))

  abbrev pub both_in_range : D → D → Bool
  both_in_range a b = not (
      fl.lt a (min_setpoint_c c fl)
      || (fl.lt (max_setpoint_c c fl) a
          || (fl.lt b (min_setpoint_c c fl) || fl.lt (max_setpoint_c c fl) b)))

  abbrev pub both_convert : D → D → Bool
  both_convert a b = not (outside_i16 c fl (deci c fl a) || outside_i16 c fl (deci c fl b))

  -- Finite, in [-3276.8, 3276.7], and representable as 16-bit tenths.
  abbrev pub setpoints_valid : D → D → Bool
  setpoints_valid a b = both_finite a b && (both_in_range a b && both_convert a b)

  set_setpoints_lem :
      (args : ValueMap D)
      → Outcome
          (build_command c fl 2 args [])
          (get_arg_double args "setpoint1_c")
          (get_arg_double args "setpoint2_c")
          setpoints_valid
          (λ a b.
            (rlht.op_set_setpoints, append_i16_le (append_i16_le [] (deci c fl a)) (deci c fl b)))
  unfolding build_command set_setpoints
  set_setpoints_lem args =
      tested_command-cases _ _ _ _ _ both_finite both_in_range both_convert _ refl refl refl refl
        refl (get_arg_double args "setpoint1_c") (get_arg_double args "setpoint2_c")

  last_test : (x y z : Bool) → (x && (y && z)) ≡ true → z ≡ true
  last_test x y z e = ground arith

  outside_lem :
      (x y : ℤ)
      → not (outside_i16 c fl x || outside_i16 c fl y) ≡ true
      → (int16_min ≤ℤ x) × (x ≤ℤ int16_max) × (int16_min ≤ℤ y) × (y ≤ℤ int16_max)
  outside_lem x y e = (ground arith, ground arith, ground arith, ground arith)

  -- set_setpoints (function 2) is refused unless both setpoints are given, finite, within the range of
  -- 16-bit tenths before rounding and after it. Otherwise the frame is a SET_SETPOINTS for an RLHT
  -- whose payload reads back as the two setpoints rounded to tenths, sign included.
  pub set_setpoints-encodes :
      (args : ValueMap D)
      → let o = get_arg_double args "setpoint1_c" in
        let p = get_arg_double args "setpoint2_c" in
        let (result, frame) = build_frame c fl 2 args empty_frame in
        ((result.ok ≡ false) × NotGiven o p setpoints_valid)
        ⊎ ((result.ok ≡ true)
            × (a b : D) × Given o p setpoints_valid a b
            × (frame.type_id ≡ rlht.type_id)
            × (frame.opcode ≡ rlht.op_set_setpoints)
            × (read_i16_le frame.payload 0 ≡ some (deci c fl a))
            × (read_i16_le frame.payload 2 ≡ some (deci c fl b)))
  set_setpoints-encodes args = elim (set_setpoints_lem args) [
    | inl (refuses, unless) ↦ inl (frame_refused c fl 2 args refuses, unless)
    | inr (a, b, given, e) ↦
        let (la, ha, lb, hb) =
          outside_lem (deci c fl a) (deci c fl b)
            (last_test (both_finite a b) (both_in_range a b) (both_convert a b) given.2) in
        let (at_0, at_2) = read_i16_le-append (deci c fl a) (deci c fl b) la ha lb hb in
        inr (rw (frame_built c fl 2 args _ _ e) (refl, a, b, given, refl, refl, at_0, at_2))
  ]
