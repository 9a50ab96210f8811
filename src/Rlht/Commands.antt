-- ===== src/Rlht/Commands.antt =====
-- What an RLHT frame carries, and which arguments are refused.
use anolis_provider_bread.Base.{
  ℕ, ◌^◌, ◌≤◌, ◌<◌, Bool, true, false, not, ◌&&◌, ◌||◌, ◌⊎◌, inl, inr, ◌≡◌, refl, List, [], ◌∷◌,
  Option, some, ltb, arith,
}
use anolis_provider_bread.Frames.{RawFrame, empty_frame}
use anolis_provider_bread.Contracts.{Contracts, Doubles}
use anolis_provider_bread.Devices.{AdapterCallResult, ValueMap}
use anolis_provider_bread.AdapterHelpers.{
  append_u8, append_u16_le, read_u16_le, get_arg_uint64, call_done,
}
use anolis_provider_bread.AdapterHelpers.Bytes.{read_u16_le-append}
use anolis_provider_bread.AdapterHelpers.Checked.{checked}
use anolis_provider_bread.AdapterHelpers.Pairs.{
  Given, NotGiven, Refuses, Outcome, pair_command-cases,
}
use anolis_provider_bread.Rlht.Frame.{
  within, set_periods_ms, set_tc_select, set_open_duty_pct, build_command, build_frame,
  thermocouple_min, thermocouple_max,
}

module _ (c : Contracts) {D : Type 0} (fl : Doubles D) where
  open c use {rlht}

  module _ (function_id : ℕ) (args : ValueMap D) where
    pub frame_refused :
        Refuses (build_command c fl function_id args [])
        → (build_frame c fl function_id args empty_frame).0.ok ≡ false
    unfolding build_frame
    frame_refused (r, e, bad) = ground arith

    pub frame_built :
        (opcode : ℕ) (payload : List ℕ)
        → build_command c fl function_id args [] ≡ checked (opcode, payload)
        → build_frame c fl function_id args empty_frame
          ≡ (call_done "ok", record { type_id = rlht.type_id; opcode = opcode; payload = payload })
    unfolding build_frame
    frame_built opcode payload e = ground arith

  within_lem : (lo hi n : ℕ) → within lo hi n ≡ true → (lo ≤ n) × (n ≤ hi)
  within_lem lo hi n e = (ground arith, ground arith)

  -- Both periods are in the range that the contracts give.
  abbrev pub periods_valid : ℕ → ℕ → Bool
  periods_valid p1 p2 =
      within rlht.period_min_ms rlht.period_max_ms p1
      && within rlht.period_min_ms rlht.period_max_ms p2

  periods_lem :
      (p1 p2 : ℕ)
      → periods_valid p1 p2 ≡ true
      → (p1 ≤ rlht.period_max_ms) × (p2 ≤ rlht.period_max_ms)
  periods_lem p1 p2 e = (ground arith, ground arith)

  set_periods_ms_lem :
      (args : ValueMap D)
      → Outcome
          (build_command c fl 4 args [])
          (get_arg_uint64 args "period1_ms")
          (get_arg_uint64 args "period2_ms")
          periods_valid
          (λ a b. (rlht.op_set_periods, append_u16_le (append_u16_le [] a) b))
  unfolding build_command set_periods_ms
  set_periods_ms_lem args =
      pair_command-cases _ _ _ periods_valid _ refl refl refl (get_arg_uint64 args "period1_ms")
        (get_arg_uint64 args "period2_ms")

  -- set_periods_ms (function 4) is refused unless both periods are given and in the range of the
  -- contracts. Otherwise the frame is a SET_PERIODS for an RLHT whose payload reads back as the two
  -- periods, where the range's upper bound fits 16 bits.
  pub set_periods-encodes :
      (args : ValueMap D)
      → rlht.period_max_ms < 2 ^ 16
      → let o = get_arg_uint64 args "period1_ms" in
        let p = get_arg_uint64 args "period2_ms" in
        let (result, frame) = build_frame c fl 4 args empty_frame in
        ((result.ok ≡ false) × NotGiven o p periods_valid)
        ⊎ ((result.ok ≡ true)
            × (p1 p2 : ℕ) × Given o p periods_valid p1 p2
            × (frame.type_id ≡ rlht.type_id)
            × (frame.opcode ≡ rlht.op_set_periods)
            × (read_u16_le frame.payload 0 ≡ some p1)
            × (read_u16_le frame.payload 2 ≡ some p2))
  set_periods-encodes args small = elim (set_periods_ms_lem args) [
    | inl (refuses, unless) ↦ inl (frame_refused 4 args refuses, unless)
    | inr (p1, p2, given, e) ↦
        let (le_1, le_2) = periods_lem p1 p2 given.2 in
        let (at_0, at_2) = read_u16_le-append p1 p2 (omega arith) (omega arith) in
        inr (rw (frame_built 4 args _ _ e) (refl, p1, p2, given, refl, refl, at_0, at_2))
  ]

  abbrev pub thermocouples_valid : ℕ → ℕ → Bool
  thermocouples_valid t1 t2 =
      within thermocouple_min thermocouple_max t1 && within thermocouple_min thermocouple_max t2

  abbrev pub duties_valid : ℕ → ℕ → Bool
  duties_valid d1 d2 = not (ltb 100 d1 || ltb 100 d2)

  -- The two bytes of values that fit a byte.
  bytes_lem : (a b : ℕ) → a < 256 → b < 256 → append_u8 (append_u8 [] a) b ≡ a ∷ b ∷ []
  bytes_lem a b h k = ground arith

  thermocouples_small : (a b : ℕ) → thermocouples_valid a b ≡ true → (a < 256) × (b < 256)
  thermocouples_small a b e = (ground arith, ground arith)

  duties_small : (a b : ℕ) → duties_valid a b ≡ true → (a < 256) × (b < 256)
  duties_small a b e = (ground arith, ground arith)

  -- What a command of two bytes comes to.
  abbrev pub TwoBytes :
      ℕ → Option ℕ → Option ℕ → (ℕ → ℕ → Bool) → AdapterCallResult × RawFrame → Type 0
  TwoBytes opcode o p test (result, frame) =
      ((result.ok ≡ false) × NotGiven o p test)
      ⊎ ((result.ok ≡ true)
          × (a b : ℕ) × Given o p test a b
          × (frame.type_id ≡ rlht.type_id)
          × (frame.opcode ≡ opcode)
          × (frame.payload ≡ a ∷ b ∷ []))

  set_tc_select_lem :
      (args : ValueMap D)
      → Outcome
          (build_command c fl 5 args [])
          (get_arg_uint64 args "channel1_thermocouple")
          (get_arg_uint64 args "channel2_thermocouple")
          thermocouples_valid
          (λ a b. (rlht.op_set_tc_select, append_u8 (append_u8 [] a) b))
  unfolding build_command set_tc_select
  set_tc_select_lem args =
      pair_command-cases _ _ _ thermocouples_valid _ refl refl refl
        (get_arg_uint64 args "channel1_thermocouple") (get_arg_uint64 args "channel2_thermocouple")

  set_open_duty_pct_lem :
      (args : ValueMap D)
      → Outcome
          (build_command c fl 6 args [])
          (get_arg_uint64 args "duty1_pct")
          (get_arg_uint64 args "duty2_pct")
          duties_valid
          (λ a b. (rlht.op_set_open_duty, append_u8 (append_u8 [] a) b))
  unfolding build_command set_open_duty_pct
  set_open_duty_pct_lem args =
      pair_command-cases _ _ _ duties_valid _ refl refl refl (get_arg_uint64 args "duty1_pct")
        (get_arg_uint64 args "duty2_pct")

  two_bytes :
      (function_id opcode : ℕ) (args : ValueMap D) (o p : Option ℕ) (test : ℕ → ℕ → Bool)
      → ((a b : ℕ) → test a b ≡ true → (a < 256) × (b < 256))
      → Outcome
          (build_command c fl function_id args [])
          o
          p
          test
          (λ a b. (opcode, append_u8 (append_u8 [] a) b))
      → TwoBytes opcode o p test (build_frame c fl function_id args empty_frame)
  two_bytes function_id opcode args o p test small (inl (refuses, unless)) =
      inl (frame_refused function_id args refuses, unless)
  two_bytes function_id opcode args o p test small (inr (a, b, given, e)) =
      let (small_a, small_b) = small a b given.2 in
      inr (
        rw (frame_built function_id args _ _ e)
          (refl, a, b, given, refl, refl, bytes_lem a b small_a small_b))

  -- set_tc_select (function 5) is refused unless both thermocouples are given and are 1 or 2, and
  -- set_open_duty_pct (function 6) unless both duties are given and at most 100. Otherwise the frame
  -- is a SET_TC_SELECT or a SET_OPEN_DUTY whose payload is the two values, one byte each.
  pub two_byte_commands-encode :
      (args : ValueMap D)
      → TwoBytes rlht.op_set_tc_select
          (get_arg_uint64 args "channel1_thermocouple")
          (get_arg_uint64 args "channel2_thermocouple")
          thermocouples_valid
          (build_frame c fl 5 args empty_frame)
        × TwoBytes rlht.op_set_open_duty
            (get_arg_uint64 args "duty1_pct")
            (get_arg_uint64 args "duty2_pct")
            duties_valid
            (build_frame c fl 6 args empty_frame)
  two_byte_commands-encode args = (
    two_bytes 5 rlht.op_set_tc_select args _ _ thermocouples_valid thermocouples_small
        (set_tc_select_lem args),
    two_bytes 6 rlht.op_set_open_duty args _ _ duties_valid duties_small
        (set_open_duty_pct_lem args),
  )
