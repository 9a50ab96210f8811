-- ===== src/AdapterHelpers.antt =====
-- src/devices/common/adapter_helpers.hpp: payload bytes, typed arguments, and session failures as ADPP
-- results. A reader returns what it leaves in `out`, and `none` where the source returns false.
pub mod Bytes
pub mod Checked
pub mod Pairs
use anolis_provider_bread.Base.{
  ℕ, ◌+◌, ◌-◌, ◌*◌, ◌/◌, ◌%◌, ◌^◌, ℤ, to_u16, to_i16, String, ◌<>◌, Bool, true, false, List, [],
  ◌∷◌, ◌++◌, Option, none, some, ltb, leb, ◌==◌, if◌then◌else◌, ◌||◌, length, get_elem?, lookup,
}
use anolis_provider_bread.Frames.{SessionErrorCode, SessionStatus}
use anolis_provider_bread.Devices.{
  StatusCode, AdapterCallResult, AdapterReadResult, Value, bool_val, int64_val, uint64_val,
  double_val, string_val, ValueMap, Quality, SignalValue,
}

abbrev pub append_u8 : List ℕ → ℕ → List ℕ
append_u8 buf v = buf ++ v % 2 ^ 8 ∷ []

abbrev pub append_u16_le : List ℕ → ℕ → List ℕ
append_u16_le buf v = (buf ++ v % 2 ^ 8 ∷ []) ++ v / 2 ^ 8 % 2 ^ 8 ∷ []

abbrev pub append_i16_le : List ℕ → ℤ → List ℕ
append_i16_le buf v = append_u16_le buf (to_u16 v)

-- Two bytes, the low one first.
abbrev pub join_u16 : Option ℕ → Option ℕ → Option ℕ
join_u16 (some lo) (some hi) = some (lo + hi * 2 ^ 8)
join_u16 _ _ = none

unfoldable pub read_u16_le : List ℕ → ℕ → Option ℕ
read_u16_le p off =
    if ltb (length p) 2 || ltb (length p - 2) off
    then none
    else join_u16 (get_elem? p off) (get_elem? p (off + 1))

abbrev i16_of : Option ℕ → Option ℤ
i16_of none = none
i16_of (some raw) = some (to_i16 raw)

unfoldable pub read_i16_le : List ℕ → ℕ → Option ℤ
read_i16_le p off = i16_of (read_u16_le p off)

module _ {D : Type 0} where
  abbrev as_bool : Option (Value D) → Option Bool
  as_bool (some (bool_val b)) = some b
  as_bool _ = none

  abbrev as_int64 : Option (Value D) → Option ℤ
  as_int64 (some (int64_val i)) = some i
  as_int64 _ = none

  abbrev as_uint64 : Option (Value D) → Option ℕ
  as_uint64 (some (uint64_val u)) = some u
  as_uint64 _ = none

  abbrev as_double : Option (Value D) → Option D
  as_double (some (double_val d)) = some d
  as_double _ = none

  abbrev as_string : Option (Value D) → Option String
  as_string (some (string_val s)) = some s
  as_string _ = none

  unfoldable pub get_arg_bool : ValueMap D → String → Option Bool
  get_arg_bool args key = as_bool (lookup key args)

  unfoldable pub get_arg_int64 : ValueMap D → String → Option ℤ
  get_arg_int64 args key = as_int64 (lookup key args)

  unfoldable pub get_arg_uint64 : ValueMap D → String → Option ℕ
  get_arg_uint64 args key = as_uint64 (lookup key args)

  unfoldable pub get_arg_double : ValueMap D → String → Option D
  get_arg_double args key = as_double (lookup key args)

  unfoldable pub get_arg_string : ValueMap D → String → Option String
  get_arg_string args key = as_string (lookup key args)

  abbrev pub make_signal_value : String → Value D → Quality → SignalValue D
  make_signal_value id val quality = record { signal_id = id; value = val; quality = quality }

-- The ADPP code and text of a session failure.
unfoldable pub code_from_session : SessionErrorCode → StatusCode
code_from_session SessionErrorCode.timeout = StatusCode.code_deadline_exceeded
code_from_session SessionErrorCode.decode_failed = StatusCode.code_internal
code_from_session _ = StatusCode.code_unavailable

unfoldable pub text_from_session : SessionErrorCode → String → String → String
text_from_session SessionErrorCode.timeout op message = op <> " timed out: " <> message
text_from_session SessionErrorCode.decode_failed op message = op <> " decode error: " <> message
text_from_session _ op message = op <> " failed: " <> message

unfoldable pub read_error_from_session : {D : Type 0} → SessionStatus → String → AdapterReadResult D
read_error_from_session status op = record {
  ok = false;
  error_code = code_from_session status.code;
  error_message = text_from_session status.code op status.message;
  values = [];
}

unfoldable pub call_error_from_session : SessionStatus → String → AdapterCallResult
call_error_from_session status op = record {
  ok = false;
  error_code = code_from_session status.code;
  error_message = text_from_session status.code op status.message;
}

abbrev pub call_failed : StatusCode → String → AdapterCallResult
call_failed code message = record { ok = false; error_code = code; error_message = message }

abbrev pub call_done : String → AdapterCallResult
call_done message = record { ok = true; error_code = StatusCode.code_ok; error_message = message }
