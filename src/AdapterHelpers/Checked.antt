-- ===== src/AdapterHelpers/Checked.antt =====
-- A check that may end a call with a result, as the early returns of the frame builders do.
use anolis_provider_bread.Base.{String, Bool, true, false, Option, none, some}
use anolis_provider_bread.Devices.{StatusCode, AdapterCallResult}

pub data Checked (A : Type 0) : Type 0 where
  refused : AdapterCallResult → Checked A
  checked : A → Checked A

infixl 5 ◌>>=◌ ◌>>◌
abbrev pub ◌>>=◌ : {A B : Type 0} → Checked A → (A → Checked B) → Checked B
refused r >>= f = refused r
checked a >>= f = f a

abbrev pub ◌>>◌ : {B : Type 0} → Checked (Unit {0}) → Checked B → Checked B
m >> k = m >>= λ _. k

-- The value, or the result that the call ends with.
abbrev pub require : {A : Type 0} → Option A → AdapterCallResult → Checked A
require none r = refused r
require (some a) r = checked a

-- Go on if the test holds.
abbrev pub guard : Bool → AdapterCallResult → Checked (Unit {0})
guard true r = checked tt
guard false r = refused r

abbrev pub invalid_argument : String → AdapterCallResult
invalid_argument message = record {
  ok = false;
  error_code = StatusCode.code_invalid_argument;
  error_message = message;
}

abbrev pub out_of_range : String → AdapterCallResult
out_of_range message = record {
  ok = false;
  error_code = StatusCode.code_out_of_range;
  error_message = message;
}
