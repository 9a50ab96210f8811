-- ===== src/Session/State.antt =====
-- The state of a session and the checks that its methods make before they touch the bus
-- (src/crumbs/session.hpp, src/crumbs/session.cpp).
use anolis_provider_bread.Base.{
  ℕ, ◌-◌, ◌*◌, ◌/◌, ◌%◌, ◌^◌, pos, ltb_ℤ, ◌=ₛ◌, Bool, false, ◌||◌, [], ◌∷◌, Option, none, some, ltb,
  ◌==◌, if◌then◌else◌, length,
}
use anolis_provider_bread.Frames.{
  SessionErrorCode, SessionStatus, success, failure, RawFrame, SessionOptions, ScanOptions,
  set_reply_opcode, max_payload_bytes, min_i2c_address, max_i2c_address,
}

abbrev pub u64_mod : ℕ
u64_mod = 2 ^ 64

abbrev pub uint32_max : ℕ
uint32_max = 2 ^ 32 - 1

pub record AddressStats : Type 0 where
  pub ok : ℕ
  pub failed : ℕ
  pub retried_attempts : ℕ
  pub rejected : ℕ
  pub has_success : Bool
  pub last_success : ℕ

abbrev pub zero_stats : AddressStats
zero_stats = record {
  ok = 0;
  failed = 0;
  retried_attempts = 0;
  rejected = 0;
  has_success = false;
  last_success = 0;
}

-- `stats` is the map of statistics, and the two sets are their membership tests.
pub record Session (W : Type 0) : Type 0 where
  pub options : SessionOptions
  pub world : W
  pub stats : ℕ → Option AddressStats
  pub last_op_failed : ℕ → Bool
  pub recovery_pending : ℕ → Bool

-- stats_[address] where the entry may be new.
abbrev pub or_zero : Option AddressStats → AddressStats
or_zero none = zero_stats
or_zero (some stats) = stats

unfoldable pub new_session : {W : Type 0} → W → SessionOptions → Session W
new_session w options = record {
  options = options;
  world = w;
  stats = λ _. none;
  last_op_failed = λ _. false;
  recovery_pending = λ _. false;
}

unfoldable pub validate_open_options : SessionOptions → SessionStatus
validate_open_options options =
    if options.bus_path =ₛ ""
    then failure SessionErrorCode.invalid_argument "session bus_path must not be empty"
    else if ltb_ℤ options.retry_count (pos 0)
    then failure SessionErrorCode.invalid_argument "session retry_count must be non-negative"
    else success

unfoldable pub validate_scan_options : ScanOptions → SessionStatus
validate_scan_options options =
    if ltb options.start_address min_i2c_address || ltb max_i2c_address options.start_address
    then failure SessionErrorCode.invalid_argument
        "scan start_address is outside the supported I2C range"
    else if ltb options.end_address min_i2c_address || ltb max_i2c_address options.end_address
    then failure SessionErrorCode.invalid_argument
        "scan end_address is outside the supported I2C range"
    else if ltb options.end_address options.start_address
    then failure SessionErrorCode.invalid_argument "scan start_address must be <= end_address"
    else if options.max_results == 0
    then failure SessionErrorCode.invalid_argument "scan max_results must be greater than zero"
    else success

unfoldable pub validate_address : ℕ → SessionStatus
validate_address address =
    if ltb address min_i2c_address || ltb max_i2c_address address
    then failure SessionErrorCode.invalid_argument "I2C address is outside the supported range"
    else success

unfoldable pub validate_frame : RawFrame → SessionStatus
validate_frame frame =
    if ltb max_payload_bytes (length frame.payload)
    then failure SessionErrorCode.invalid_argument "CRUMBS payload exceeds 27 byte maximum"
    else success

-- The read timeout in microseconds, held at UINT32_MAX.
unfoldable pub timeout_us : SessionOptions → ℕ
timeout_us options =
    if ltb (uint32_max / 1000) options.timeout_ms
    then uint32_max
    else options.timeout_ms * 1000 % 2 ^ 32

abbrev pub not_open_status : SessionStatus
not_open_status = failure SessionErrorCode.not_open "CRUMBS session is not open"

-- The frame that stages a reply.
abbrev pub set_reply_frame : ℕ → RawFrame
set_reply_frame reply_opcode = record {
  type_id = 0;
  opcode = set_reply_opcode;
  payload = reply_opcode ∷ [];
}
