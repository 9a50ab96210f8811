-- ===== src/Frames.antt =====
-- The data of the CRUMBS session contract (src/crumbs/session.hpp): error codes, the status that
-- every bus operation returns, frames, scan results and options, and what is retried.
use anolis_provider_bread.Base.{ℕ, ℤ, pos, String, Bool, true, false, List, []}

pub data SessionErrorCode : Type 0 where
  ok invalid_argument not_open already_open open_failed scan_failed : SessionErrorCode
  write_failed read_failed timeout decode_failed transport_error : SessionErrorCode

pub record SessionStatus : Type 0 where
  pub code : SessionErrorCode
  pub message : String
  pub native_code : ℤ
  pub attempts : ℕ

-- SessionStatus::ok on the code.
abbrev pub code_ok : SessionErrorCode → Bool
code_ok SessionErrorCode.ok = true
code_ok _ = false

abbrev pub is_ok : SessionStatus → Bool
is_ok s = code_ok s.code

abbrev pub success : SessionStatus
success = record { code = SessionErrorCode.ok; message = ""; native_code = pos 0; attempts = 0 }

abbrev pub failure : SessionErrorCode → String → SessionStatus
failure code message = record { code = code; message = message; native_code = pos 0; attempts = 0 }

abbrev pub native_failure : SessionErrorCode → String → ℤ → SessionStatus
native_failure code message native_code = record {
  code = code;
  message = message;
  native_code = native_code;
  attempts = 0;
}

pub record RawFrame : Type 0 where
  pub type_id : ℕ
  pub opcode : ℕ
  pub payload : List ℕ

abbrev pub empty_frame : RawFrame
empty_frame = record { type_id = 0; opcode = 0; payload = [] }

pub record ScanResult : Type 0 where
  pub address : ℕ
  pub has_type_id : Bool
  pub type_id : ℕ

pub record SessionOptions : Type 0 where
  pub bus_path : String
  pub query_delay_us : ℕ
  pub timeout_ms : ℕ
  pub retry_count : ℤ

pub record ScanOptions : Type 0 where
  pub start_address : ℕ
  pub end_address : ℕ
  pub strict : Bool
  pub max_results : ℕ

abbrev pub set_reply_opcode : ℕ
set_reply_opcode = 0xFE

abbrev pub max_payload_bytes : ℕ
max_payload_bytes = 27

abbrev pub min_i2c_address : ℕ
min_i2c_address = 0x08

abbrev pub max_i2c_address : ℕ
max_i2c_address = 0x77

abbrev pub default_scan_options : ScanOptions
default_scan_options = record {
  start_address = min_i2c_address;
  end_address = max_i2c_address;
  strict = false;
  max_results = 32;
}

unfoldable pub is_retryable : SessionErrorCode → Bool
is_retryable SessionErrorCode.scan_failed = true
is_retryable SessionErrorCode.write_failed = true
is_retryable SessionErrorCode.read_failed = true
is_retryable SessionErrorCode.timeout = true
is_retryable SessionErrorCode.decode_failed = true
is_retryable SessionErrorCode.transport_error = true
is_retryable SessionErrorCode.ok = false
is_retryable SessionErrorCode.invalid_argument = false
is_retryable SessionErrorCode.not_open = false
is_retryable SessionErrorCode.already_open = false
is_retryable SessionErrorCode.open_failed = false
