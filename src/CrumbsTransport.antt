-- ===== src/CrumbsTransport.antt =====
-- class CrumbsTransport of src/crumbs/crumbs_transport.hpp and src/crumbs/crumbs_transport.cpp: the
-- transport of a session over an I2C bus and the CRUMBS codec.
pub mod Messages
pub mod Replies
pub mod Link
pub mod Failures
use anolis_provider_bread.Base.{
  ℕ, zero, suc, ◌%◌, ◌^◌, ◌-◌, ℤ, pos, negsuc, ltb_ℤ, eq_ℤ, String, ◌<>◌, ◌=ₛ◌, Bool, true, false,
  not, List, [], ◌∷◌, ◌++◌, Option, none, some, ltb, ◌==◌, if◌then◌else◌, length, take, replicate,
  is_empty, Act,
}
use anolis_provider_bread.Frames.{
  SessionErrorCode, SessionStatus, is_ok, success, failure, native_failure, RawFrame,
  SessionOptions, ScanOptions, ScanResult,
}
use anolis_provider_bread.Config.{format_i2c_address}
use anolis_provider_bread.Transport.{Transport}
use anolis_provider_bread.Wire.{
  I2cError, I2cStatus, is_timeout, Message, I2cBus, Codec, ControllerScan,
}

-- The pointer to the bus is null where `has_bus` is false; `bus` is then not used.
pub record CrumbsTransport (B X : Type 0) : Type 0 where
  pub bus : B
  pub has_bus : Bool
  pub ctx : X
  pub scan_timeout_us : ℕ
  pub is_open : Bool

abbrev pub min_scan_probe_timeout_us : ℕ
min_scan_probe_timeout_us = 2000

unfoldable pub scan_probe_timeout_us : SessionOptions → ℕ
scan_probe_timeout_us options =
    if ltb min_scan_probe_timeout_us options.query_delay_us
    then options.query_delay_us
    else min_scan_probe_timeout_us

unfoldable pub status_from_i2c : SessionErrorCode → String → I2cStatus → SessionStatus
status_from_i2c code context status =
    native_failure code
      (if status.message =ₛ "" then context else context <> ": " <> status.message)
      status.native_errno

unfoldable pub to_raw_frame : Message → RawFrame
to_raw_frame m = record {
  type_id = m.type_id;
  opcode = m.opcode;
  payload = take m.data_len m.bytes;
}

unfoldable pub read_error_code : I2cError → SessionErrorCode
read_error_code code =
    if is_timeout code then SessionErrorCode.timeout else SessionErrorCode.read_failed

unfoldable pub decode_error_code : ℤ → SessionErrorCode
decode_error_code rc =
    if eq_ℤ rc (negsuc 1) then SessionErrorCode.decode_failed else SessionErrorCode.read_failed

-- The first `n` found devices.
unfoldable pub scan_rows : ℕ → List ℕ → List ℕ → List ScanResult
scan_rows (suc n) (a ∷ addresses) (t ∷ types) =
    record { address = a; has_type_id = true; type_id = t } ∷ scan_rows n addresses types
scan_rows _ _ _ = []

abbrev pub closed_status : SessionStatus
closed_status = failure SessionErrorCode.not_open "CRUMBS transport is not open"

module _ {X : Type 0} (codec : Codec X) where
  unfoldable pub validate_frame : RawFrame → SessionStatus
  validate_frame frame =
      if ltb codec.max_payload (length frame.payload)
      then failure SessionErrorCode.invalid_argument "CRUMBS payload exceeds 27 byte maximum"
      else success

  -- populate_message on a message of zeros, for a payload that fits.
  unfoldable pub populate_message : RawFrame → Message
  populate_message frame = record {
    type_id = frame.type_id;
    opcode = frame.opcode;
    data_len = length frame.payload % 2 ^ 8;
    bytes = frame.payload ++ replicate (codec.max_payload - length frame.payload) 0;
  }

module _ {B : Type 0} (i2c : I2cBus B) where
  unfoldable pub bus_write_fn : ℕ → List ℕ → Act B ℤ
  bus_write_fn address bytes b =
      let (status, b') = i2c.write address bytes b in (if status.ok then pos 0 else negsuc 0, b')

  unfoldable pub bus_read_fn : ℕ → List ℕ → ℕ → Act B (ℤ × List ℕ)
  bus_read_fn address buffer timeout_us b =
      let ((status, (buffer', received)), b') = i2c.read address buffer timeout_us b in
      ((if status.ok then pos received else negsuc 0, buffer'), b')

module _ {B X : Type 0} (i2c : I2cBus B) (codec : Codec X) where
  -- CrumbsTransport::open, once the bus is open.
  unfoldable pub opened : SessionOptions → CrumbsTransport B X → CrumbsTransport B X
  opened options t = record t {
    ctx = codec.init t.ctx;
    scan_timeout_us = scan_probe_timeout_us options;
    is_open = true;
  }

  unfoldable pub open_transport : SessionOptions → Act (CrumbsTransport B X) SessionStatus
  open_transport options t =
      let (status, b) = i2c.open_bus t.bus in
      let t' = record t { bus = b } in
      if options.bus_path =ₛ ""
      then (failure SessionErrorCode.invalid_argument "session bus_path must not be empty", t)
      else if t.is_open
      then (failure SessionErrorCode.already_open "CRUMBS transport is already open", t)
      else if not t.has_bus
      then (failure SessionErrorCode.open_failed "CRUMBS transport has no bus", t)
      else if status.ok
      then (success, opened options t')
      else (
        status_from_i2c SessionErrorCode.open_failed
            ("failed to open I2C bus '" <> options.bus_path <> "'") status,
        t',
      )

  unfoldable pub close_transport : CrumbsTransport B X → CrumbsTransport B X
  close_transport t =
      if t.is_open
      then record t {
        bus = if t.has_bus then i2c.close t.bus else t.bus;
        scan_timeout_us = 0;
        is_open = false;
      }
      else t

  -- CrumbsTransport::scan after the controller's scan returned `rc`.
  unfoldable pub scanned : ℤ → List ℕ → List ℕ → List ScanResult → SessionStatus × List ScanResult
  scanned (negsuc n) addresses types out =
      (native_failure SessionErrorCode.scan_failed "failed to scan CRUMBS devices" (negsuc n), out)
  scanned (pos n) addresses types out = (success, scan_rows n addresses types)

  unfoldable pub scan :
      ControllerScan B X
      → ScanOptions
      → List ScanResult
      → Act (CrumbsTransport B X) (SessionStatus × List ScanResult)
  scan controller_scan options out t =
      let zeros : List ℕ = replicate options.max_results 0 in
      let ((rc, (addresses, types)), (ctx, b)) =
        controller_scan (bus_write_fn i2c) (bus_read_fn i2c) options.start_address
          options.end_address options.strict zeros zeros options.max_results t.scan_timeout_us
          (t.ctx, t.bus) in
      if t.is_open
      then (scanned rc addresses types out, record t { ctx = ctx; bus = b })
      else ((closed_status, out), t)

  -- CrumbsTransport::send of an encoded frame.
  unfoldable pub send_encoded : ℕ → List ℕ → Act (CrumbsTransport B X) SessionStatus
  send_encoded address encoded t =
      let (status, b) = i2c.write address encoded t.bus in
      if is_empty encoded
      then (
        failure SessionErrorCode.write_failed
            ("failed to encode CRUMBS frame for " <> format_i2c_address address),
        t,
      )
      else if status.ok
      then (success, record t { bus = b })
      else (
        status_from_i2c SessionErrorCode.write_failed
            ("failed to send CRUMBS frame to " <> format_i2c_address address) status,
        record t { bus = b },
      )

  unfoldable pub send : ℕ → RawFrame → Act (CrumbsTransport B X) SessionStatus
  send address frame t =
      let validation = validate_frame codec frame in
      if not t.is_open
      then (closed_status, t)
      else if is_ok validation
      then send_encoded address (codec.encode (populate_message codec frame)) t
      else (validation, t)

  -- CrumbsTransport::read from the bytes on: the trim to the length in the header, then the decode.
  unfoldable pub decode_reply :
      ℕ → List ℕ → ℕ → RawFrame → Act (CrumbsTransport B X) (SessionStatus × RawFrame)
  decode_reply address buffer received out t = elim (codec.frame_length buffer received) [
    | none ↦ (
      (
        native_failure SessionErrorCode.read_failed
            ("invalid or truncated CRUMBS frame from " <> format_i2c_address address)
            (pos received),
        out,
      ),
      t,
    )
    | some frame_len ↦
        let (rc, m) = codec.decode buffer frame_len in
        let t' = record t { ctx = codec.account buffer frame_len t.ctx } in
        if eq_ℤ rc (pos 0) then ((success, to_raw_frame m), t') else (
          (
            native_failure (decode_error_code rc)
                ("failed to decode CRUMBS reply from " <> format_i2c_address address) rc,
            out,
          ),
          t',
        )
  ]

  unfoldable pub read : ℕ → RawFrame → ℕ → Act (CrumbsTransport B X) (SessionStatus × RawFrame)
  read address out timeout_us t =
      let ((status, (buffer, received)), b) =
        i2c.read address (replicate codec.message_max_size 0) timeout_us t.bus in
      let t' = record t { bus = b } in
      if not t.is_open
      then ((closed_status, out), t)
      else if status.ok
      then decode_reply address buffer received out t'
      else (
        (
          status_from_i2c (read_error_code status.code)
              ("failed to read CRUMBS frame from " <> format_i2c_address address) status,
          out,
        ),
        t',
      )

  unfoldable pub delay_us : ℕ → CrumbsTransport B X → CrumbsTransport B X
  delay_us us t = if t.has_bus then record t { bus = i2c.delay_us us t.bus } else t

  -- The transport that a session is given, with the clock and the errno value of the host.
  abbrev pub crumbs_transport :
      ControllerScan B X → (B → ℕ × B) → ℤ → Transport (CrumbsTransport B X)
  crumbs_transport controller_scan clock etimedout = record {
    open_bus = open_transport;
    close = close_transport;
    is_open = λ t. t.is_open;
    scan = scan controller_scan;
    send = send;
    read = read;
    delay_us = delay_us;
    system_now = λ t. let (now, b) = clock t.bus in (now, record t { bus = b });
    etimedout = etimedout;
  }
