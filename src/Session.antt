-- ===== src/Session.antt =====
-- class Session of src/crumbs/session.hpp and src/crumbs/session.cpp. The mutex makes every method
-- one uninterrupted step, so a method is one action on the session's state; logging is left out.
-- The proofs are in the modules below.
pub mod State
pub mod Retry
pub mod Retries
pub mod Guards
pub mod History
pub mod Recovery
use anolis_provider_bread.Base.{
  ℕ, ◌+◌, ◌-◌, ◌*◌, ◌/◌, ◌%◌, ◌^◌, ℤ, pos, ltb_ℤ, String, ◌=ₛ◌, Bool, true, false, not, ◌||◌, List,
  [], ◌∷◌, Option, none, some, ltb, ◌==◌, if◌then◌else◌, update, length, Act,
}
use anolis_provider_bread.Frames.{
  SessionErrorCode, SessionStatus, is_ok, success, failure, RawFrame, SessionOptions, ScanOptions,
  ScanResult, set_reply_opcode, max_payload_bytes, min_i2c_address, max_i2c_address,
}
use anolis_provider_bread.Transport.{Transport}
use State.{
  u64_mod, uint32_max, AddressStats, zero_stats, Session, or_zero, new_session,
  validate_open_options, validate_scan_options, validate_address, validate_frame, timeout_us,
  not_open_status, set_reply_frame,
}
use Retry.{execute_with_retry}

module _ {W : Type 0} (t : Transport W) where
  open t use {open_bus, close, is_open, delay_us, system_now, etimedout}

  -- Session::open
  unfoldable pub open_session : Act (Session W) SessionStatus
  open_session s =
      let validation = validate_open_options s.options in
      let (status, w) = open_bus s.options s.world in
      if is_open s.world
      then (failure SessionErrorCode.already_open "CRUMBS session is already open", s)
      else if is_ok validation
      then (record status { attempts = 1 }, record s { world = w })
      else (validation, s)

  unfoldable pub close_session : Session W → Session W
  close_session s = record s { world = close s.world }

  -- The statistics of one address after one completed operation; `now` is read on success only.
  unfoldable pub stats_after : AddressStats → SessionStatus → ℕ → AddressStats
  stats_after stats status now =
      let retried =
        if ltb 1 status.attempts
        then (stats.retried_attempts + (status.attempts - 1)) % u64_mod
        else stats.retried_attempts in
      if is_ok status
      then record stats {
        retried_attempts = retried;
        ok = (stats.ok + 1) % u64_mod;
        has_success = true;
        last_success = now;
      }
      else record stats { retried_attempts = retried; failed = (stats.failed + 1) % u64_mod }

  -- Session::record_outcome
  unfoldable pub record_outcome : ℕ → SessionStatus → Session W → Session W
  record_outcome address status s =
      let before = or_zero (s.stats address) in
      let (now, w) = system_now s.world in
      if is_ok status
      then record s {
        world = w;
        stats = update s.stats address (some (stats_after before status now));
        last_op_failed =
            if s.last_op_failed address
            then update s.last_op_failed address false
            else s.last_op_failed;
        recovery_pending =
            if s.last_op_failed address
            then update s.recovery_pending address true
            else s.recovery_pending;
      }
      else record s {
        stats = update s.stats address (some (stats_after before status 0));
        last_op_failed = update s.last_op_failed address true;
      }

  -- One attempt of each operation, on the world and the variable that the callback fills.
  unfoldable pub scan_attempt : ScanOptions → Act (W × List ScanResult) SessionStatus
  scan_attempt options (w, out) =
      let ((status, out'), w') = t.scan options out w in (status, (w', out'))

  unfoldable pub read_attempt : ℕ → ℕ → Act (W × RawFrame) SessionStatus
  read_attempt address timeout (w, frame) =
      let ((status, frame'), w') = t.read address frame timeout w in (status, (w', frame'))

  -- Send SET_REPLY, wait, read; a failed send ends the attempt.
  unfoldable pub query_attempt : SessionOptions → ℕ → ℕ → Act (W × RawFrame) SessionStatus
  query_attempt options address reply_opcode (w, out) =
      let (attempt, sent) = t.send address (set_reply_frame reply_opcode) w in
      let waited = delay_us options.query_delay_us sent in
      let ((status, out'), w') = t.read address out (timeout_us options) waited in
      if is_ok attempt then (status, (w', out')) else (attempt, (sent, out))

  -- Session::scan
  unfoldable pub scan :
      ScanOptions → List ScanResult → Act (Session W) (SessionStatus × List ScanResult)
  scan options out s =
      let validation = validate_scan_options options in
      let (status, (w, found)) =
        execute_with_retry etimedout (scan_attempt options) s.options.retry_count "scan"
          (s.world, []) in
      if not (is_ok validation)
      then ((validation, out), s)
      else if not (is_open s.world)
      then ((not_open_status, out), s)
      else ((status, found), record s { world = w })

  -- Session::send
  unfoldable pub send : ℕ → RawFrame → Act (Session W) SessionStatus
  send address frame s =
      let address_status = validate_address address in
      let frame_status = validate_frame frame in
      let (status, w) =
        execute_with_retry etimedout (t.send address frame) s.options.retry_count "send" s.world in
      let sent = record_outcome address status (record s { world = w }) in
      if not (is_ok address_status)
      then (address_status, s)
      else if not (is_ok frame_status)
      then (frame_status, s)
      else if not (is_open s.world)
      then (not_open_status, s)
      else (status, sent)

  -- What `read` and `query_read` share: the guards, the retried exchange, and its record.
  unfoldable pub exchange :
      Act (W × RawFrame) SessionStatus
      → String
      → ℕ
      → RawFrame
      → Act (Session W) (SessionStatus × RawFrame)
  exchange attempt operation address frame s =
      let address_status = validate_address address in
      let (status, (w, frame')) =
        execute_with_retry etimedout attempt s.options.retry_count operation (s.world, frame) in
      let done = record_outcome address status (record s { world = w }) in
      if not (is_ok address_status)
      then ((address_status, frame), s)
      else if not (is_open s.world)
      then ((not_open_status, frame), s)
      else ((status, frame'), done)

  -- Session::read
  unfoldable pub read : ℕ → RawFrame → Act (Session W) (SessionStatus × RawFrame)
  read address frame s =
      exchange (read_attempt address (timeout_us s.options)) "read" address frame s

  -- Session::query_read
  unfoldable pub query_read : ℕ → ℕ → RawFrame → Act (Session W) (SessionStatus × RawFrame)
  query_read address reply_opcode out s =
      exchange (query_attempt s.options address reply_opcode) "query_read" address out s

  -- Session::record_rejection
  unfoldable pub record_rejection : ℕ → Session W → Session W
  record_rejection address s =
      let stats = or_zero (s.stats address) in
      record s {
        stats =
            update s.stats address
              (some (record stats { rejected = (stats.rejected + 1) % u64_mod }));
      }

module _ {W : Type 0} where
  -- Session::stats_for
  unfoldable pub stats_for : ℕ → Session W → AddressStats
  stats_for address s = or_zero (s.stats address)

  -- Session::take_recovery
  unfoldable pub take_recovery : ℕ → Act (Session W) Bool
  take_recovery address s = (
    s.recovery_pending address,
    record s { recovery_pending = update s.recovery_pending address false },
  )

  -- Session::last_op_failed
  unfoldable pub last_op_failed : ℕ → Session W → Bool
  last_op_failed address s = s.last_op_failed address
