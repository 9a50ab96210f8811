-- ===== src/SessionApi.antt =====
-- The methods of a session that startup and the device adapters use (src/crumbs/session.hpp). The
-- clients are written against this interface; `session_api` is the session that implements it.
pub mod Log
use anolis_provider_bread.Base.{ℕ, Bool, List, Act}
use anolis_provider_bread.Frames.{SessionStatus, RawFrame, ScanOptions, ScanResult}
use anolis_provider_bread.Transport.{Transport}
use anolis_provider_bread.Session.State.{Session, AddressStats}
use anolis_provider_bread.Session.{
  scan, send, query_read, stats_for, record_rejection, take_recovery, last_op_failed,
}

pub record SessionApi (S : Type 0) : Type 0 where
  pub scan : ScanOptions → List ScanResult → Act S (SessionStatus × List ScanResult)
  pub send : ℕ → RawFrame → Act S SessionStatus
  pub query_read : ℕ → ℕ → RawFrame → Act S (SessionStatus × RawFrame)
  pub stats_for : ℕ → S → AddressStats
  pub record_rejection : ℕ → S → S
  pub take_recovery : ℕ → Act S Bool
  pub last_op_failed : ℕ → S → Bool

abbrev pub session_api : {W : Type 0} → Transport W → SessionApi (Session W)
session_api t = record {
  scan = scan t;
  send = send t;
  query_read = query_read t;
  stats_for = stats_for;
  record_rejection = record_rejection t;
  take_recovery = take_recovery;
  last_op_failed = last_op_failed;
}
