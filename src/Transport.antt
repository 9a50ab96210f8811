-- ===== src/Transport.antt =====
-- The abstract transport of src/crumbs/session.hpp, with the clocks and the errno value that the
-- session reads. `W` is everything outside the provider: the bus, its devices and the time. An
-- operation may change it, and reading a clock may too.
use anolis_provider_bread.Base.{ℕ, ℤ, Bool, List, Act}
use anolis_provider_bread.Frames.{SessionStatus, SessionOptions, ScanOptions, ScanResult, RawFrame}

pub record Transport (W : Type 0) : Type 0 where
  -- Transport::open
  pub open_bus : SessionOptions → Act W SessionStatus
  pub close : W → W
  pub is_open : W → Bool
  -- The vector and the frame that a call fills are passed in, and come back as it leaves them.
  pub scan : ScanOptions → List ScanResult → Act W (SessionStatus × List ScanResult)
  pub send : ℕ → RawFrame → Act W SessionStatus
  pub read : ℕ → RawFrame → ℕ → Act W (SessionStatus × RawFrame)
  pub delay_us : ℕ → W → W
  -- std::chrono::system_clock::now
  pub system_now : Act W ℕ
  -- ETIMEDOUT of <cerrno>
  pub etimedout : ℤ
