-- ===== src/CrumbsTransport/Failures.antt =====
-- How a read fails.
use anolis_provider_bread.Base.{ℕ, true, false, Bool, not, ◌&&◌, ◌≡◌, ◌⊎◌, List, replicate, arith}
use anolis_provider_bread.Frames.{SessionErrorCode, is_ok, RawFrame}
use anolis_provider_bread.Wire.{is_timeout, I2cBus, Codec}
use anolis_provider_bread.CrumbsTransport.{
  CrumbsTransport, status_from_i2c, read_error_code, decode_error_code, decode_reply, read,
}

abbrev pub says_timeout : SessionErrorCode → Bool
says_timeout SessionErrorCode.timeout = true
says_timeout _ = false

module _ {B X : Type 0} (i2c : I2cBus B) (codec : Codec X) where
  decode_reply-fails :
      (address : ℕ) (buffer : List ℕ) (received : ℕ) (out : RawFrame) (t : CrumbsTransport B X)
      → let ((status, frame), t') = decode_reply i2c codec address buffer received out t in
        ((is_ok status ≡ true) ⊎ (frame ≡ out))
        × (says_timeout status.code ≡ false)
        × (t'.bus ≡ t.bus)
  unfolding decode_reply decode_error_code
  decode_reply-fails address buffer received out t = ground arith

  -- A read of an open transport makes one read of the bus. If it fails, the frame that it would fill
  -- stays as it was. It fails as a timeout exactly when the bus reports a timeout, never for bytes that
  -- are no frame or do not decode.
  pub read-fails :
      (address : ℕ) (out : RawFrame) (timeout_us : ℕ) (t : CrumbsTransport B X)
      → t.is_open ≡ true
      → let ((bus_status, _), b) =
          i2c.read address (replicate codec.message_max_size 0) timeout_us t.bus in
        let ((status, frame), t') = read i2c codec address out timeout_us t in
        (t'.bus ≡ b)
        × ((is_ok status ≡ true) ⊎ (frame ≡ out))
        × (says_timeout status.code ≡ (not bus_status.ok && is_timeout bus_status.code))
  unfolding read status_from_i2c read_error_code
  read-fails address out timeout_us t opened =
      let ((bus_status, (buffer, received)), b) =
        i2c.read address (replicate codec.message_max_size 0) timeout_us t.bus in
      ground (arith, decode_reply-fails address buffer received out (record t { bus = b }))
