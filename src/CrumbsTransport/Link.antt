-- ===== src/CrumbsTransport/Link.antt =====
-- The transport as a link that is closed, or open with a timeout for the probes of a scan.
use anolis_provider_bread.Base.{
  ℕ, max, ◌=ₛ◌, Bool, false, not, ◌&&◌, ◌≡◌, refl, List, Option, none, some, if◌then◌else◌, arith,
  replicate,
}
use anolis_provider_bread.Frames.{RawFrame, SessionOptions, ScanOptions, ScanResult}
use anolis_provider_bread.Wire.{I2cBus, Codec, ControllerScan}
use anolis_provider_bread.CrumbsTransport.{
  CrumbsTransport, scan_probe_timeout_us, opened, open_transport, close_transport, scan,
  closed_status, send_encoded, send, decode_reply, read, delay_us,
}

pub data LinkCall : Type 0 where
  opens : SessionOptions → LinkCall
  closes : LinkCall
  scans : ScanOptions → List ScanResult → LinkCall
  sends : ℕ → RawFrame → LinkCall
  reads : ℕ → RawFrame → ℕ → LinkCall
  delays : ℕ → LinkCall

-- The abstract state.
abbrev pub link : {B X : Type 0} → CrumbsTransport B X → Option ℕ
link t = if t.is_open then some t.scan_timeout_us else none

-- What a call makes of the link, where `bus_opens` says if the transport has a bus that opens.
unfoldable pub link_after : LinkCall → Bool → Option ℕ → Option ℕ
link_after (opens options) bus_opens none =
    if not (options.bus_path =ₛ "") && bus_opens
    then some (max 2000 options.query_delay_us)
    else none
link_after (opens options) bus_opens (some timeout) = some timeout
link_after closes bus_opens state = none
link_after (scans options out) bus_opens state = state
link_after (sends address frame) bus_opens state = state
link_after (reads address out timeout) bus_opens state = state
link_after (delays us) bus_opens state = state

module _ {B X : Type 0} (i2c : I2cBus B) (codec : Codec X)
    (controller_scan : ControllerScan B X) where
  -- The transport after a call.
  unfoldable pub after : LinkCall → CrumbsTransport B X → CrumbsTransport B X
  after (opens options) t = (open_transport i2c codec options t).1
  after closes t = close_transport i2c codec t
  after (scans options out) t = (scan i2c codec controller_scan options out t).1
  after (sends address frame) t = (send i2c codec address frame t).1
  after (reads address out timeout) t = (read i2c codec address out timeout t).1
  after (delays us) t = delay_us i2c codec us t

  abbrev pub bus_opens : CrumbsTransport B X → Bool
  bus_opens t = t.has_bus && (i2c.open_bus t.bus).0.ok

  scan_probe_timeout-max :
      (options : SessionOptions) → scan_probe_timeout_us options ≡ max 2000 options.query_delay_us
  unfolding scan_probe_timeout_us
  scan_probe_timeout-max options = ground arith

  decode_reply-link :
      (address : ℕ) (buffer : List ℕ) (received : ℕ) (out : RawFrame) (t : CrumbsTransport B X)
      → link (decode_reply i2c codec address buffer received out t).1 ≡ link t
  unfolding decode_reply
  decode_reply-link address buffer received out t = ground arith

  read-link :
      (address : ℕ) (out : RawFrame) (timeout : ℕ) (t : CrumbsTransport B X)
      → link (read i2c codec address out timeout t).1 ≡ link t
  unfolding read
  read-link address out timeout t =
      let ((status, (buffer, received)), b) =
        i2c.read address (replicate codec.message_max_size 0) timeout t.bus in
      ground (arith, decode_reply-link address buffer received out (record t { bus = b }))

  send-link :
      (address : ℕ) (frame : RawFrame) (t : CrumbsTransport B X)
      → link (send i2c codec address frame t).1 ≡ link t
  unfolding send send_encoded
  send-link address frame t = ground arith

  -- Every call takes the link to what the abstract link says: opening needs a bus path and a bus that
  -- opens, gives scan probes the query delay and at least 2000 microseconds, and changes nothing on an
  -- open link; closing always closes; the other calls leave the link as it is.
  pub after-link :
      (call : LinkCall) (t : CrumbsTransport B X)
      → link (after call t) ≡ link_after call (bus_opens t) (link t)
  unfolding after link_after open_transport opened close_transport scan delay_us
  after-link (opens options) t = ground (arith, scan_probe_timeout-max options)
  after-link closes t = ground arith
  after-link (scans options out) t = ground arith
  after-link (sends address frame) t = ground (arith, send-link address frame t)
  after-link (reads address out timeout) t = ground (arith, read-link address out timeout t)
  after-link (delays us) t = ground arith

  -- On a closed transport nothing reaches the bus: a scan, a send and a read fail as not open, and
  -- leave the transport, the bus and what they would fill as they were.
  pub closed_untouched :
      (options : ScanOptions) (found : List ScanResult) (address timeout : ℕ) (frame out : RawFrame)
      (t : CrumbsTransport B X)
      → t.is_open ≡ false
      → (scan i2c codec controller_scan options found t ≡ ((closed_status, found), t))
        × (send i2c codec address frame t ≡ (closed_status, t))
        × (read i2c codec address out timeout t ≡ ((closed_status, out), t))
  unfolding scan send read
  closed_untouched options found address timeout frame out t shut =
      (rw shut refl, rw shut refl, rw shut refl)
