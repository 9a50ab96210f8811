-- ===== src/CannedBus/Sessions.antt =====
-- A session over the transport over the canned bus.
use anolis_provider_bread.Base.{ℕ, ℤ, ◌≡◌, ap, ◌∙◌, true, false, List, some, arith, Act, String}
use anolis_provider_bread.Frames.{is_ok, success, RawFrame, SessionStatus}
use anolis_provider_bread.Transport.{Transport}
use anolis_provider_bread.Contracts.{Contracts}
use anolis_provider_bread.Session.State.{Session, validate_address}
use anolis_provider_bread.Session.Retries.{execute_with_retry-first}
use anolis_provider_bread.Session.Guards.{InRange}
use anolis_provider_bread.Session.{
  exchange, query_read, query_attempt, record_outcome, last_op_failed,
}
use anolis_provider_bread.Wire.{
  I2cStatuses, I2cStatusLaws, Codec, CodecLaws, DeviceConstants, ControllerScan,
}
use anolis_provider_bread.CrumbsTransport.{CrumbsTransport, crumbs_transport}
use anolis_provider_bread.CannedBus.Device.{DeviceState}
use anolis_provider_bread.CannedBus.{CannedBus}
use anolis_provider_bread.CannedBus.Port.{payload_is, canned_reply, canned_i2c}
use anolis_provider_bread.CannedBus.Bytes.{IsByte}
use anolis_provider_bread.CannedBus.Answers.{staged}
use anolis_provider_bread.CannedBus.Queries.{IsReady, query_attempt-Reads}

-- An exchange whose first attempt succeeds.
pub exchange-first :
    {W : Type 0} (t : Transport W) (attempt : Act (W × RawFrame) SessionStatus) (operation : String)
    (address : ℕ) (out : RawFrame) (s : Session W)
    → InRange address
    → t.is_open s.world ≡ true
    → is_ok (attempt (s.world, out)).0 ≡ true
    → exchange t attempt operation address out s ≡ (
        let (status, (w, frame)) = attempt (s.world, out) in
        let status' = record status { attempts = 1 } in
        ((status', frame), record_outcome t address status' (record s { world = w })))
unfolding exchange validate_address
exchange-first t attempt operation address out s range opened good =
    rw
      (execute_with_retry-first t.etimedout attempt s.options.retry_count operation (s.world, out)
        good)
      (ground arith)

module _ {X : Type 0} (c : Contracts) (k : DeviceConstants) (codec : Codec X)
    (laws : CodecLaws codec) (st : I2cStatuses) (st_laws : I2cStatusLaws st)
    (controller_scan : ControllerScan CannedBus X) (clock : CannedBus → ℕ × CannedBus)
    (etimedout : ℤ) where
  abbrev pub host : Transport (CrumbsTransport CannedBus X)
  host = crumbs_transport (canned_i2c c k codec st) codec controller_scan clock etimedout

  -- The record of a success touches neither the bus nor the link.
  pub recorded-canned :
      (address : ℕ) (s : Session (CrumbsTransport CannedBus X))
      → ((bus : CannedBus) → (clock bus).1 ≡ bus)
      → (status : SessionStatus) (t : CrumbsTransport CannedBus X) → is_ok status ≡ true
      → (let s' = record_outcome host address status (record s { world = t }) in
          (s'.world ≡ t) × (last_op_failed address s' ≡ false))
  unfolding record_outcome last_op_failed
  recorded-canned address s clock_keeps status t good = ground (arith, clock_keeps t.bus)

  module _ (address reply_opcode : ℕ) (out : RawFrame) (s : Session (CrumbsTransport CannedBus X))
      (dev dev' : DeviceState) (payload : List ℕ) where
    -- On a session over the transport over an open canned bus, a query that the device answers with
    -- a payload succeeds at the first attempt, whatever the retry count, and gives the payload as a
    -- frame of the device's type and the queried opcode. The device is left as the answer left it, and
    -- the address is not failing.
    pub query_read-canned :
        ((bus : CannedBus) → (clock bus).1 ≡ bus)
        → InRange address
        → IsByte reply_opcode
        → IsReady address dev s.world
        → canned_reply c k (staged reply_opcode dev) ≡ payload_is payload dev'
        → let ((status, frame), s') = query_read host address reply_opcode out s in
          (status ≡ record success { attempts = 1 })
          × (frame ≡ record { type_id = dev.type_id; opcode = reply_opcode; payload = payload })
          × (s'.world.bus.devices address ≡ some dev')
          × (last_op_failed address s' ≡ false)
    unfolding query_read
    query_read-canned clock_keeps range is_byte ready e =
        let (ok, frame, found) = rw e at (
          query_attempt-Reads c k codec laws st st_laws controller_scan clock etimedout s.options
            address reply_opcode out s.world dev ready is_byte) in
        let (status, (t', frame')) =
          query_attempt host s.options address reply_opcode (s.world, out) in
        let status' : SessionStatus = record status { attempts = 1 } in
        let good : is_ok status ≡ true = ap is_ok ok in
        let (world, kept) = recorded-canned address s clock_keeps status' t' good in
        rw
          (exchange-first host (query_attempt host s.options address reply_opcode) "query_read"
            address out s range ready.transport_open good)
          (
            ap (λ (r : SessionStatus). record r { attempts = 1 }) ok,
            frame,
            ap (λ w. w.bus.devices address) world ∙ found,
            kept,
          )
