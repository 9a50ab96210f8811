-- ===== src/CannedBus/EndToEnd.antt =====
-- A command and the query after it, through the session and the transport to a canned device.
use anolis_provider_bread.Base.{
  ℕ, ◌≤◌, ℤ, ◌≡◌, ◌≢◌, refl, ap, ◌∙◌, true, some, ==_refl, length, arith,
}
use anolis_provider_bread.Frames.{is_ok, RawFrame, SessionStatus, set_reply_opcode}
use anolis_provider_bread.Transport.{Transport}
use anolis_provider_bread.Contracts.{Contracts}
use anolis_provider_bread.AdapterHelpers.{read_i16_le}
use anolis_provider_bread.Session.State.{Session, validate_address, validate_frame}
use anolis_provider_bread.Session.Retries.{execute_with_retry-first}
use anolis_provider_bread.Session.Guards.{InRange}
use anolis_provider_bread.Session.{send, query_read, record_outcome}
use anolis_provider_bread.Wire.{
  I2cStatuses, I2cStatusLaws, Codec, CodecLaws, DeviceConstants, ControllerScan,
}
use anolis_provider_bread.CrumbsTransport.{CrumbsTransport, populate_message}
use anolis_provider_bread.CrumbsTransport.Messages.{IsFrame, populate_message-IsMessage}
use anolis_provider_bread.CrumbsTransport.Replies.{send-frame}
use anolis_provider_bread.CannedBus.Device.{DeviceState, build_dcmt_state_payload}
use anolis_provider_bread.CannedBus.{CannedBus, put, receive}
use anolis_provider_bread.CannedBus.Port.{payload_is, canned_reply, canned_i2c}
use anolis_provider_bread.CannedBus.Bytes.{IsByte, act-SameLink, receive-IsDevice}
use anolis_provider_bread.CannedBus.Answers.{staged, write-message}
use anolis_provider_bread.CannedBus.Queries.{IsReady, put_found}
use anolis_provider_bread.CannedBus.Sessions.{host, recorded-canned, query_read-canned}
use anolis_provider_bread.CannedBus.Outputs.{
  InI16, Accepts, pair_payload, accepted, receive-accepted, not_staging, not_same,
  open_loop-reported,
}

-- A send whose first attempt succeeds.
send-first :
    {W : Type 0} (t : Transport W) (address : ℕ) (frame : RawFrame) (s : Session W)
    → InRange address
    → length frame.payload ≤ 27
    → t.is_open s.world ≡ true
    → is_ok (t.send address frame s.world).0 ≡ true
    → send t address frame s ≡ (
        let (status, w) = t.send address frame s.world in
        let status' : SessionStatus = record status { attempts = 1 } in
        (status', record_outcome t address status' (record s { world = w })))
unfolding send validate_address validate_frame
send-first t address frame s range fits opened good =
    rw
      (execute_with_retry-first t.etimedout (t.send address frame) s.options.retry_count "send"
        s.world good)
      (ground arith)

-- Of the contracts: the numbers are bytes, the two families differ, and SET_OPEN_LOOP is not SET_REPLY.
pub record IsContract (c : Contracts) : Type 0 where
  pub type_fits : IsByte c.dcmt.type_id
  pub open_loop_fits : IsByte c.dcmt.op_set_open_loop
  pub get_state_fits : IsByte c.dcmt.op_get_state
  pub families : c.dcmt.type_id ≢ c.rlht.type_id
  pub no_staging : c.dcmt.op_set_open_loop ≢ set_reply_opcode

abbrev pub open_loop_frame : Contracts → ℤ → ℤ → RawFrame
open_loop_frame c a b = record {
  type_id = c.dcmt.type_id;
  opcode = c.dcmt.op_set_open_loop;
  payload = pair_payload a b;
}

module _ {X : Type 0} (c : Contracts) (k : DeviceConstants) (codec : Codec X)
    (laws : CodecLaws codec) (st : I2cStatuses) (st_laws : I2cStatusLaws st)
    (controller_scan : ControllerScan CannedBus X) (clock : CannedBus → ℕ × CannedBus)
    (etimedout : ℤ) (clock_keeps : (bus : CannedBus) → (clock bus).1 ≡ bus)
    (applied_fits : IsByte k.ack_applied) where
  abbrev canned : Transport (CrumbsTransport CannedBus X)
  canned = host c k codec laws st st_laws controller_scan clock etimedout

  module _ (address : ℕ) (frame : RawFrame) (dev : DeviceState) where
    abbrev commanded : DeviceState
    commanded = receive k c (populate_message codec frame) dev

    -- The transport's send, as the session calls it.
    sent :
        (t : CrumbsTransport CannedBus X)
        → IsFrame frame
        → IsReady address dev t
        → let (status, t') = canned.send address frame t in
          (is_ok status ≡ true) × (t' ≡ record t { bus = put address commanded t.bus })
    sent t fits ready =
        let m = populate_message codec frame in
        let written =
          write-message c k codec laws st st_laws address m t.bus dev ready.bus_open ready.found
            (populate_message-IsMessage codec laws frame fits) in
        let (after, ok) =
          send-frame (canned_i2c c k codec st) codec laws address frame t ready.transport_open
            fits in
        (
          ok ∙ ap (λ r. r.0.ok) written ∙ st_laws.done_ok,
          after ∙ ap (λ r. record t { bus = r.1 }) written,
        )

    -- A command that is sent through the session arrives at the device.
    pub send-canned :
        (s : Session (CrumbsTransport CannedBus X))
        → InRange address
        → IsFrame frame
        → IsReady address dev s.world
        → let (status, s') = send canned address frame s in
          (is_ok status ≡ true) × IsReady address commanded s'.world
    send-canned s range fits ready =
        let m = populate_message codec frame in
        let (good, after) = sent s.world fits ready in
        let (status, t) = canned.send address frame s.world in
        let status' : SessionStatus = record status { attempts = 1 } in
        let (world, _) =
          recorded-canned c k codec laws st st_laws controller_scan clock etimedout address s
            clock_keeps status' t good in
        let at : t ≡ record s.world { bus = put address commanded s.world.bus } = after in
        let there = world ∙ at in
        let built = populate_message-IsMessage codec laws frame fits in
        rw (send-first canned address frame s range fits.fits ready.transport_open good) (
          good,
          record {
            transport_open = ap (λ w. w.is_open) there ∙ ready.transport_open;
            bus_open = ap (λ w. w.bus.opened) there ∙ ready.bus_open;
            found = ap (λ w. w.bus.devices address) there ∙ put_found address commanded s.world.bus;
            bytes =
                receive-IsDevice k c m dev applied_fits built.opcode_fits built.bytes_fit
                  ready.bytes;
          },
        )

  open_loop_frame-IsFrame : (a b : ℤ) → IsContract c → IsFrame (open_loop_frame c a b)
  open_loop_frame-IsFrame a b h = record {
    type_fits = h.type_fits;
    opcode_fits = h.open_loop_fits;
    bytes_fit = omega arith;
    fits = omega arith;
  }

  dcmt-canned_reply :
      (dev : DeviceState)
      → dev.type_id ≡ c.dcmt.type_id
      → IsContract c
      → canned_reply c k (staged c.dcmt.op_get_state dev)
        ≡ payload_is (build_dcmt_state_payload k dev) (staged c.dcmt.op_get_state dev)
  unfolding canned_reply build_dcmt_state_payload
  dcmt-canned_reply dev type h =
      rw
        (
          type,
          not_same codec k c c.dcmt.type_id c.rlht.type_id h.families,
          ==_refl c.dcmt.type_id,
          ==_refl c.dcmt.op_get_state,
        )
        refl

  module _ (address : ℕ) (a b : ℤ) (dev : DeviceState) where
    abbrev driven : DeviceState
    driven = commanded address (open_loop_frame c a b) dev

    driven_type :
        Accepts codec k c dev
        → dev.type_id ≡ c.dcmt.type_id
        → IsContract c
        → driven.type_id ≡ c.dcmt.type_id
    unfolding populate_message
    driven_type accepts type h =
        let m = populate_message codec (open_loop_frame c a b) in
        let other = not_staging codec k c c.dcmt.op_set_open_loop h.no_staging in
        let (same, _, _, _, _, _, _, _) = act-SameLink k c m (accepted codec k c m dev) in
        ap (λ d. d.type_id) (receive-accepted codec k c m dev accepts other) ∙ same ∙ type

    -- SET_OPEN_LOOP and then GET_STATE, both through the session and the transport, on a canned DCMT
    -- that accepts the command: both succeed, and the state that comes back holds the two PWM values
    -- that were sent, sign included, for every pair of 16-bit values.
    pub open_loop-seen :
        (out : RawFrame) (s : Session (CrumbsTransport CannedBus X))
        → IsContract c
        → InRange address
        → InI16 a
        → InI16 b
        → dev.type_id ≡ c.dcmt.type_id
        → Accepts codec k c dev
        → IsReady address dev s.world
        → let (status, s1) = send canned address (open_loop_frame c a b) s in
          let ((read_status, frame), s2) = query_read canned address c.dcmt.op_get_state out s1 in
          (is_ok status ≡ true)
          × (is_ok read_status ≡ true)
          × (read_i16_le frame.payload 1 ≡ some a)
          × (read_i16_le frame.payload 3 ≡ some b)
    open_loop-seen out s h range ha hb type accepts ready =
        let fits = open_loop_frame-IsFrame a b h in
        let (good, ready1) = send-canned address (open_loop_frame c a b) dev s range fits ready in
        let s1 = (send canned address (open_loop_frame c a b) s).1 in
        let (read_ok, frame, _, _) =
          query_read-canned c k codec laws st st_laws controller_scan clock etimedout address
            c.dcmt.op_get_state out s1 driven (staged c.dcmt.op_get_state driven)
            (build_dcmt_state_payload k driven) clock_keeps range h.get_state_fits ready1
            (dcmt-canned_reply driven (driven_type accepts type h) h) in
        let (first, second) =
          open_loop-reported codec k c a b dev accepts type h.no_staging ha hb in
        (
          good,
          ap is_ok read_ok,
          ap (λ f. read_i16_le f.payload 1) frame ∙ first,
          ap (λ f. read_i16_le f.payload 3) frame ∙ second,
        )
