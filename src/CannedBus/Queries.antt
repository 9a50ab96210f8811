-- ===== src/CannedBus/Queries.antt =====
-- A query through the transport over the canned bus: SET_REPLY, the wait and the read.
use anolis_provider_bread.Base.{
  ℕ, ◌-◌, ◌≡◌, refl, ap, ◌∙◌, true, false, List, some, length, replicate, is_empty, ℤ, String,
  ==_refl, has_both, arith,
}
use anolis_provider_bread.Frames.{
  SessionErrorCode, SessionStatus, SessionOptions, is_ok, success, RawFrame,
}
use anolis_provider_bread.Contracts.{Contracts}
use anolis_provider_bread.Transport.{Transport}
use anolis_provider_bread.Session.State.{set_reply_frame, timeout_us}
use anolis_provider_bread.Session.{query_attempt}
use anolis_provider_bread.Wire.{
  I2cStatuses, I2cStatusLaws, Codec, CodecLaws, DeviceConstants, I2cError, ControllerScan,
}
use anolis_provider_bread.CrumbsTransport.{
  CrumbsTransport, populate_message, send, read, delay_us, status_from_i2c, read_error_code,
  crumbs_transport,
}
use anolis_provider_bread.CrumbsTransport.Messages.{populate_message-IsMessage}
use anolis_provider_bread.CrumbsTransport.Replies.{read-message, send-frame}
use anolis_provider_bread.CannedBus.Device.{DeviceState}
use anolis_provider_bread.CannedBus.{CannedBus, put}
use anolis_provider_bread.CannedBus.Port
use anolis_provider_bread.CannedBus.Port.{
  CannedReply, payload_is, ack_read_fails, unanswered, canned_reply, reply_message, emit_canned,
  canned_i2c, write,
}
use anolis_provider_bread.CannedBus.Bytes.{IsByte, IsDevice}
use anolis_provider_bread.CannedBus.Payloads.{IsPayload, IsReply, canned_reply-IsReply}
use anolis_provider_bread.CannedBus.Answers.{
  staged, set_reply_frame-IsFrame, receive-set_reply, write-message, zeros_nonempty, emit-canned,
  answer, reply-IsMessage, reply-frame,
}

pub put_found :
    (address : ℕ) (dev : DeviceState) (bus : CannedBus)
    → (put address dev bus).devices address ≡ some dev
put_found address dev bus = rw (==_refl address) refl

-- What a read gives of a device with a pending query.
abbrev pub Reads :
    {X : Type 0}
    → ℕ
    → CannedReply
    → DeviceState
    → RawFrame
    → (SessionStatus × RawFrame) × CrumbsTransport CannedBus X
    → Type 0
Reads address (payload_is payload dev') dev out ((status, frame), t') =
    (status ≡ success)
    × (frame
        ≡ record { type_id = dev.type_id; opcode = dev.pending_reply_opcode; payload = payload })
    × (t'.bus.devices address ≡ some dev')
Reads address (ack_read_fails dev') dev out ((status, frame), t') =
    (status.code ≡ SessionErrorCode.read_failed)
    × (frame ≡ out)
    × (t'.bus.devices address ≡ some dev')
Reads address unanswered dev out ((status, frame), t') =
    (status.code ≡ SessionErrorCode.read_failed)
    × (frame ≡ out)
    × (t'.bus.devices address ≡ some dev)

-- A device with a pending query, on an open transport over an open canned bus.
pub record IsReady {X : Type 0} (address : ℕ) (dev : DeviceState) (t : CrumbsTransport CannedBus X)
    : Type 0 where
  pub transport_open : t.is_open ≡ true
  pub bus_open : t.bus.opened ≡ true
  pub found : t.bus.devices address ≡ some dev
  pub bytes : IsDevice dev

module _ {X : Type 0} (c : Contracts) (k : DeviceConstants) (codec : Codec X)
    (laws : CodecLaws codec) (st : I2cStatuses) (st_laws : I2cStatusLaws st) where
  module _ (address timeout : ℕ) (out : RawFrame) (t : CrumbsTransport CannedBus X)
      (dev : DeviceState) (ready : IsReady address dev t) (pending : dev.has_pending ≡ true) where
    read-payload :
        (payload : List ℕ) (dev' : DeviceState)
        → canned_reply c k dev ≡ payload_is payload dev'
        → IsPayload payload
        → Reads address
            (payload_is payload dev')
            dev
            out
            (read (canned_i2c c k codec st) codec address out timeout t)
    read-payload payload dev' e hp =
        let m = reply_message codec dev payload in
        let hm = reply-IsMessage c k codec laws st st_laws dev payload ready.bytes hp in
        let pad : List ℕ = replicate (codec.message_max_size - length (codec.encode m)) 0xFF in
        let a =
          answer c k codec laws st st_laws address timeout out t dev ready.bus_open ready.found
            pending ready.bytes payload dev' e hp in
        let (status, frame, bus, still_open) =
          read-message (canned_i2c c k codec st) codec laws address timeout t out m pad
            codec.message_max_size ready.transport_open hm
            (rw a (st_laws.done_ok, refl, refl, laws.encode_fits m hm)) in
        (
          status,
          frame ∙ reply-frame c k codec laws st st_laws dev payload ready.bytes hp,
          ap (λ b. b.devices address) (bus ∙ ap (λ r. r.1) a) ∙ put_found address dev' t.bus,
        )

    -- A read that the bus refuses is a failed read, and leaves the frame as it was.
    read-refused :
        (message : String) (bus : CannedBus)
        → Port.read c k codec st address (replicate codec.message_max_size 0) timeout t.bus
          ≡ ((st.failed I2cError.bus_error message, (replicate codec.message_max_size 0, 0)), bus)
        → (let ((status, frame), t') = read (canned_i2c c k codec st) codec address out timeout t in
            (status.code ≡ SessionErrorCode.read_failed) × (frame ≡ out) × (t'.bus ≡ bus))
    unfolding read status_from_i2c read_error_code
    read-refused message bus e = ground (
      arith,
      ready.transport_open,
      e,
      st_laws.failed_ok I2cError.bus_error message,
      st_laws.failed_code I2cError.bus_error message,
    )

    refused :
        (r : CannedReply)
        → canned_reply c k dev ≡ r
        → is_empty {A = ℕ} (replicate codec.message_max_size 0) ≡ false
        → Port.read c k codec st address (replicate codec.message_max_size 0) timeout t.bus
          ≡ emit_canned c k codec st address r dev (replicate codec.message_max_size 0) t.bus
    refused r e room =
        emit-canned c k codec laws st st_laws address timeout out t dev ready.bus_open ready.found
          pending room
        ∙ ap
            (λ r'.
              emit_canned c k codec st address r' dev (replicate codec.message_max_size 0) t.bus)
            e

    pub read-Reads :
        (r : CannedReply)
        → canned_reply c k dev ≡ r
        → IsReply r
        → is_empty {A = ℕ} (replicate codec.message_max_size 0) ≡ false
        → Reads address r dev out (read (canned_i2c c k codec st) codec address out timeout t)
    unfolding emit_canned
    read-Reads (payload_is payload dev') e hp room = read-payload payload dev' e hp
    read-Reads (ack_read_fails dev') e hp room =
        let (status, frame, bus) =
          read-refused "canned bus: injected GET_ACK read failure" (put address dev' t.bus)
            (refused (ack_read_fails dev') e room) in
        (status, frame, ap (λ b. b.devices address) bus ∙ put_found address dev' t.bus)
    read-Reads unanswered e hp room =
        let (status, frame, bus) =
          read-refused "canned bus: no canned response for requested reply" t.bus
            (refused unanswered e room) in
        (status, frame, ap (λ b. b.devices address) bus ∙ ready.found)

  module _ (controller_scan : ControllerScan CannedBus X) (clock : CannedBus → ℕ × CannedBus)
      (etimedout : ℤ) (options : SessionOptions) (address reply_opcode : ℕ) (out : RawFrame)
      (t : CrumbsTransport CannedBus X) (dev : DeviceState) (ready : IsReady address dev t)
      (is_byte : IsByte reply_opcode) where
    abbrev pub transport : Transport (CrumbsTransport CannedBus X)
    transport = crumbs_transport (canned_i2c c k codec st) codec controller_scan clock etimedout

    -- The transport after SET_REPLY.
    abbrev pub after_set_reply : CrumbsTransport CannedBus X
    after_set_reply = record t { bus = put address (staged reply_opcode dev) t.bus }

    set_reply_sent :
        let (status, t') =
          send (canned_i2c c k codec st) codec address (set_reply_frame reply_opcode) t in
        (is_ok status ≡ true) × (t' ≡ after_set_reply)
    set_reply_sent =
        let frame = set_reply_frame reply_opcode in
        let fits = set_reply_frame-IsFrame c k codec laws st st_laws reply_opcode is_byte in
        let m = populate_message codec frame in
        let written =
          write-message c k codec laws st st_laws address m t.bus dev ready.bus_open ready.found
            (populate_message-IsMessage codec laws frame fits)
          ∙ ap (λ d. (st.done, put address d t.bus))
              (receive-set_reply c k codec laws st st_laws reply_opcode dev) in
        let (after, ok) =
          send-frame (canned_i2c c k codec st) codec laws address frame t ready.transport_open
            fits in
        (
          ok ∙ ap (λ r. r.0.ok) written ∙ st_laws.done_ok,
          after ∙ ap (λ r. record t { bus = r.1 }) written,
        )

    delay-canned :
        (us : ℕ) (t' : CrumbsTransport CannedBus X)
        → delay_us (canned_i2c c k codec st) codec us t' ≡ t'
    unfolding delay_us
    delay-canned us t' = has_both (λ r. r ≡ t') t'.has_bus refl refl

    query_attempt-reads : query_attempt transport options address reply_opcode (t, out) ≡ (
        let ((status, frame), t') =
          read (canned_i2c c k codec st) codec address out (timeout_us options) after_set_reply in
        (status, (t', frame)))
    unfolding query_attempt
    query_attempt-reads =
        let (ok, after) = set_reply_sent in
        rw (ok, after, delay-canned options.query_delay_us after_set_reply) refl

    -- SET_REPLY, the wait and the read give what the device has for the query: the payload as a frame
    -- of the device and the opcode, or a failed read that leaves the frame as it was.
    pub query_attempt-Reads :
        let (status, (t', frame)) = query_attempt transport options address reply_opcode (t, out) in
        Reads address
          (canned_reply c k (staged reply_opcode dev))
          (staged reply_opcode dev)
          out
          ((status, frame), t')
    query_attempt-Reads =
        let dev' = staged reply_opcode dev in
        let bytes : IsDevice dev' = record {
          type_fits = ready.bytes.type_fits;
          pending_fits = is_byte;
          counter_fits = ready.bytes.counter_fits;
          opcode_fits = ready.bytes.opcode_fits;
          status_fits = ready.bytes.status_fits;
          reason_fits = ready.bytes.reason_fits;
          outcomes_fit = ready.bytes.outcomes_fit;
        } in
        let ready' : IsReady address dev' after_set_reply = record {
          transport_open = ready.transport_open;
          bus_open = ready.bus_open;
          found = put_found address dev' t.bus;
          bytes = bytes;
        } in
        let frame = set_reply_frame reply_opcode in
        let room = zeros_nonempty c k codec laws st st_laws (populate_message codec frame) (
          populate_message-IsMessage codec laws frame
            (set_reply_frame-IsFrame c k codec laws st st_laws reply_opcode is_byte)) in
        rw query_attempt-reads (
          read-Reads address (timeout_us options) out after_set_reply dev' ready' refl
            (canned_reply c k dev') refl (canned_reply-IsReply c k dev' bytes) room)
