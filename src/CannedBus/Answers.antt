-- ===== src/CannedBus/Answers.antt =====
-- What the canned bus makes of the writes and the reads of the transport.
use anolis_provider_bread.Base.{
  ℕ, zero, suc, ◌-◌, ◌≤◌, ◌≡◌, refl, ap, ◌∙◌, true, false, List, [], ◌∷◌, ◌++◌, some, length,
  replicate, is_empty, arith,
}
use anolis_provider_bread.Frames.{RawFrame}
use anolis_provider_bread.Contracts.{Contracts}
use anolis_provider_bread.Session.State.{set_reply_frame}
use anolis_provider_bread.Wire.{
  I2cStatuses, I2cStatusLaws, Message, Codec, IsMessage, CodecLaws, DeviceConstants,
}
use anolis_provider_bread.CrumbsTransport.{CrumbsTransport, populate_message, to_raw_frame}
use anolis_provider_bread.CrumbsTransport.Messages.{
  IsFrame, populate_message-IsMessage, to_raw_frame-populate_message, length-replicate,
}
use anolis_provider_bread.CrumbsTransport.Replies.{is_empty_of_pos}
use anolis_provider_bread.CannedBus.Device.{DeviceState}
use anolis_provider_bread.CannedBus.{CannedBus, put, receive, apply_write}
use anolis_provider_bread.CannedBus.Port
use anolis_provider_bread.CannedBus.Port.{
  CannedReply, payload_is, ack_read_fails, unanswered, canned_reply, reply_message, emit_encoded,
  emit_canned, emit_reply, canned_i2c, fill, write,
}
use anolis_provider_bread.CannedBus.Bytes.{IsByte, IsDevice}
use anolis_provider_bread.CannedBus.Payloads.{IsPayload}

append_nil : (l : List ℕ) → l ++ [] ≡ l
append_nil [] = refl
append_nil (x ∷ l) = ap (λ t. x ∷ t) (append_nil l)

fill_padding : (n : ℕ) → fill (replicate n 0) [] ≡ replicate n 0xFF
unfolding fill
fill_padding zero = refl
fill_padding (suc n) = ap (λ t. 0xFF ∷ t) (fill_padding n)

-- A read of a buffer of zeros gives the frame and 0xFF after it.
fill_lem :
    (n : ℕ) (encoded : List ℕ)
    → length encoded ≤ n
    → fill (replicate n 0) encoded ≡ encoded ++ replicate (n - length encoded) 0xFF
unfolding fill
fill_lem n [] h = let e : n - 0 ≡ n = omega arith in rw e (fill_padding n)
fill_lem zero (b ∷ encoded) h = ground arith
fill_lem (suc n) (b ∷ encoded) h =
    let e : suc n - suc (length encoded) ≡ n - length encoded = omega arith in
    rw e (ap (λ t. b ∷ t) (fill_lem n encoded (omega (arith, h))))

-- The device after SET_REPLY.
abbrev pub staged : ℕ → DeviceState → DeviceState
staged reply_opcode dev = record dev { pending_reply_opcode = reply_opcode; has_pending = true }

module _ {X : Type 0} (c : Contracts) (k : DeviceConstants) (codec : Codec X)
    (laws : CodecLaws codec) (st : I2cStatuses) (st_laws : I2cStatusLaws st) where
  pub set_reply_frame-IsFrame :
      (reply_opcode : ℕ) → IsByte reply_opcode → IsFrame (set_reply_frame reply_opcode)
  set_reply_frame-IsFrame reply_opcode h = record {
    type_fits = omega arith;
    opcode_fits = omega arith;
    bytes_fit = (h, tt);
    fits = omega arith;
  }

  pub receive-set_reply :
      (reply_opcode : ℕ) (dev : DeviceState)
      → receive k c (populate_message codec (set_reply_frame reply_opcode)) dev
        ≡ staged reply_opcode dev
  unfolding receive populate_message
  receive-set_reply reply_opcode dev = refl

  -- A message that is written to an open bus reaches the device at the address.
  pub write-message :
      (address : ℕ) (m : Message) (bus : CannedBus) (dev : DeviceState)
      → bus.opened ≡ true
      → bus.devices address ≡ some dev
      → IsMessage codec m
      → write c k codec st address (codec.encode m) bus
        ≡ (st.done, put address (receive k c m dev) bus)
  unfolding write apply_write
  write-message address m bus dev opened found hm =
      ground (arith, laws.encode_some m hm, append_nil (codec.encode m), laws.decode_padded m [] hm)

  -- What a read of the canned bus returns for a payload.
  emit_encoded-payload :
      (m : Message)
      → IsMessage codec m
      → emit_encoded st (codec.encode m) (replicate codec.message_max_size 0) ≡ (
        st.done,
        (
          codec.encode m ++ replicate (codec.message_max_size - length (codec.encode m)) 0xFF,
          codec.message_max_size,
        ),
      )
  unfolding emit_encoded
  emit_encoded-payload m hm =
      rw
        (
          is_empty_of_pos (codec.encode m) (laws.encode_some m hm),
          fill_lem codec.message_max_size (codec.encode m) (laws.encode_fits m hm),
          length-replicate codec.message_max_size 0,
        )
        refl

  -- A buffer that a message fits in is not empty.
  pub zeros_nonempty :
      (m : Message)
      → IsMessage codec m
      → is_empty {A = ℕ} (replicate codec.message_max_size 0) ≡ false
  zeros_nonempty m hm = is_empty_of_pos (replicate codec.message_max_size 0) (
      omega (
        arith,
        length-replicate codec.message_max_size 0,
        laws.encode_some m hm,
        laws.encode_fits m hm,
      ))

  abbrev pub reply_frame : DeviceState → List ℕ → RawFrame
  reply_frame dev payload = record {
    type_id = dev.type_id;
    opcode = dev.pending_reply_opcode;
    payload = payload;
  }

  pub reply-IsFrame :
      (dev : DeviceState) (payload : List ℕ)
      → IsDevice dev
      → IsPayload payload
      → IsFrame (reply_frame dev payload)
  reply-IsFrame dev payload hd hp = record {
    type_fits = hd.type_fits;
    opcode_fits = hd.pending_fits;
    bytes_fit = hp.bytes_fit;
    fits = hp.fits;
  }

  pub reply-IsMessage :
      (dev : DeviceState) (payload : List ℕ)
      → IsDevice dev
      → IsPayload payload
      → IsMessage codec (reply_message codec dev payload)
  unfolding reply_message populate_message
  reply-IsMessage dev payload hd hp =
      populate_message-IsMessage codec laws (reply_frame dev payload)
        (reply-IsFrame dev payload hd hp)

  pub reply-frame :
      (dev : DeviceState) (payload : List ℕ)
      → IsDevice dev
      → IsPayload payload
      → to_raw_frame (reply_message codec dev payload) ≡ reply_frame dev payload
  unfolding reply_message populate_message
  reply-frame dev payload hd hp =
      to_raw_frame-populate_message codec laws (reply_frame dev payload)
        (reply-IsFrame dev payload hd hp)

  module _ (address timeout_us : ℕ) (out : RawFrame) (t : CrumbsTransport CannedBus X)
      (dev : DeviceState) where
    pub emit-canned :
        t.bus.opened ≡ true
        → t.bus.devices address ≡ some dev
        → dev.has_pending ≡ true
        → is_empty {A = ℕ} (replicate codec.message_max_size 0) ≡ false
        → Port.read c k codec st address (replicate codec.message_max_size 0) timeout_us t.bus
          ≡ emit_canned c k codec st address
              (canned_reply c k dev)
              dev
              (replicate codec.message_max_size 0)
              t.bus
    unfolding Port.read emit_reply
    emit-canned opened found pending room = ground arith

    pub answer :
        t.bus.opened ≡ true
        → t.bus.devices address ≡ some dev
        → dev.has_pending ≡ true
        → IsDevice dev
        → (payload : List ℕ) (dev' : DeviceState) → canned_reply c k dev ≡ payload_is payload dev'
        → IsPayload payload
        → Port.read c k codec st address (replicate codec.message_max_size 0) timeout_us t.bus ≡ (
          (
            st.done,
            (
              codec.encode (reply_message codec dev payload)
                  ++ replicate
                      (codec.message_max_size
                        - length (codec.encode (reply_message codec dev payload)))
                      0xFF,
              codec.message_max_size,
            ),
          ),
          put address dev' t.bus,
        )
    unfolding emit_canned
    answer opened found pending hd payload dev' e hp =
        let m = reply_message codec dev payload in
        let hm = reply-IsMessage dev payload hd hp in
        emit-canned opened found pending (zeros_nonempty m hm)
        ∙ rw e (ap (λ r. (r, put address dev' t.bus)) (emit_encoded-payload m hm))
