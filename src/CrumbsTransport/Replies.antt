-- ===== src/CrumbsTransport/Replies.antt =====
-- Sending and reading frames over the bus.
use anolis_provider_bread.Base.{
  ℕ, ◌≤◌, ◌<◌, ◌≡◌, refl, ◌∙◌, true, false, List, [], ◌∷◌, ◌++◌, length, replicate, is_empty, arith,
}
use anolis_provider_bread.Frames.{is_ok, success, RawFrame}
use anolis_provider_bread.Wire.{Message, I2cBus, Codec, IsMessage, CodecLaws}
use anolis_provider_bread.CrumbsTransport.{
  CrumbsTransport, validate_frame, populate_message, to_raw_frame, send_encoded, send, decode_reply,
  status_from_i2c, read,
}
use anolis_provider_bread.CrumbsTransport.Messages.{
  IsFrame, populate_message-IsMessage, to_raw_frame-populate_message,
}

pub is_empty_of_pos : (l : List ℕ) → 0 < length l → is_empty l ≡ false
is_empty_of_pos [] h = ground arith
is_empty_of_pos (b ∷ bytes) h = refl

module _ {B X : Type 0} (i2c : I2cBus B) (codec : Codec X) (laws : CodecLaws codec) where
  -- The bytes that a frame is sent as.
  abbrev pub wire_of : RawFrame → List ℕ
  wire_of frame = codec.encode (populate_message codec frame)

  decode_reply-message :
      (address : ℕ) (m : Message) (pad : List ℕ) (received : ℕ) (out : RawFrame)
      (t : CrumbsTransport B X)
      → IsMessage codec m
      → length (codec.encode m) ≤ received
      → decode_reply i2c codec address (codec.encode m ++ pad) received out t ≡ (
        (success, to_raw_frame m),
        record t { ctx = codec.account (codec.encode m ++ pad) (length (codec.encode m)) t.ctx },
      )
  unfolding decode_reply
  decode_reply-message address m pad received out t hm hl =
      ground (arith, laws.frame_length_padded m pad received hm hl, laws.decode_padded m pad hm)

  -- The bus answers a read of the transport's buffer with the message and padding.
  abbrev pub Answers : ℕ → ℕ → CrumbsTransport B X → Message → List ℕ → ℕ → Type 0
  Answers address timeout_us t m pad received =
      let ((status, (buffer, got)), b) =
        i2c.read address (replicate codec.message_max_size 0) timeout_us t.bus in
      (status.ok ≡ true)
      × (buffer ≡ codec.encode m ++ pad)
      × (got ≡ received)
      × (length (codec.encode m) ≤ received)

  pub read-message :
      (address timeout_us : ℕ) (t : CrumbsTransport B X) (out : RawFrame) (m : Message)
      (pad : List ℕ) (received : ℕ)
      → t.is_open ≡ true
      → IsMessage codec m
      → Answers address timeout_us t m pad received
      → (let ((status, frame), t') = read i2c codec address out timeout_us t in
          (status ≡ success)
          × (frame ≡ to_raw_frame m)
          × (t'.bus ≡ (i2c.read address (replicate codec.message_max_size 0) timeout_us t.bus).1)
          × (t'.is_open ≡ true))
  unfolding read
  read-message address timeout_us t out m pad received opened hm (ok, buffer, got, fits) =
      let b = (i2c.read address (replicate codec.message_max_size 0) timeout_us t.bus).1 in
      ground (arith, decode_reply-message address m pad received out (record t { bus = b }) hm fits)

  encode_nonempty : (m : Message) → IsMessage codec m → is_empty (codec.encode m) ≡ false
  encode_nonempty m hm = is_empty_of_pos (codec.encode m) (laws.encode_some m hm)

  validate_frame-fits : (frame : RawFrame) → IsFrame frame → validate_frame codec frame ≡ success
  unfolding validate_frame
  validate_frame-fits frame h = ground (arith, h.fits, laws.payload_room)

  -- A frame that fits is written to the bus once, encoded, and the write decides the result.
  pub send-frame :
      (address : ℕ) (frame : RawFrame) (t : CrumbsTransport B X)
      → t.is_open ≡ true
      → IsFrame frame
      → (let (written, b) = i2c.write address (wire_of frame) t.bus in
          let (status, t') = send i2c codec address frame t in
          (t' ≡ record t { bus = b }) × (is_ok status ≡ written.ok))
  unfolding send send_encoded status_from_i2c
  send-frame address frame t opened h = ground (
    arith,
    validate_frame-fits frame h,
    encode_nonempty (populate_message codec frame) (populate_message-IsMessage codec laws frame h),
  )

  -- On an open transport, sending a frame of bytes whose payload is up to 27 bytes writes its encoding
  -- once, with the result of the write. Where a read is answered by such an encoding and any padding
  -- after it, it gives the frame back.
  pub frame_round_trip :
      (address timeout_us : ℕ) (t : CrumbsTransport B X) (frame out : RawFrame) (pad : List ℕ)
      (received : ℕ)
      → t.is_open ≡ true
      → IsFrame frame
      → Answers address timeout_us t (populate_message codec frame) pad received
      → (let (written, b) = i2c.write address (wire_of frame) t.bus in
          let (status, t') = send i2c codec address frame t in
          (t' ≡ record t { bus = b }) × (is_ok status ≡ written.ok))
        × (let ((status, frame'), t') = read i2c codec address out timeout_us t in
            (status ≡ success) × (frame' ≡ frame))
  frame_round_trip address timeout_us t frame out pad received opened h answers =
      let m = populate_message codec frame in
      let (status, same, _, _) =
        read-message address timeout_us t out m pad received opened
          (populate_message-IsMessage codec laws frame h) answers in
      (
        send-frame address frame t opened h,
        (status, same ∙ to_raw_frame-populate_message codec laws frame h),
      )
