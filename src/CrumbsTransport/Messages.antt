-- ===== src/CrumbsTransport/Messages.antt =====
-- The messages that the transport builds of frames, and the frames that it reads of messages.
use anolis_provider_bread.Base.{
  ℕ, zero, suc, ◌-◌, ◌%◌, ◌^◌, ◌≤◌, ◌<◌, List, [], ◌∷◌, ◌++◌, ◌≡◌, refl, ap, length, drop,
  replicate, take-length_append, length-append, All, arith,
}
use anolis_provider_bread.Frames.{RawFrame}
use anolis_provider_bread.Wire.{Codec, IsMessage, CodecLaws}
use anolis_provider_bread.CrumbsTransport.{populate_message, to_raw_frame}

-- A frame whose numbers are bytes and whose payload fits in a CRUMBS message.
pub record IsFrame (frame : RawFrame) : Type 0 where
  pub type_fits : frame.type_id < 2 ^ 8
  pub opcode_fits : frame.opcode < 2 ^ 8
  pub bytes_fit : All (λ b. b < 2 ^ 8) frame.payload
  pub fits : length frame.payload ≤ 27

drop-length_append : (xs ys : List ℕ) → drop (length xs) (xs ++ ys) ≡ ys
drop-length_append [] [] = refl
drop-length_append [] (y ∷ ys) = refl
drop-length_append (x ∷ xs) ys = drop-length_append xs ys

pub length-replicate : (n a : ℕ) → length (replicate n a) ≡ n
length-replicate zero a = refl
length-replicate (suc n) a = ap suc (length-replicate n a)

All-append :
    (xs ys : List ℕ)
    → All (λ b. b < 2 ^ 8) xs
    → All (λ b. b < 2 ^ 8) ys
    → All (λ b. b < 2 ^ 8) (xs ++ ys)
All-append [] ys hx hy = hy
All-append (x ∷ xs) ys (h, hx) hy = (h, All-append xs ys hx hy)

All-zeros : (n : ℕ) → All (λ b. b < 2 ^ 8) (replicate n 0)
All-zeros zero = tt
All-zeros (suc n) = (omega arith, All-zeros n)

-- The length of a payload that fits survives its byte.
length_byte : (l : List ℕ) → length l ≤ 27 → length l % 2 ^ 8 ≡ length l
length_byte l h = omega arith

module _ {X : Type 0} (codec : Codec X) (laws : CodecLaws codec) where
  pub populate_message-IsMessage :
      (frame : RawFrame) → IsFrame frame → IsMessage codec (populate_message codec frame)
  unfolding populate_message
  populate_message-IsMessage frame h =
      let zeros : List ℕ = replicate (codec.max_payload - length frame.payload) 0 in
      let len = length_byte frame.payload h.fits in
      record {
        type_fits = h.type_fits;
        opcode_fits = h.opcode_fits;
        bytes_fit = All-append frame.payload zeros h.bytes_fit (All-zeros _);
        fits = omega (arith, h.fits, laws.payload_room);
        room = omega (
          arith,
          h.fits,
          laws.payload_room,
          length-append {0} frame.payload zeros,
          length-replicate (codec.max_payload - length frame.payload) 0,
        );
        zeros = rw len (drop-length_append frame.payload zeros);
      }

  pub to_raw_frame-populate_message :
      (frame : RawFrame) → IsFrame frame → to_raw_frame (populate_message codec frame) ≡ frame
  unfolding to_raw_frame populate_message
  to_raw_frame-populate_message frame h =
      let zeros : List ℕ = replicate (codec.max_payload - length frame.payload) 0 in
      rw (length_byte frame.payload h.fits, take-length_append frame.payload zeros) refl
