-- ===== src/Tests/SampleBus.antt =====
-- A concrete codec with no checksum, statuses of the bus, and a canned bus with a DCMT and an RLHT.
use anolis_provider_bread.Base.{
  ℕ, zero, suc, ◌-◌, ◌≤◌, ℤ, pos, negsuc, true, false, ◌≡◌, refl, ap, sym, ◌∙◌, List, [], ◌∷◌, ◌++◌,
  Option, none, some, leb, if◌then◌else◌, length, take, drop, replicate, take-length_append, arith,
  update,
}
use anolis_provider_bread.Wire.{
  I2cError, I2cStatuses, I2cStatusLaws, Message, Codec, IsMessage, CodecLaws, DeviceConstants,
  ControllerScan,
}
use anolis_provider_bread.CrumbsTransport.{CrumbsTransport}
use anolis_provider_bread.CannedBus.Device.{DeviceState, seeded_device}
use anolis_provider_bread.CannedBus.{CannedBus, new_canned_bus}
use anolis_provider_bread.CannedBus.Bytes.{IsDevice}
use anolis_provider_bread.CannedBus.Queries.{IsReady}

abbrev pub sample_statuses : I2cStatuses
sample_statuses = record {
  done = record { ok = true; code = I2cError.no_error; message = ""; native_errno = pos 0 };
  failed =
      λ code message. record { ok = false; code = code; message = message; native_errno = pos 5 };
}

abbrev pub sample_status_laws : I2cStatusLaws sample_statuses
sample_status_laws = record {
  done_ok = refl;
  failed_ok = λ code message. refl;
  failed_code = λ code message. refl;
}

abbrev sample_encode : Message → List ℕ
sample_encode m = m.type_id ∷ m.opcode ∷ m.data_len ∷ take m.data_len m.bytes

abbrev sample_frame_length : List ℕ → ℕ → Option ℕ
sample_frame_length (t ∷ o ∷ n ∷ rest) received =
    if leb (suc (suc (suc n))) received then some (suc (suc (suc n))) else none
sample_frame_length _ received = none

abbrev sample_decode : List ℕ → ℕ → ℤ × Message
sample_decode (t ∷ o ∷ n ∷ rest) len = (
  pos 0,
  record { type_id = t; opcode = o; data_len = n; bytes = take n rest ++ replicate (27 - n) 0 },
)
sample_decode _ len =
    (negsuc 0, record { type_id = 0; opcode = 0; data_len = 0; bytes = replicate 27 0 })

abbrev pub sample_codec : Codec ℕ
sample_codec = record {
  message_max_size = 31;
  max_payload = 27;
  encode = sample_encode;
  frame_length = sample_frame_length;
  decode = sample_decode;
  init = λ ctx. 0;
  account = λ bytes len ctx. suc ctx;
}

length-take : (n : ℕ) (l : List ℕ) → n ≤ length l → length (take n l) ≡ n
length-take zero [] h = refl
length-take zero (x ∷ l) h = refl
length-take (suc n) [] h = ground arith
length-take (suc n) (x ∷ l) h = ap suc (length-take n l (omega (arith, h)))

take-drop : (n : ℕ) (l : List ℕ) → take n l ++ drop n l ≡ l
take-drop n [] = refl
take-drop zero (x ∷ l) = refl
take-drop (suc n) (x ∷ l) = ap (λ t. x ∷ t) (take-drop n l)

take_padded : (n : ℕ) (l pad : List ℕ) → n ≤ length l → take n (take n l ++ pad) ≡ take n l
take_padded n l pad h =
    ap (λ k. take k (take n l ++ pad)) (sym (length-take n l h)) ∙ take-length_append (take n l) pad

long : (m : Message) → IsMessage sample_codec m → m.data_len ≤ length m.bytes
long m h = omega (arith, h.fits, h.room)

sample_length :
    (m : Message) → IsMessage sample_codec m → length (sample_encode m) ≡ suc (suc (suc m.data_len))
sample_length m h = ap (λ n. suc (suc (suc n))) (length-take m.data_len m.bytes (long m h))

sample_frame_length_padded :
    (m : Message) (pad : List ℕ) (received : ℕ)
    → IsMessage sample_codec m
    → length (sample_encode m) ≤ received
    → sample_frame_length (sample_encode m ++ pad) received ≡ some (length (sample_encode m))
sample_frame_length_padded m pad received h le = ground (arith, sample_length m h)

sample_decode_padded :
    (m : Message) (pad : List ℕ)
    → IsMessage sample_codec m
    → sample_decode (sample_encode m ++ pad) (length (sample_encode m)) ≡ (pos 0, m)
sample_decode_padded m pad h =
    ap (λ b. (pos 0, record m { bytes = b }))
      (ap (λ t. t ++ replicate (27 - m.data_len) 0) (take_padded m.data_len m.bytes pad (long m h))
        ∙ ap (λ t. take m.data_len m.bytes ++ t) (sym h.zeros)
        ∙ take-drop m.data_len m.bytes)

pub sample_laws : CodecLaws sample_codec
sample_laws = record {
  payload_room = refl;
  encode_fits = λ m h. omega (arith, sample_length m h, h.fits);
  encode_some = λ m h. omega (arith, sample_length m h);
  frame_length_padded = sample_frame_length_padded;
  decode_padded = sample_decode_padded;
}

abbrev pub sample_constants : DeviceConstants
sample_constants = record {
  ack_applied = 0;
  ack_refused = 1;
  ack_rejected = 2;
  invalid_i16 = negsuc 32767;
  clear_trip_payload_len = 0;
}

-- A DCMT, and one that has tripped.
abbrev pub canned_dcmt : DeviceState
canned_dcmt = record seeded_device { type_id = 2 }

abbrev pub canned_rlht : DeviceState
canned_rlht = record seeded_device { type_id = 1 }

abbrev pub tripped_dcmt : DeviceState
tripped_dcmt = record canned_dcmt { watchdog_tripped = true; watchdog_trip_count = 1 }

-- An open bus with the DCMT at 0x20, and an open transport over it.
abbrev pub open_bus : CannedBus
open_bus = record (new_canned_bus "mock://bench") {
  opened = true;
  devices = update (λ address. none) 32 (some canned_dcmt);
}

abbrev pub open_link : CrumbsTransport CannedBus ℕ
open_link = record {
  bus = open_bus;
  has_bus = true;
  ctx = 0;
  scan_timeout_us = 10000;
  is_open = true;
}

pub canned_dcmt-IsDevice : IsDevice canned_dcmt
canned_dcmt-IsDevice = record {
  type_fits = omega arith;
  pending_fits = omega arith;
  counter_fits = omega arith;
  opcode_fits = omega arith;
  status_fits = omega arith;
  reason_fits = omega arith;
  outcomes_fit = tt;
}

pub open_link-IsReady : IsReady 32 canned_dcmt open_link
open_link-IsReady = record {
  transport_open = refl;
  bus_open = refl;
  found = refl;
  bytes = canned_dcmt-IsDevice;
}

abbrev pub no_scan : {B : Type 0} → ControllerScan B ℕ
no_scan write_fn read_fn first last strict addresses types max timeout s =
    ((pos 0, (addresses, types)), s)
