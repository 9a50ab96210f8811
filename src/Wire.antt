-- ===== src/Wire.antt =====
-- What the provider uses of the I2C bus of the provider SDK and of the CRUMBS codec, whose code is not
-- in this repository: the statuses of the bus, its operations, and encoding, frame lengths, decoding
-- and the controller's scan.
use anolis_provider_bread.Base.{
  ℕ, ◌^◌, ◌≤◌, ◌<◌, ℤ, pos, String, Bool, true, false, List, ◌++◌, Option, some, ◌≡◌, length, All,
  drop, replicate, ◌-◌, Act,
}

-- I2cError: the codes that the provider names; `other` is any other code.
pub data I2cError : Type 0 where
  no_error invalid_argument not_open timeout bus_error other : I2cError

-- I2cStatus; `ok` is its test as a bool.
pub record I2cStatus : Type 0 where
  pub ok : Bool
  pub code : I2cError
  pub message : String
  pub native_errno : ℤ

abbrev pub is_timeout : I2cError → Bool
is_timeout I2cError.timeout = true
is_timeout _ = false

-- I2cStatus::ok and I2cStatus::failure.
pub record I2cStatuses : Type 0 where
  pub done : I2cStatus
  pub failed : I2cError → String → I2cStatus

pub record I2cStatusLaws (st : I2cStatuses) : Type 0 where
  pub done_ok : st.done.ok ≡ true
  pub failed_ok : (code : I2cError) (message : String) → (st.failed code message).ok ≡ false
  pub failed_code : (code : I2cError) (message : String) → (st.failed code message).code ≡ code

-- crumbs_message_t; `bytes` is its array `data`.
pub record Message : Type 0 where
  pub type_id : ℕ
  pub opcode : ℕ
  pub data_len : ℕ
  pub bytes : List ℕ

-- I2cBus, over a state that holds the bus and its devices. A read is given the buffer, whose length is
-- the count that it asks for, and returns the buffer and the count received.
pub record I2cBus (B : Type 0) : Type 0 where
  pub open_bus : Act B I2cStatus
  pub close : B → B
  pub write : ℕ → List ℕ → Act B I2cStatus
  pub read : ℕ → List ℕ → ℕ → Act B (I2cStatus × (List ℕ × ℕ))
  pub delay_us : ℕ → B → B

-- The CRUMBS codec. `X` is crumbs_context_t, which holds counters only: `account` is what a decode
-- does to it. `encode` gives the bytes that crumbs_encode_message writes, none where it returns 0.
-- The numbers are CRUMBS_MESSAGE_MAX_SIZE and CRUMBS_MAX_PAYLOAD.
pub record Codec (X : Type 0) : Type 0 where
  pub message_max_size : ℕ
  pub max_payload : ℕ
  pub encode : Message → List ℕ
  pub frame_length : List ℕ → ℕ → Option ℕ
  pub decode : List ℕ → ℕ → ℤ × Message
  pub init : X → X
  pub account : List ℕ → ℕ → X → X

-- A message that CRUMBS can carry: bytes, as many in the array as it has room for, and zeros after
-- the first `data_len`.
pub record IsMessage {X : Type 0} (codec : Codec X) (m : Message) : Type 0 where
  pub type_fits : m.type_id < 2 ^ 8
  pub opcode_fits : m.opcode < 2 ^ 8
  pub bytes_fit : All (λ b. b < 2 ^ 8) m.bytes
  pub fits : m.data_len ≤ codec.max_payload
  pub room : length m.bytes ≡ codec.max_payload
  pub zeros : drop m.data_len m.bytes ≡ replicate (codec.max_payload - m.data_len) 0

-- A payload has up to 27 bytes. A message is encoded in one to CRUMBS_MESSAGE_MAX_SIZE bytes. The header tells the length of the
-- frame, whatever follows it, and the frame decodes to the message.
pub record CodecLaws {X : Type 0} (codec : Codec X) : Type 0 where
  pub payload_room : codec.max_payload ≡ 27
  pub encode_fits :
      (m : Message) → IsMessage codec m → length (codec.encode m) ≤ codec.message_max_size
  pub encode_some : (m : Message) → IsMessage codec m → 0 < length (codec.encode m)
  pub frame_length_padded :
      (m : Message) (pad : List ℕ) (received : ℕ)
      → IsMessage codec m
      → length (codec.encode m) ≤ received
      → codec.frame_length (codec.encode m ++ pad) received ≡ some (length (codec.encode m))
  pub decode_padded :
      (m : Message) (pad : List ℕ)
      → IsMessage codec m
      → codec.decode (codec.encode m ++ pad) (length (codec.encode m)) ≡ (pos 0, m)

-- crumbs_controller_scan_for_crumbs_with_types: the context and the state of the bus, the two
-- callbacks, first and last address, strictness, the arrays for addresses and types, the size of both
-- and the timeout of a probe, to the return code and the arrays.
abbrev pub ControllerScan : Type 0 → Type 0 → Type 0
ControllerScan B X =
    (ℕ → List ℕ → Act B ℤ)
    → (ℕ → List ℕ → ℕ → Act B (ℤ × List ℕ))
    → ℕ
    → ℕ
    → Bool
    → List ℕ
    → List ℕ
    → ℕ
    → ℕ
    → Act (X × B) (ℤ × (List ℕ × List ℕ))

-- What the canned device names of CRUMBS and of the contracts besides: CRUMBS_ACK_APPLIED,
-- CRUMBS_ACK_REFUSED, CRUMBS_ACK_REJECTED, BREAD_INVALID_I16 and
-- BREAD_WATCHDOG_CLEAR_TRIP_PAYLOAD_LEN.
pub record DeviceConstants : Type 0 where
  pub ack_applied : ℕ
  pub ack_refused : ℕ
  pub ack_rejected : ℕ
  pub invalid_i16 : ℤ
  pub clear_trip_payload_len : ℕ
