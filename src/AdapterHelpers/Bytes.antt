-- ===== src/AdapterHelpers/Bytes.antt =====
-- What the payload writers append is what the readers read back.
use anolis_provider_bread.Base.{
  ℕ, ◌+◌, ◌*◌, ◌/◌, ◌%◌, ◌^◌, ◌<◌, ℤ, ◌≤ℤ◌, int16_min, int16_max, to_u16, to_u16-lt, to_i16-to_u16,
  [], some, ◌≡◌, ap, arith,
}
use anolis_provider_bread.AdapterHelpers.{append_i16_le, append_u16_le, read_i16_le, read_u16_le}

halves : (v : ℕ) → v < 2 ^ 16 → v % 2 ^ 8 + v / 2 ^ 8 % 2 ^ 8 * 2 ^ 8 ≡ v
halves v h = omega arith

-- Two values below 2 ^ 16, written one after the other, are read back at offsets 0 and 2.
pub read_u16_le-append :
    (a b : ℕ)
    → a < 2 ^ 16
    → b < 2 ^ 16
    → (read_u16_le (append_u16_le (append_u16_le [] a) b) 0 ≡ some a)
      × (read_u16_le (append_u16_le (append_u16_le [] a) b) 2 ≡ some b)
unfolding read_u16_le
read_u16_le-append a b ha hb = (ap some (halves a ha), ap some (halves b hb))

-- Two values in the range of an int16_t, written one after the other, are read back at offsets 0 and
-- 2, sign included.
pub read_i16_le-append :
    (a b : ℤ)
    → int16_min ≤ℤ a
    → a ≤ℤ int16_max
    → int16_min ≤ℤ b
    → b ≤ℤ int16_max
    → (read_i16_le (append_i16_le (append_i16_le [] a) b) 0 ≡ some a)
      × (read_i16_le (append_i16_le (append_i16_le [] a) b) 2 ≡ some b)
unfolding read_i16_le
read_i16_le-append a b la ha lb hb =
    let pair = read_u16_le-append (to_u16 a) (to_u16 b) (to_u16-lt a) (to_u16-lt b) in
    (rw pair.0 (ap some (to_i16-to_u16 a la ha)), rw pair.1 (ap some (to_i16-to_u16 b lb hb)))
