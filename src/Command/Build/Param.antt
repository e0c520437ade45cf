-- ===== src/Command/Build/Param.antt =====
-- The parameter of a request and the value of a response: a number is encoded in one, two or four
-- bytes, and the value of a response is read from them again.
use pxbee_open_close.Prelude.{
  ℕ, ◌%◌, ◌<◌, ◌≡◌, inl, inr, refl, leb, arith, length, [], if◌then◌else◌, Bool-cases,
}
use pxbee_open_close.Prelude.Bits.{has}
use pxbee_open_close.Prelude.Masks.{low_mask, halved, bit_and-low_mask, bit_and-doubled}
use pxbee_open_close.Device.Radio.{be_bytes, be_value}
use pxbee_open_close.Device.Radio.Laws.{be_value-be_bytes}
use pxbee_open_close.Command.Build.{encode_word, encode_param}
use pxbee_open_close.Command.Respond.{value_of}

-- The test for a high half, and the one for a high byte.
high_half_lem : (value : ℕ) → value < 4294967296 → has value 0xffff0000 ≡ leb 65536 value
high_half_lem value small = ground (
  arith,
  bit_and-doubled 16 value (low_mask 16),
  bit_and-low_mask 16 (halved 16 value) (omega arith),
)

high_byte_lem : (value : ℕ) → value < 65536 → has value 0xff00 ≡ leb 256 value
high_byte_lem value small =
    ground (
      arith,
      bit_and-doubled 8 value (low_mask 8),
      bit_and-low_mask 8 (halved 8 value) (omega arith),
    )

-- how many bytes a value takes
abbrev pub param_size : ℕ → ℕ
param_size value = if leb 65536 value then 4 else if leb 256 value then 2 else 1

encode_word_lem :
    (value : ℕ)
    → value < 65536
    → (value_of (length (encode_word value)) (encode_word value) ≡ value)
      × (length (encode_word value) ≡ (if leb 256 value then 2 else 1))
unfolding encode_word value_of be_bytes be_value
encode_word_lem value small = elim (Bool-cases (leb 256 value)) [
  | inl high ↦ rw (high_byte_lem value small, high) (be_value-be_bytes 2 value [] small, refl)
  | inr low ↦ rw (high_byte_lem value small, low) (ground arith, refl)
]

-- A number of 32 bits is encoded in one, two or four bytes, the fewest that hold it, and a response
-- with these bytes as its value gives the number back.
pub value_of-encode_param :
    (value : ℕ)
    → value < 4294967296
    → (value_of (length (encode_param value)) (encode_param value) ≡ value)
      × (length (encode_param value) ≡ param_size value)
unfolding encode_param value_of be_bytes be_value
value_of-encode_param value small = elim (Bool-cases (leb 65536 value)) [
  | inl high ↦ rw (high_half_lem value small, high) (be_value-be_bytes 4 value [] small, refl)
  | inr low ↦
      let less : value < 65536 = ground arith in
      let same : value % 65536 ≡ value = omega arith in
      rw (high_half_lem value small, low, same) (encode_word_lem value less)
]
