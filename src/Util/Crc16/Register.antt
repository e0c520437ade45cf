-- ===== src/Util/Crc16/Register.antt =====
-- The table of the CRC and a shift register with the polynomial 0x1021.
use pxbee_open_close.Prelude.{
  ℕ, zero, suc, ◌+◌, ◌*◌, ◌/◌, ◌%◌, ◌<◌, ◌≡◌, refl, ap, sym, ◌∙◌, true, Bool, [], ◌∷◌, ◌==◌, leb,
  ltb, ltb→lt, ◌&&◌, get_or, bit_xor, if◌then◌else◌, arith,
}
use pxbee_open_close.Prelude.Bits.{Bytes, IsBytes, tested_below, tested_below_lem}
use pxbee_open_close.Util.Crc16.{crc16_table, crc16_calc}

-- one step of the register of 16 bits
abbrev pub shift : ℕ → ℕ
shift c = if leb 32768 c then bit_xor (c * 2 % 65536) 0x1021 else c * 2

abbrev pub shifts : ℕ → ℕ → ℕ
shifts zero c = c
shifts (suc n) c = shifts n (shift c)

pub table_entry : (i : ℕ) → i < 256 → (get_or crc16_table i 0 == shifts 8 (i * 256)) ≡ true
unfolding crc16_table tested_below
table_entry i below =
    tested_below_lem (λ i. get_or crc16_table i 0 == shifts 8 (i * 256)) 256 i tested below
  where
    tested : tested_below (λ i. get_or crc16_table i 0 == shifts 8 (i * 256)) 256 ≡ true
    tested = refl

-- The register is shifted for its high byte, and the low byte comes out as it is.
abbrev splits : ℕ → ℕ → Bool
splits high low =
    (shifts 8 (high * 256 + low) == bit_xor (low * 256) (shifts 8 (high * 256)))
    && ltb (shifts 8 (high * 256 + low)) 65536

splits_always : tested_below (λ high. tested_below (splits high) 256) 256 ≡ true
unfolding tested_below
splits_always = refl

split : (high low : ℕ) → high < 256 → low < 256 → splits high low ≡ true
split high low h l =
    tested_below_lem (splits high) 256 low
      (tested_below_lem (λ high. tested_below (splits high) 256) 256 high splits_always h) l

bytes_always : tested_below (λ a. tested_below (λ b. ltb (bit_xor a b) 256) 256) 256 ≡ true
unfolding tested_below
bytes_always = refl

bit_xor-IsByte : (a b : ℕ) → a < 256 → b < 256 → ltb (bit_xor a b) 256 ≡ true
bit_xor-IsByte a b h k =
    tested_below_lem (λ b. ltb (bit_xor a b) 256) 256 b
      (tested_below_lem (λ a. tested_below (λ b. ltb (bit_xor a b) 256) 256) 256 a bytes_always h) k

equal : (a b : ℕ) → (a == b) ≡ true → a ≡ b
equal a b h = ground arith

-- the register after the bytes, each of which is added to its high byte
abbrev pub register : Bytes → ℕ → ℕ
register [] c = c
register (b ∷ bytes) c = register bytes (shifts 8 (bit_xor (c / 256) b * 256 + c % 256))

module _ (c b : ℕ) (small : c < 65536) (byte : b < 256) where
  high : bit_xor (c / 256) b < 256
  high = ltb→lt (bit_xor (c / 256) b) 256 (bit_xor-IsByte (c / 256) b (omega arith) byte)

  parts :
      (shifts 8 (bit_xor (c / 256) b * 256 + c % 256)
        ≡ bit_xor (c % 256 * 256) (shifts 8 (bit_xor (c / 256) b * 256)))
      × (shifts 8 (bit_xor (c / 256) b * 256 + c % 256) < 65536)
  parts =
      let s = split (bit_xor (c / 256) b) (c % 256) high (omega arith) in
      both (shifts 8 (bit_xor (c / 256) b * 256 + c % 256))
        (bit_xor (c % 256 * 256) (shifts 8 (bit_xor (c / 256) b * 256))) s
    where
      both : (x y : ℕ) → ((x == y) && ltb x 65536) ≡ true → (x ≡ y) × (x < 65536)
      both x y h = ground arith

  calc_step :
      bit_xor (c * 256 % 65536) (get_or crc16_table (bit_xor (c / 256) b) 0)
      ≡ shifts 8 (bit_xor (c / 256) b * 256 + c % 256)
  calc_step =
      let entry =
        equal (get_or crc16_table (bit_xor (c / 256) b) 0) (shifts 8 (bit_xor (c / 256) b * 256))
          (table_entry (bit_xor (c / 256) b) high) in
      let moved : c * 256 % 65536 ≡ c % 256 * 256 = omega arith in
      ap (λ x. bit_xor x (get_or crc16_table (bit_xor (c / 256) b) 0)) moved
      ∙ ap (bit_xor (c % 256 * 256)) entry
      ∙ sym parts.0

-- For bytes and a start value of 16 bits the result is what a register of 16 bits holds in the end
-- that starts with this value and takes the bytes one after the other: it adds each to its high byte
-- and moves by eight bits, where each bit that falls out adds the polynomial 0x1021.
pub crc16_calc_lem :
    (bytes : Bytes) (c : ℕ) → IsBytes bytes → c < 65536 → crc16_calc bytes c ≡ register bytes c
unfolding crc16_calc
crc16_calc_lem [] c all small = refl
crc16_calc_lem (b ∷ bytes) c (byte, all) small =
    ap (crc16_calc bytes) (calc_step c b small byte)
    ∙ crc16_calc_lem bytes (shifts 8 (bit_xor (c / 256) b * 256 + c % 256)) all
        (parts c b small byte).1
