-- ===== src/Wpan/Text.antt =====
-- Addresses as text: hexstrtobyte of pxbee/pan/util/hexstrtobyte.c, and addr64_format, addr64_parse
-- and the comparisons of pxbee/pan/wpan/wpan_types.c.
pub mod Written
pub mod Laws
use pxbee_open_close.Prelude.{
  ℕ, zero, suc, ◌+◌, ◌-◌, ◌*◌, ◌/◌, ◌%◌, ℤ, pos, negsuc, einval, Bool, true, false, not, ◌&&◌, ◌||◌,
  Option, none, some, List, [], ◌∷◌, ◌==◌, leb, if◌then◌else◌, take, drop, replicate, bit_and,
}
use pxbee_open_close.Prelude.Bits.{Bytes}
use pxbee_open_close.Device.Radio.{be_value}

-- A string is the list of its characters from the pointer on, without the terminator: `*str` and
-- `++str`.
unfoldable pub char_at : Bytes → ℕ
char_at [] = 0
char_at (c ∷ str) = c

unfoldable pub behind : Bytes → Bytes
behind [] = []
behind (c ∷ str) = str

-- `'0' <= ch && ch <= '9'` and the like
abbrev between : ℕ → ℕ → ℕ → Bool
between first last ch = leb first ch && leb ch last

-- isspace and isxdigit of the C library
abbrev isspace : ℕ → Bool
isspace ch = ch == 32 || between 9 13 ch

abbrev isxdigit : ℕ → Bool
isxdigit ch = between 48 57 ch || between 97 102 ch || between 65 70 ch

-- what the chain of tests adds for a character, `none` where it returns -1
unfoldable pub hex_digit : ℕ → Option ℕ
hex_digit ch =
    if between 48 57 ch
    then some (ch - 48)
    else if between 97 102 ch
    then some (ch - (97 - 10))
    else if between 65 70 ch
    then some (ch - (65 - 10))
    else none

-- the loop with `i` characters to go
unfoldable pub hex_loop : ℕ → ℕ → Bytes → ℤ
unfolding char_at behind hex_digit
hex_loop zero b str = pos b
hex_loop (suc i) b str =
    let rest = hex_loop i in
    elim (hex_digit (char_at str)) [
      | none ↦ negsuc 0
      | some d ↦ rest ((b * 16 % 256 + d) % 256) (behind str)
    ]

unfoldable pub hexstrtobyte : Bytes → ℤ
unfolding hex_loop
hexstrtobyte p = hex_loop 2 0 p

-- `"0123456789abcdef"[n]`
hex_char : ℕ → ℕ
hex_char n = if leb n 9 then 48 + n else 97 - 10 + n

-- `i` is the count of bytes to go. What the loop writes in front of the terminator is the result;
-- `separator` is ADDR64_FORMAT_SEPARATOR.
format_loop : ℕ → ℕ → Bytes → Bytes
unfolding hex_char char_at behind
format_loop separator zero b = []
format_loop separator (suc zero) b =
    hex_char (char_at b / 16) ∷ hex_char (bit_and (char_at b) 0x0f) ∷ []
format_loop separator (suc (suc i)) b =
    hex_char (char_at b / 16)
    ∷ hex_char (bit_and (char_at b) 0x0f)
    ∷ separator
    ∷ format_loop separator (suc i) (behind b)

pub addr64_format : ℕ → Bytes → Bytes
unfolding format_loop
addr64_format separator address = format_loop separator 8 address

unfoldable pub skip_spaces : Bytes → Bytes
skip_spaces [] = []
skip_spaces (c ∷ str) = let rest = skip_spaces str in if isspace c then rest else c ∷ str

unfoldable pub is_separator : ℕ → Bool
is_separator ch = not (ch == 0) && not (isxdigit ch)

unfoldable pub skip_separator : Bytes → Bytes
unfolding char_at behind is_separator
skip_separator str = if is_separator (char_at str) then behind str else str

-- One turn of the loop stores the byte in front of what the later turns store, or breaks off:
-- `none`.
unfoldable pub stored : ℤ → Option Bytes → Option Bytes
stored (negsuc n) rest = none
stored (pos ret) none = none
stored (pos ret) (some bytes) = some (ret % 256 ∷ bytes)

-- the loop with `i` bytes to go
unfoldable pub parse_loop : ℕ → Bytes → Option Bytes
parse_loop zero str = some []
parse_loop (suc i) str =
    stored (hexstrtobyte str) (parse_loop i (skip_separator (behind (behind str))))

-- The address is the second result: the caller passes room for it, so `address_be` is not NULL.
unfoldable pub addr64_parse : Option Bytes → ℤ × Bytes
addr64_parse none = (einval, replicate 8 0)
addr64_parse (some str) = elim (parse_loop 8 (skip_spaces str)) [
  | none ↦ (einval, replicate 8 0)
  | some b ↦ (pos 0, b)
]

-- the halves `l[0]` and `l[1]` of an address
abbrev high_half : Bytes → ℕ
high_half addr = be_value 0 (take 4 addr)

abbrev low_half : Bytes → ℕ
low_half addr = be_value 0 (drop 4 addr)

addr64_equal : Option Bytes → Option Bytes → Bool
unfolding be_value
addr64_equal (some addr1) (some addr2) =
    high_half addr1 == high_half addr2 && low_half addr1 == low_half addr2
addr64_equal (some addr1) none = false
addr64_equal none addr2 = false

addr64_is_zero : Option Bytes → Bool
unfolding be_value
addr64_is_zero none = true
addr64_is_zero (some addr) = not (not (high_half addr == 0) || not (low_half addr == 0))
