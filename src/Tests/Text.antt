-- ===== src/Tests/Text.antt =====
-- Addresses in print: the text of a label, the formatted address, and a text that says none.
use pxbee_open_close.Prelude.{
  ◌+◌, ◌≡◌, ◌⊎◌, refl, true, pos, einval, some, [], ◌∷◌, length, replicate, arith,
}
use pxbee_open_close.Prelude.Bits.{Bytes, IsBytes}
use pxbee_open_close.Wpan.Text.{
  char_at, behind, hex_digit, hex_loop, hexstrtobyte, addr64_format, skip_spaces, is_separator,
  skip_separator, stored, parse_loop, addr64_parse,
}
use pxbee_open_close.Wpan.Text.Written.{Written}
use pxbee_open_close.Wpan.Text.Laws.{addr64_parse_lem, addr64_parse-addr64_format}

abbrev address : Bytes
address = 0x00 ∷ 0x13 ∷ 0xa2 ∷ 0x00 ∷ 0x40 ∷ 0x52 ∷ 0x2b ∷ 0xaa ∷ []

-- " 0013A200-40522BAA"
abbrev label : Bytes
label = 32 ∷ 48 ∷ 48 ∷ 49 ∷ 51 ∷ 65 ∷ 50 ∷ 48 ∷ 48 ∷ 45 ∷ 52 ∷ 48 ∷ 53 ∷ 50 ∷ 50 ∷ 66 ∷ 65 ∷ 65 ∷ []

-- "0013A200-40"
abbrev cut_short : Bytes
cut_short = 48 ∷ 48 ∷ 49 ∷ 51 ∷ 65 ∷ 50 ∷ 48 ∷ 48 ∷ 45 ∷ 52 ∷ 48 ∷ []

label_read : addr64_parse (some label) ≡ (pos 0, address)
unfolding char_at behind hex_digit hex_loop hexstrtobyte skip_spaces is_separator skip_separator
    stored parse_loop addr64_parse
label_read = refl

cut_short_refused : addr64_parse (some cut_short) ≡ (einval, replicate 8 0)
unfolding char_at behind hex_digit hex_loop hexstrtobyte skip_spaces is_separator skip_separator
    stored parse_loop addr64_parse
cut_short_refused = refl

address-IsBytes : IsBytes address
address-IsBytes = (
  omega arith,
  (
    omega arith,
    (omega arith, (omega arith, (omega arith, (omega arith, (omega arith, (omega arith, tt)))))),
  ),
)

addr64_parse_lem_example :
    ((addr : Bytes) × (addr64_parse (some label) ≡ (pos 0, addr))
      × (length addr ≡ 8)
      × Written addr (skip_spaces label))
    ⊎ ((addr64_parse (some label) ≡ (einval, replicate 8 0))
        × ((addr : Bytes) → length addr ≡ 8 → ¬ Written addr (skip_spaces label)))
addr64_parse_lem_example = addr64_parse_lem label

dash_separates : is_separator 45 ≡ true
unfolding is_separator
dash_separates = refl

addr64_parse-addr64_format_example :
    (length (addr64_format 45 address) + 1 ≡ 24)
    × (addr64_parse (some (addr64_format 45 address)) ≡ (pos 0, address))
addr64_parse-addr64_format_example =
    addr64_parse-addr64_format 45 address dash_separates refl address-IsBytes
