-- ===== src/Wpan/Text/Laws.antt =====
-- Formatting, parsing and comparing addresses.
use mathlib.Core.Path.{subst}
use pxbee_open_close.Prelude.{
  ℕ, zero, suc, ◌+◌, ◌*◌, ◌/◌, ◌%◌, ◌<◌, ◌≡◌, refl, ap, ◌∙◌, ◌⊎◌, ◌↔◌, inl, inr, pos, einval, true,
  false, none, some, Option-cases, [], ◌∷◌, length, replicate, arith, take, drop, bit_and, ◌==◌,
  ==_iff,
}
use pxbee_open_close.Prelude.Bits.{Bytes, IsBytes, tested_below, tested_below_lem}
use pxbee_open_close.Wpan.Text.{
  hex_char, isspace, is_separator, char_at, behind, format_loop, addr64_format, skip_spaces,
  parse_loop, addr64_parse, addr64_equal, addr64_is_zero,
}
use pxbee_open_close.Device.Radio.{be_value}
use pxbee_open_close.Wpan.Text.Written.{
  Written, IsDigit, done, joined, apart, parse_loop-written, written-parse_loop,
}

-- What the function answers, from what the loop yields.
parse-none :
    (text : Bytes)
    → parse_loop 8 (skip_spaces text) ≡ none
    → addr64_parse (some text) ≡ (einval, replicate 8 0)
unfolding addr64_parse
parse-none text failed = rw (failed, addr64_parse)

parse-some :
    (text addr : Bytes)
    → parse_loop 8 (skip_spaces text) ≡ some addr
    → addr64_parse (some text) ≡ (pos 0, addr)
unfolding addr64_parse
parse-some text addr read = rw (read, addr64_parse)

-- For every string, either the function returns 0 with an address of eight bytes that is written
-- behind the leading spaces, or it returns -EINVAL with the address of zeros, and no address of
-- eight bytes is written there.
pub addr64_parse_lem :
    (text : Bytes)
    → ((addr : Bytes) × (addr64_parse (some text) ≡ (pos 0, addr))
        × (length addr ≡ 8)
        × Written addr (skip_spaces text))
      ⊎ ((addr64_parse (some text) ≡ (einval, replicate 8 0))
          × ((addr : Bytes) → length addr ≡ 8 → ¬ Written addr (skip_spaces text)))
addr64_parse_lem text = elim (Option-cases (parse_loop 8 (skip_spaces text))) [
  | inl failed ↦ inr (
    parse-none text failed,
    λ addr count found. absurd (grind (arith, parse_loop-written addr (skip_spaces text) found)),
  )
  | inr (addr, read) ↦
      let (count, found) = written-parse_loop 8 (skip_spaces text) addr read in
      inl (addr, parse-some text addr read, count, found)
]

low_digit : (b : ℕ) → b < 256 → (bit_and b 15 == b % 16) ≡ true
unfolding tested_below
low_digit b small = tested_below_lem (λ i. bit_and i 15 == i % 16) 256 b refl small

hex_char-IsDigit : (n : ℕ) → n < 16 → IsDigit (hex_char n) n
unfolding hex_char
hex_char-IsDigit n small = ground arith

digit_no_space : (n : ℕ) → n < 16 → isspace (hex_char n) ≡ false
unfolding hex_char
digit_no_space n small = ground arith

-- The two characters of a byte are digits, and say the byte.
byte_digits :
    (b : ℕ)
    → b < 256
    → IsDigit (hex_char (b / 16)) (b / 16)
      × IsDigit (hex_char (bit_and b 15)) (bit_and b 15)
      × (b / 16 * 16 + bit_and b 15 ≡ b)
byte_digits b small =
    let low = (==_iff (bit_and b 15) (b % 16)).0 (low_digit b small) in
    (
      hex_char-IsDigit (b / 16) (omega arith),
      hex_char-IsDigit (bit_and b 15) (omega arith),
      omega arith,
    )

format_loop-Written :
    (separator : ℕ) (bytes : Bytes)
    → is_separator separator ≡ true
    → IsBytes bytes
    → Written bytes (format_loop separator (length bytes) bytes)
unfolding format_loop char_at behind is_separator
format_loop-Written separator [] sep inside = done []
format_loop-Written separator (b ∷ []) sep (small, rest) =
    let (first, second, value) = byte_digits b small in
    subst (λ v. Written (v ∷ []) (format_loop separator 1 (b ∷ []))) value
      (joined (hex_char (b / 16)) (hex_char (bit_and b 15)) (b / 16) (bit_and b 15) [] [] first
        second refl (done []))
format_loop-Written separator (b ∷ c ∷ bytes) sep (small, rest) =
    let (first, second, value) = byte_digits b small in
    let text = format_loop separator (length (c ∷ bytes)) (c ∷ bytes) in
    let more = format_loop-Written separator (c ∷ bytes) sep rest in
    subst
      (λ v.
        Written (v ∷ c ∷ bytes) (format_loop separator (length (b ∷ c ∷ bytes)) (b ∷ c ∷ bytes)))
      value
      (apart (hex_char (b / 16)) (hex_char (bit_and b 15)) (b / 16) (bit_and b 15) separator
        (c ∷ bytes) text first second sep more)

skip_spaces-digit :
    (n : ℕ) (text : Bytes) → n < 16 → skip_spaces (hex_char n ∷ text) ≡ hex_char n ∷ text
unfolding skip_spaces
skip_spaces-digit n text small = rw (digit_no_space n small) refl

length-format_loop :
    (separator i : ℕ) (bytes : Bytes) → length (format_loop separator (suc i) bytes) ≡ 2 + 3 * i
unfolding format_loop
length-format_loop separator zero bytes = refl
length-format_loop separator (suc i) bytes =
    omega (arith, length-format_loop separator i (behind bytes))

-- The spaces in front are none.
skip_spaces-format :
    (separator : ℕ) (addr : Bytes)
    → IsBytes addr
    → skip_spaces (format_loop separator 8 addr) ≡ format_loop separator 8 addr
unfolding format_loop char_at behind skip_spaces hex_char
skip_spaces-format separator [] inside = refl
skip_spaces-format separator (b ∷ bytes) (small, rest) = skip_spaces-digit (b / 16) _ (omega arith)

parse_loop-format :
    (separator : ℕ) (addr : Bytes)
    → is_separator separator ≡ true
    → length addr ≡ 8
    → IsBytes addr
    → parse_loop 8 (skip_spaces (format_loop separator 8 addr)) ≡ some addr
parse_loop-format separator addr sep count inside =
    let text = λ (n : ℕ). format_loop separator n addr in
    ap (parse_loop 8) (skip_spaces-format separator addr inside)
    ∙ subst (λ n. parse_loop n (text n) ≡ some addr) count
        (parse_loop-written addr (text (length addr))
          (format_loop-Written separator addr sep inside))

-- For an address of eight bytes and a separator that is neither the terminator nor a hexadecimal
-- digit, the text has 23 characters, so that it fills a buffer of ADDR64_STRING_LENGTH with its
-- terminator, and parsing it yields the address.
pub addr64_parse-addr64_format :
    (separator : ℕ) (addr : Bytes)
    → is_separator separator ≡ true
    → length addr ≡ 8
    → IsBytes addr
    → (length (addr64_format separator addr) + 1 ≡ 24)
      × (addr64_parse (some (addr64_format separator addr)) ≡ (pos 0, addr))
unfolding addr64_format
addr64_parse-addr64_format separator addr sep count inside = (
  omega (arith, length-format_loop separator 7 addr),
  parse-some (format_loop separator 8 addr) addr
      (parse_loop-format separator addr sep count inside),
)

head_tail : (x y : ℕ) (xs ys : Bytes) → x ≡ y → xs ≡ ys → x ∷ xs ≡ y ∷ ys
head_tail x y xs ys first rest = rw (first, rest)

-- Numbers of equally many bytes are equal only if the bytes are.
be_value-injective :
    (a b : ℕ) (xs ys : Bytes)
    → length xs ≡ length ys
    → IsBytes xs
    → IsBytes ys
    → be_value a xs ≡ be_value b ys
    → (a ≡ b) × (xs ≡ ys)
unfolding be_value
be_value-injective a b [] [] count inside inside2 eq = (eq, refl)
be_value-injective a b [] (y ∷ ys) count inside inside2 eq = absurd (omega arith)
be_value-injective a b (x ∷ xs) [] count inside inside2 eq = absurd (omega arith)
be_value-injective a b (x ∷ xs) (y ∷ ys) count (small, inside) (small2, inside2) eq =
    let (heads, tails) =
      be_value-injective (a * 256 + x) (b * 256 + y) xs ys (omega arith) inside inside2 eq in
    (omega arith, head_tail x y xs ys (omega arith) tails)

halves-injective :
    (n a b : ℕ) (xs ys : Bytes)
    → length xs ≡ length ys
    → IsBytes xs
    → IsBytes ys
    → be_value a (take n xs) ≡ be_value b (take n ys)
    → be_value 0 (drop n xs) ≡ be_value 0 (drop n ys)
    → (a ≡ b) × (xs ≡ ys)
unfolding be_value
halves-injective zero a b xs ys count inside inside2 eq eq2 =
    (eq, (be_value-injective 0 0 xs ys count inside inside2 eq2).1)
halves-injective (suc n) a b [] [] count inside inside2 eq eq2 = (eq, refl)
halves-injective (suc n) a b [] (y ∷ ys) count inside inside2 eq eq2 = absurd (omega arith)
halves-injective (suc n) a b (x ∷ xs) [] count inside inside2 eq eq2 = absurd (omega arith)
halves-injective (suc n) a b (x ∷ xs) (y ∷ ys) count (small, inside) (small2, inside2) eq eq2 =
    let (heads, tails) =
      halves-injective n (a * 256 + x) (b * 256 + y) xs ys (omega arith) inside inside2 eq eq2 in
    (omega arith, head_tail x y xs ys (omega arith) tails)

zeros-IsBytes : (n : ℕ) → IsBytes (replicate n 0)
zeros-IsBytes zero = tt
zeros-IsBytes (suc n) = (omega arith, zeros-IsBytes n)

-- For addresses of eight bytes, the comparison of the two halves holds exactly if the addresses are
-- equal, and the test for zero holds exactly if the address is eight zeros.
addr64_equal_lem :
    (addr1 addr2 : Bytes)
    → length addr1 ≡ 8
    → length addr2 ≡ 8
    → IsBytes addr1
    → IsBytes addr2
    → ((addr64_equal (some addr1) (some addr2) ≡ true) ↔ (addr1 ≡ addr2))
      × ((addr64_is_zero (some addr1) ≡ true) ↔ (addr1 ≡ replicate 8 0))
unfolding addr64_equal addr64_is_zero be_value
addr64_equal_lem addr1 addr2 count count2 inside inside2 = (
  (
    λ same.
        (halves-injective 4 0 0 addr1 addr2 (omega arith) inside inside2 (ground arith)
          (ground arith)).1,
    λ eq. rw eq (ground arith),
  ),
  (
    λ zeros.
        (halves-injective 4 0 0 addr1 (replicate 8 0) count inside (zeros-IsBytes 8) (ground arith)
          (ground arith)).1,
    λ eq. rw eq refl,
  ),
)
