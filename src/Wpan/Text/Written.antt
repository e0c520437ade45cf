-- ===== src/Wpan/Text/Written.antt =====
-- The texts that say an address, in the ways that the comment of addr64_parse lists: pairs of
-- hexadecimal digits, with at most one separator behind each.
use mathlib.Core.Path.{subst}
use pxbee_open_close.Prelude.{
  ℕ, zero, suc, ◌+◌, ◌*◌, ◌<◌, ◌≤◌, ◌≡◌, refl, ap, ◌⊎◌, inl, inr, pos, negsuc, true, false, some,
  Option-cases, [], ◌∷◌, length, arith, Bool-cases,
}
use pxbee_open_close.Prelude.Bits.{Bytes}
use pxbee_open_close.Wpan.Text.{
  char_at, behind, hex_digit, hex_loop, hexstrtobyte, is_separator, skip_separator, stored,
  parse_loop,
}

-- The character `ch` is a hexadecimal digit with the value `x`: one of 0 to 9, a to f and A to F.
abbrev pub IsDigit : ℕ → ℕ → Type 0
IsDigit ch x =
    ((ch ≡ 48 + x) × (x < 10))
    ⊎ ((ch + 10 ≡ 97 + x) × (10 ≤ x) × (x < 16))
    ⊎ ((ch + 10 ≡ 65 + x) × (10 ≤ x) × (x < 16))

-- `Written bytes text`: the text begins with these bytes.
pub data Written : Bytes → Bytes → Type 0 where
  done : (text : Bytes) → Written [] text
  joined :
      (h l x y : ℕ) (bytes text : Bytes)
      → IsDigit h x
      → IsDigit l y
      → is_separator (char_at text) ≡ false
      → Written bytes text
      → Written ((x * 16 + y) ∷ bytes) (h ∷ l ∷ text)
  apart :
      (h l x y c : ℕ) (bytes text : Bytes)
      → IsDigit h x
      → IsDigit l y
      → is_separator c ≡ true
      → Written bytes text
      → Written ((x * 16 + y) ∷ bytes) (h ∷ l ∷ c ∷ text)

hex_digit-IsDigit : (ch d : ℕ) → hex_digit ch ≡ some d → IsDigit ch d
unfolding hex_digit
hex_digit-IsDigit ch d eq = ground arith

IsDigit-hex_digit : (ch d : ℕ) → IsDigit ch d → hex_digit ch ≡ some d
unfolding hex_digit
IsDigit-hex_digit ch d is = elim is [
  | inl decimal ↦ ground (arith, decimal)
  | inr (inl small) ↦ ground (arith, small)
  | inr (inr capital) ↦ ground (arith, capital)
]

hex_digit_small : (ch d : ℕ) → hex_digit ch ≡ some d → d < 16
unfolding hex_digit
hex_digit_small ch d eq = ground arith

hexstrtobyte_pair :
    (h l x y : ℕ) (text : Bytes)
    → hex_digit h ≡ some x
    → hex_digit l ≡ some y
    → hexstrtobyte (h ∷ l ∷ text) ≡ pos (x * 16 + y)
unfolding hexstrtobyte hex_loop char_at behind
hexstrtobyte_pair h l x y text first second =
    ground (arith, hex_digit_small h x first, hex_digit_small l y second)

-- Either a byte is written at the start of the string, or the function returns -1.
hexstrtobyte-cases :
    (str : Bytes)
    → ((h l x y : ℕ) × (text : Bytes) × (str ≡ h ∷ l ∷ text)
        × (hex_digit h ≡ some x)
        × (hex_digit l ≡ some y))
      ⊎ (hexstrtobyte str ≡ negsuc 0)
unfolding hexstrtobyte hex_loop char_at behind
hexstrtobyte-cases [] = inr refl
hexstrtobyte-cases (h ∷ []) = elim (Option-cases (hex_digit h)) [
  | inl bad ↦ inr (ground arith)
  | inr (x, eq) ↦ inr (ground arith)
]
hexstrtobyte-cases (h ∷ l ∷ text) = elim (Option-cases (hex_digit h)) [
  | inl bad ↦ inr (ground arith)
  | inr (x, first) ↦ elim (Option-cases (hex_digit l)) [
    | inl bad ↦ inr (ground arith)
    | inr (y, second) ↦ inl (h, l, x, y, text, refl, first, second)
  ]
]

skip_separator-none :
    (h l : ℕ) (text : Bytes)
    → is_separator (char_at text) ≡ false
    → skip_separator (behind (behind (h ∷ l ∷ text))) ≡ text
unfolding skip_separator behind
skip_separator-none h l text none_there = ground arith

skip_separator-one :
    (h l c : ℕ) (text : Bytes)
    → is_separator c ≡ true
    → skip_separator (behind (behind (h ∷ l ∷ c ∷ text))) ≡ text
unfolding skip_separator behind char_at
skip_separator-one h l c text there = ground arith

-- One byte read, and the rest behind it.
parse_loop-next :
    (i n : ℕ) (str rest bytes : Bytes)
    → hexstrtobyte str ≡ pos n
    → n < 256
    → skip_separator (behind (behind str)) ≡ rest
    → parse_loop i rest ≡ some bytes
    → parse_loop (suc i) str ≡ some (n ∷ bytes)
unfolding parse_loop stored
parse_loop-next i n str rest bytes read small skipped parsed =
    rw (read, skipped, parsed) (ap (λ b. some (b ∷ bytes)) (omega arith))

-- The loop reads what is written.
pub parse_loop-written :
    (bytes text : Bytes) → Written bytes text → parse_loop (length bytes) text ≡ some bytes
unfolding parse_loop
parse_loop-written [] text (done t) = refl
parse_loop-written (b ∷ bytes) text (joined h l x y bs rest first second next more) =
    let first_digit = IsDigit-hex_digit h x first in
    let second_digit = IsDigit-hex_digit l y second in
    parse_loop-next (length bytes) (x * 16 + y) text rest bytes
      (hexstrtobyte_pair h l x y rest first_digit second_digit)
      (omega (arith, hex_digit_small h x first_digit, hex_digit_small l y second_digit))
      (skip_separator-none h l rest next) (parse_loop-written bytes rest more)
parse_loop-written (b ∷ bytes) text (apart h l x y c bs rest first second next more) =
    let first_digit = IsDigit-hex_digit h x first in
    let second_digit = IsDigit-hex_digit l y second in
    parse_loop-next (length bytes) (x * 16 + y) text rest bytes
      (hexstrtobyte_pair h l x y (c ∷ rest) first_digit second_digit)
      (omega (arith, hex_digit_small h x first_digit, hex_digit_small l y second_digit))
      (skip_separator-one h l c rest next) (parse_loop-written bytes rest more)

Written-pair :
    (h l x y : ℕ) (text bytes : Bytes)
    → IsDigit h x
    → IsDigit l y
    → Written bytes (skip_separator text)
    → Written ((x * 16 + y) ∷ bytes) (h ∷ l ∷ text)
unfolding skip_separator char_at behind
Written-pair h l x y [] bytes first second rest = joined h l x y bytes [] first second refl rest
Written-pair h l x y (c ∷ text) bytes first second rest = elim (Bool-cases (is_separator c)) [
  | inl there ↦
      apart h l x y c bytes text first second there
        (subst (Written bytes) (skip_separator-one h l c text there) rest)
  | inr none_there ↦
      joined h l x y bytes (c ∷ text) first second none_there
        (subst (Written bytes) (skip_separator-none h l (c ∷ text) none_there) rest)
]

-- What one turn stores in front of the rest.
parse_loop-read :
    (i n : ℕ) (str bytes : Bytes)
    → hexstrtobyte str ≡ pos n
    → n < 256
    → parse_loop (suc i) str ≡ some bytes
    → (rest : Bytes) × (parse_loop i (skip_separator (behind (behind str))) ≡ some rest)
      × (bytes ≡ n ∷ rest)
unfolding parse_loop stored
parse_loop-read i n str bytes read small parsed =
    elim (Option-cases (parse_loop i (skip_separator (behind (behind str))))) [
      | inl failed ↦ absurd (ground arith)
      | inr (rest, eq) ↦ (rest, eq, grind arith)
    ]

-- What the loop reads is written.
pub written-parse_loop :
    (i : ℕ) (str bytes : Bytes)
    → parse_loop i str ≡ some bytes
    → (length bytes ≡ i) × Written bytes str
unfolding parse_loop stored behind
written-parse_loop zero str [] parsed = (refl, done str)
written-parse_loop zero str (b ∷ bytes) parsed = absurd (ground arith)
written-parse_loop (suc i) str bytes parsed = elim (hexstrtobyte-cases str) [
  | inr bad ↦ absurd (ground arith)
  | inl (h, l, x, y, text, eq, first, second) ↦
      let (rest, read, eq2) =
        parse_loop-read i (x * 16 + y) str bytes
          (rw eq (hexstrtobyte_pair h l x y text first second))
          (omega (arith, hex_digit_small h x first, hex_digit_small l y second)) parsed in
      let (count, more) = written-parse_loop i (skip_separator (behind (behind str))) rest read in
      let rest_of = λ (s : Bytes). skip_separator (behind (behind s)) in
      rw (eq2, eq)
        (
          ap suc count,
          Written-pair h l x y text rest (hex_digit-IsDigit h x first)
              (hex_digit-IsDigit l y second) (subst (λ s. Written rest (rest_of s)) eq more),
        )
]
