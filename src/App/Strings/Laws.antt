-- ===== src/App/Strings/Laws.antt =====
-- appendStringChar appends the string in the form that a ZCL character string has.
use pxbee_open_close.Prelude.{
  ℕ, suc, ◌+◌, ◌<◌, ◌≢◌, [], ◌∷◌, ◌++◌, ◌≡◌, refl, arith, length, set, All, set_behind,
  length-append, append_assoc, ap, sym, ◌∙◌,
}
use pxbee_open_close.Prelude.Bits.{Bytes}
use pxbee_open_close.App.Strings.{append_chars, append_string_char}

-- a C string without its terminator
abbrev pub IsText : Bytes → Type 0
IsText = All (λ c. c ≢ 0)

set-append :
    (xs : Bytes) (y v : ℕ) (ys : Bytes) → set (xs ++ (y ∷ ys)) (length xs) v ≡ xs ++ (v ∷ ys)
set-append [] y v ys = refl
set-append (x ∷ xs) y v ys = ap (◌∷◌ x) (set-append xs y v ys)

-- a write behind the length byte and the characters `done`
set_next :
    (front done rest : Bytes) (hole o c : ℕ)
    → set (front ++ (hole ∷ (done ++ (o ∷ rest)))) (1 + length done + length front) c
      ≡ front ++ (hole ∷ ((done ++ (c ∷ [])) ++ rest))
set_next front done rest hole o c =
    set_behind front (hole ∷ (done ++ (o ∷ rest))) (1 + length done + length front)
      (suc (length done)) c (omega arith)
    ∙ ap (λ l. front ++ (hole ∷ l))
        (set-append done o c rest ∙ sym (append_assoc done (c ∷ []) rest))

-- With the characters `done` written behind the length byte, the loop writes the rest behind them.
append_chars_lem :
    (s more done front back old : Bytes) (hole : ℕ)
    → IsText s
    → length old ≡ length s
    → append_chars
        (length front)
        (front ++ (hole ∷ (done ++ (old ++ back))))
        (length done)
        (s ++ (0 ∷ more))
      ≡ (front ++ (hole ∷ (done ++ (s ++ back))), length done + length s)
unfolding append_chars
append_chars_lem [] more done front back [] hole t e = ground arith
append_chars_lem [] more done front back (o ∷ old) hole t e = absurd (omega arith)
append_chars_lem (c ∷ s) more done front back [] hole t e = absurd (omega arith)
append_chars_lem (c ∷ s) more done front back (o ∷ old) hole t e = ground (
  arith,
  t.0,
  set_next front done (old ++ back) hole o c,
  append_chars_lem s more (done ++ (c ∷ [])) front back old hole t.1 (omega arith),
  append_assoc done (c ∷ []) (s ++ back),
  length-append done (c ∷ []),
)

-- The string `s` with its terminator, appended where the structure has room for it: its length
-- stands first, then its characters; what stands in front and behind is left as it is, and the
-- cursor is behind the string.
pub append_string_char_lem :
    (s more front back old : Bytes) (hole : ℕ)
    → IsText s
    → length s < 256
    → length old ≡ length s
    → append_string_char
        (record { mem = front ++ (hole ∷ (old ++ back)); end = length front })
        (s ++ (0 ∷ more))
      ≡ record { mem = front ++ (length s ∷ (s ++ back)); end = length front + 1 + length s }
unfolding append_string_char
append_string_char_lem s more front back old hole t h e = ground (
  arith,
  append_chars_lem s more [] front back old hole t e,
  set-append front hole (length s) (s ++ back),
)
