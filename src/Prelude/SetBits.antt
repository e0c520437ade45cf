-- ===== src/Prelude/SetBits.antt =====
-- Single bits of numbers: what `|` and `&` with a mask leave of each.
use Prim.Native.Nat.{
  ℕ, zero, suc, ◌+◌, ◌*◌, ◌/◌, ◌%◌, ◌≤◌, ◌<◌, min, max, bit_and, bit_or, digits, bit_or-bitwise,
}
use mathlib.Core.Path.{◌≡◌, refl, ap, ◌∙◌}
use mathlib.Core.Bool.{true, false}
use native.Mathlib.Omega.{arith}
use pxbee_open_close.Prelude.Bits.{has}
use pxbee_open_close.Prelude.Masks.{bit_and-halves, bit_and-doubled, bit_and-even, halved, doubled}

-- the digits of `bit_or`, of which `count` are looked at
abbrev joined : ℕ → ℕ → ℕ → ℕ
joined count a b = digits (λ b. b) max count a b

joined_none : (n b : ℕ) → b ≡ joined n 0 b
joined_none zero b = refl
joined_none (suc n) b = refl

joined_enough : (m n a b : ℕ) → a ≤ m → a ≤ n → joined m a b ≡ joined n a b
joined_enough zero n zero b h k = joined_none n b
joined_enough zero n (suc a) b h k = absurd (omega arith)
joined_enough (suc m) zero zero b h k = refl
joined_enough (suc m) zero (suc a) b h k = absurd (omega arith)
joined_enough (suc m) (suc n) zero b h k = refl
joined_enough (suc m) (suc n) (suc a) b h k =
    omega (arith, joined_enough m n (suc a / 2) (b / 2) (omega arith) (omega arith))

none_joined : (b : ℕ) → bit_or 0 b ≡ b
none_joined b = bit_or-bitwise 0 b

-- The lowest bit apart.
bit_or-halves : (a b : ℕ) → bit_or a b ≡ max (a % 2) (b % 2) + 2 * bit_or (a / 2) (b / 2)
bit_or-halves zero b = omega (arith, none_joined b, none_joined (b / 2))
bit_or-halves (suc a) b =
    let half = suc a / 2 in
    omega (
      arith,
      bit_or-bitwise (suc a) b,
      bit_or-bitwise half (b / 2),
      joined_enough a half half (b / 2) (omega arith) (omega arith),
    )

abbrev pub bit : ℕ → ℕ → ℕ
bit n x = halved n x % 2

pub bit-or : (n a b : ℕ) → bit n (bit_or a b) ≡ max (bit n a) (bit n b)
bit-or zero a b = omega (arith, bit_or-halves a b)
bit-or (suc n) a b = ap (bit n) half ∙ bit-or n (a / 2) (b / 2)
  where
    half : bit_or a b / 2 ≡ bit_or (a / 2) (b / 2)
    half = omega (arith, bit_or-halves a b)

pub bit-and : (n a b : ℕ) → bit n (bit_and a b) ≡ min (bit n a) (bit n b)
bit-and zero a b = omega (arith, bit_and-halves a b)
bit-and (suc n) a b = ap (bit n) half ∙ bit-and n (a / 2) (b / 2)
  where
    half : bit_and a b / 2 ≡ bit_and (a / 2) (b / 2)
    half = omega (arith, bit_and-halves a b)

doubled_none : (n : ℕ) → doubled n 0 ≡ 0
doubled_none zero = refl
doubled_none (suc n) = omega (arith, doubled_none n)

doubled_one : (n : ℕ) → 0 < doubled n 1
doubled_one zero = omega arith
doubled_one (suc n) = omega (arith, doubled_one n)

bit_and-zero : (m a : ℕ) → a ≤ m → bit_and a 0 ≡ 0
bit_and-zero zero zero h = refl
bit_and-zero zero (suc a) h = absurd (omega arith)
bit_and-zero (suc m) a h = omega (arith, bit_and-even a 0, bit_and-zero m (a / 2) (omega arith))

lowest : (a : ℕ) → bit_and a 1 ≡ a % 2
lowest a = omega (arith, bit_and-halves a 1, bit_and-zero (a / 2) (a / 2) (omega arith))

masked : (n x : ℕ) → bit_and x (doubled n 1) ≡ doubled n (bit n x)
masked n x = bit_and-doubled n x 1 ∙ ap (doubled n) (lowest (halved n x))

pub has-bit : (n x : ℕ) → bit n x ≡ 1 → has x (doubled n 1) ≡ true
has-bit n x h = rw (masked n x, h) (ground (arith, doubled_one n))

pub has-no_bit : (n x : ℕ) → bit n x ≡ 0 → has x (doubled n 1) ≡ false
has-no_bit n x h = rw (masked n x, h) (ground (arith, doubled_none n))

pub bit-has : (n x : ℕ) → has x (doubled n 1) ≡ true → bit n x ≡ 1
bit-has n x h = ground (arith, has-no_bit n x)

pub has-same_bit : (n x y : ℕ) → bit n x ≡ bit n y → has x (doubled n 1) ≡ has y (doubled n 1)
has-same_bit n x y h = rw (masked n x, masked n y, h) refl
