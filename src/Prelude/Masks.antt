-- ===== src/Prelude/Masks.antt =====
-- Masks at variables: what is left of a number under a mask of low bits, or of high ones.
use Prim.Native.Nat.{ℕ, zero, suc, ◌+◌, ◌*◌, ◌/◌, ◌%◌, ◌≤◌, min, bit_and, digits, bit_and-bitwise}
use mathlib.Core.Path.{◌≡◌, refl, ap}
use native.Mathlib.Omega.{arith}

-- the digits of `bit_and`, of which `count` are looked at
abbrev common : ℕ → ℕ → ℕ → ℕ
common count a b = digits (λ b. zero) min count a b

-- Looking at more digits than there are changes nothing.
common_enough : (m n a b : ℕ) → a ≤ m → a ≤ n → common m a b ≡ common n a b
common_enough zero n zero b h k = common_none n b
  where
    common_none : (n b : ℕ) → 0 ≡ common n 0 b
    common_none zero b = refl
    common_none (suc n) b = refl
common_enough zero n (suc a) b h k = absurd (omega arith)
common_enough (suc m) zero zero b h k = refl
common_enough (suc m) zero (suc a) b h k = absurd (omega arith)
common_enough (suc m) (suc n) zero b h k = refl
common_enough (suc m) (suc n) (suc a) b h k =
    omega (arith, common_enough m n (suc a / 2) (b / 2) (omega arith) (omega arith))

nothing_common : (b : ℕ) → bit_and 0 b ≡ 0
nothing_common b = bit_and-bitwise 0 b

-- The lowest bit apart.
pub bit_and-halves : (a b : ℕ) → bit_and a b ≡ min (a % 2) (b % 2) + 2 * bit_and (a / 2) (b / 2)
bit_and-halves zero b = omega (arith, nothing_common b, nothing_common (b / 2))
bit_and-halves (suc a) b =
    let half = suc a / 2 in
    omega (
      arith,
      bit_and-bitwise (suc a) b,
      bit_and-bitwise half (b / 2),
      common_enough a half half (b / 2) (omega arith) (omega arith),
    )

half_even : (b : ℕ) → 2 * b / 2 ≡ b
half_even b = omega arith

half_odd : (b : ℕ) → (2 * b + 1) / 2 ≡ b
half_odd b = omega arith

pub bit_and-even : (a b : ℕ) → bit_and a (2 * b) ≡ 2 * bit_and (a / 2) b
bit_and-even a b = omega (arith, bit_and-halves a (2 * b), ap (bit_and (a / 2)) (half_even b))

bit_and-odd : (a b : ℕ) → bit_and a (2 * b + 1) ≡ a % 2 + 2 * bit_and (a / 2) b
bit_and-odd a b = omega (arith, bit_and-halves a (2 * b + 1), ap (bit_and (a / 2)) (half_odd b))

-- `n` bits, and a number moved by `n` bits in either direction
abbrev pub low_mask : ℕ → ℕ
low_mask zero = 0
low_mask (suc n) = 2 * low_mask n + 1

abbrev pub doubled : ℕ → ℕ → ℕ
doubled zero x = x
doubled (suc n) x = 2 * doubled n x

abbrev pub halved : ℕ → ℕ → ℕ
halved zero x = x
halved (suc n) x = halved n (x / 2)

-- A number that fits is all that the mask leaves.
pub bit_and-low_mask : (n a : ℕ) → a ≤ low_mask n → bit_and a (low_mask n) ≡ a
bit_and-low_mask zero zero h = refl
bit_and-low_mask zero (suc a) h = absurd (omega arith)
bit_and-low_mask (suc n) a h =
    omega (arith, bit_and-odd a (low_mask n), bit_and-low_mask n (a / 2) (omega arith))

pub bit_and-doubled : (n a b : ℕ) → bit_and a (doubled n b) ≡ doubled n (bit_and (halved n a) b)
bit_and-doubled zero a b = refl
bit_and-doubled (suc n) a b =
    omega (arith, bit_and-even a (doubled n b), bit_and-doubled n (a / 2) b)
