-- ===== src/Prelude/Bits.antt =====
-- Bytes, machine words and bit masks.
use Prim.Native.Nat.{ℕ, zero, suc, ◌+◌, ◌-◌, ◌*◌, ◌%◌, ◌<◌, bit_and}
use mathlib.Core.Path.{◌≡◌}
use mathlib.Core.Bool.{Bool, true, not, ◌&&◌}
use mathlib.Core.List.{List}
use native.Mathlib.Omega.{arith}
use pxbee_open_close.Prelude.Tests.{◌==◌, leb}
use pxbee_open_close.Prelude.Lists.{All}

abbrev pub Bytes : Type 0
Bytes = List ℕ

abbrev pub IsByte : ℕ → Type 0
IsByte b = b < 256

abbrev pub IsBytes : Bytes → Type 0
IsBytes = All IsByte

-- `x & mask` as a condition
abbrev pub has : ℕ → ℕ → Bool
has x mask = not (bit_and x mask == 0)

-- uint8_t and uint16_t subtraction: `-` on the numbers stops at 0, so the modulus comes first
abbrev pub sub8 : ℕ → ℕ → ℕ
sub8 a b = (a + 256 - b) % 256

abbrev pub sub16 : ℕ → ℕ → ℕ
sub16 a b = (a + 65536 - b) % 65536

-- an int16_t is its bit pattern; `x < 0`
abbrev pub is_neg16 : ℕ → Bool
is_neg16 x = leb 32768 x

-- `le16toh` of the two bytes as they lie in memory, and back
abbrev pub le16 : ℕ → ℕ → ℕ
le16 lo hi = lo + 256 * hi

-- The test holds of the numbers from `0` up to the bound: found out by evaluation.
unfoldable pub tested_below : (ℕ → Bool) → ℕ → Bool
tested_below test zero = true
tested_below test (suc bound) = tested_below test bound && test bound

pub tested_below_lem :
    (test : ℕ → Bool) (bound i : ℕ) → tested_below test bound ≡ true → i < bound → test i ≡ true
unfolding tested_below
tested_below_lem test zero i passed below = absurd (omega arith)
tested_below_lem test (suc bound) i passed below = ground (arith, tested_below_lem test bound i)
