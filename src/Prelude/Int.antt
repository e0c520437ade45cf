-- ===== src/Prelude/Int.antt =====
-- The results of C functions: signed integers over the native numbers, and the error codes.
-- The codes are those of pxbee/headers/xbee/platform.h.
use Prim.Native.Nat.{ℕ}
use mathlib.Core.Path.{◌≡◌, refl}
use mathlib.Core.Logic.{◌⊎◌, inl, inr}
use mathlib.Core.Bool.{Bool, true, false}
use pxbee_open_close.Prelude.Tests.{◌==◌}

-- `negsuc n` is -(n + 1).
pub data ℤ : Type 0 where
  pos : ℕ → ℤ
  negsuc : ℕ → ℤ

-- To split on a computed result and keep the equation.
pub ℤ-cases : (z : ℤ) → ((n : ℕ) × (z ≡ pos n)) ⊎ ((n : ℕ) × (z ≡ negsuc n))
ℤ-cases (pos n) = inl (n, refl)
ℤ-cases (negsuc n) = inr (n, refl)

-- `error == 0`
abbrev pub is_zero : ℤ → Bool
is_zero (pos n) = n == 0
is_zero (negsuc n) = false

-- `retval < 0`
abbrev pub is_negative : ℤ → Bool
is_negative (pos n) = false
is_negative (negsuc n) = true

abbrev pub enodata : ℤ
enodata = negsuc 19999

abbrev pub einval : ℤ
einval = negsuc 20000

abbrev pub ebusy : ℤ
ebusy = negsuc 20002

abbrev pub enospc : ℤ
enospc = negsuc 20004

abbrev pub enoent : ℤ
enoent = negsuc 20005

abbrev pub ebadmsg : ℤ
ebadmsg = negsuc 20009

abbrev pub emsgsize : ℤ
emsgsize = negsuc 20017

-- what a function yields that returns 0 for success and an error code otherwise
pub data Result {ℓ} (A : Type ℓ) : Type ℓ where
  ok : A → Result A
  err : ℤ → Result A
