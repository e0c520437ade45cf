-- ===== src/Zcl/Memory.antt =====
-- The memory behind the pointers of attributes, byte by byte: memcpy into it and out of it.
use mathlib.Core.Path.{subst}
use pxbee_open_close.Prelude.{
  ℕ, zero, suc, ◌+◌, ◌-◌, [], ◌∷◌, ◌&&◌, ◌<◌, ◌≡◌, refl, ap, arith, ltb, leb, if◌then◌else◌, get_or,
  length,
}
use pxbee_open_close.Prelude.Bits.{Bytes}
use pxbee_open_close.Zcl.{Store}

-- the bytes from an address on
unfoldable pub load : (ℕ → ℕ) → ℕ → ℕ → Bytes
load m a zero = []
load m a (suc n) = m a ∷ load m (a + 1) n

unfoldable pub poke : (ℕ → ℕ) → ℕ → Bytes → ℕ → ℕ
poke m a bs x = if leb a x && ltb x (a + length bs) then get_or bs (x - a) 0 else m x

-- memcpy to an address
abbrev pub store_bytes : Store → ℕ → Bytes → Store
store_bytes s a bs = record s { byte_at = poke s.byte_at a bs }

pub length-load : (m : ℕ → ℕ) (a n : ℕ) → length (load m a n) ≡ n
unfolding load
length-load m a zero = refl
length-load m a (suc n) = ap suc (length-load m (a + 1) n)

load_pointwise :
    (m : ℕ → ℕ) (a : ℕ) (bs : Bytes)
    → ((i : ℕ) → i < length bs → m (a + i) ≡ get_or bs i 0)
    → load m a (length bs) ≡ bs
unfolding load
load_pointwise m a [] agree = refl
load_pointwise m a (b ∷ bs) agree =
    let first : m a ≡ b = subst (λ x. m x ≡ b) (omega arith) (agree 0 (omega arith)) in
    let rest =
      load_pointwise m (a + 1) bs
        λ i below. subst (λ x. m x ≡ get_or bs i 0) (omega arith) (agree (suc i) (omega arith)) in
    cc (first, rest)

-- What is copied to an address is read back from it.
pub load-poke : (m : ℕ → ℕ) (a : ℕ) (bs : Bytes) → load (poke m a bs) a (length bs) ≡ bs
unfolding poke
load-poke m a bs = load_pointwise (poke m a bs) a bs (λ i below. ground (arith))

-- Bytes outside the copy keep their values.
pub poke-outside : (m : ℕ → ℕ) (a : ℕ) (bs : Bytes) (x : ℕ) → x < a → poke m a bs x ≡ m x
unfolding poke
poke-outside m a bs x below = ground arith
