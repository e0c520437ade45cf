-- ===== src/Ring/Xbee/Mask.antt =====
-- The mask that xbee_cbuf_init accepts makes an index go round.
use pxbee_open_close.Prelude.{
  arith, ◌≤◌, ◌-◌, ℕ, ◌+◌, ◌-◌, ◌<◌, ◌==◌, ◌&&◌, ◌||◌, Bool, true, false, ◌≡◌, refl, bit_and,
}
use pxbee_open_close.Prelude.Bits.{sub8, tested_below, tested_below_lem}
use pxbee_open_close.Ring.{next, span}
use pxbee_open_close.Ring.Xbee.{is_bad_size}

-- a size of at most 255 that is accepted
pub record IsMask (m : ℕ) : Type 0 where
  pub range : m < 256
  pub accepted : is_bad_size m ≡ false

next_ok : ℕ → ℕ → Bool
next_ok m i = bit_and (i + 1) m == next (m + 1) i

before_ok : ℕ → ℕ → Bool
before_ok m i = next (m + 1) (bit_and (sub8 i 1) m) == i

span_ok : ℕ → ℕ → ℕ → Bool
span_ok m head tail =
    (bit_and (sub8 tail head) m == span (m + 1) head tail)
    && (bit_and (sub8 (sub8 head tail) 1) m == m - span (m + 1) head tail)

abbrev mask_ok : ℕ → Bool
mask_ok m =
    is_bad_size m
    || (tested_below (next_ok m) (m + 1)
        && tested_below (before_ok m) (m + 1)
        && tested_below (λ h. tested_below (span_ok m h) (m + 1)) (m + 1))

table : tested_below mask_ok 256 ≡ true
unfolding tested_below next_ok before_ok span_ok
table = refl

tables :
    (m : ℕ)
    → IsMask m
    → (tested_below (next_ok m) (m + 1) ≡ true)
      × (tested_below (before_ok m) (m + 1) ≡ true)
      × (tested_below (λ h. tested_below (span_ok m h) (m + 1)) (m + 1) ≡ true)
tables m k =
    let t = tested_below_lem mask_ok 256 m table k.range in
    let a = k.accepted in (ground (arith, t, a), ground (arith, t, a), ground (arith, t, a))

-- what the mask does to the index behind another one, and to the one in front of it
pub mask_next : (m i : ℕ) → IsMask m → i ≤ m → bit_and (i + 1) m ≡ next (m + 1) i
unfolding next_ok
mask_next m i k h =
    let t : next_ok m i ≡ true =
      tested_below_lem (next_ok m) (m + 1) i (tables m k).0 (omega arith) in
    ground (arith, t)

pub mask_before : (m i : ℕ) → IsMask m → i ≤ m → next (m + 1) (bit_and (sub8 i 1) m) ≡ i
unfolding before_ok
mask_before m i k h =
    let t : before_ok m i ≡ true =
      tested_below_lem (before_ok m) (m + 1) i (tables m k).1 (omega arith) in
    ground (arith, t)

-- what it does to a distance, and to the room that is left
pub mask_span :
    (m head tail : ℕ)
    → IsMask m
    → head ≤ m
    → tail ≤ m
    → (bit_and (sub8 tail head) m ≡ span (m + 1) head tail)
      × (bit_and (sub8 (sub8 head tail) 1) m ≡ m - span (m + 1) head tail)
unfolding span_ok
mask_span m head tail k h l =
    let row =
      tested_below_lem (λ h. tested_below (span_ok m h) (m + 1)) (m + 1) head (tables m k).2
        (omega arith) in
    let t : span_ok m head tail ≡ true =
      tested_below_lem (span_ok m head) (m + 1) tail row (omega arith) in
    (ground (arith, t), ground (arith, t))
