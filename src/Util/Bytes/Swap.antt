-- ===== src/Util/Bytes/Swap.antt =====
-- Swapping bytes, and what memcheck finds.
use pxbee_open_close.Prelude.{
  ℕ, zero, suc, ◌+◌, ◌-◌, get_or, ◌*◌, ◌/◌, ◌%◌, ◌<◌, ◌≡◌, refl, ap, sym, ◌∙◌, pos, true, [], ◌∷◌,
  ◌==◌, All, arith,
}
use pxbee_open_close.Prelude.Bits.{Bytes, tested_below, tested_below_lem}
use pxbee_open_close.Util.Bytes.{swap16, swapcpy, memcheck}

swaps_back :
    tested_below
      (λ high. tested_below (λ low. swap16 (swap16 (high * 256 + low)) == high * 256 + low) 256)
      256
    ≡ true
unfolding tested_below swap16
swaps_back = refl

swap16-swap16 : (value : ℕ) → value < 65536 → swap16 (swap16 value) ≡ value
swap16-swap16 value small =
    let parts : value / 256 * 256 + value % 256 ≡ value = omega arith in
    ap (λ v. swap16 (swap16 v)) (sym parts)
    ∙ halves (value / 256) (value % 256) (omega arith) (omega arith)
    ∙ parts
  where
    equal : (a b : ℕ) → (a == b) ≡ true → a ≡ b
    equal a b h = ground arith

    halves :
        (high low : ℕ)
        → high < 256
        → low < 256
        → swap16 (swap16 (high * 256 + low)) ≡ high * 256 + low
    halves high low h l = equal (swap16 (swap16 (high * 256 + low))) (high * 256 + low) (
        tested_below_lem (λ low. swap16 (swap16 (high * 256 + low)) == high * 256 + low) 256 low
          (tested_below_lem
            (λ high.
              tested_below (λ low. swap16 (swap16 (high * 256 + low)) == high * 256 + low) 256)
            256 high swaps_back h)
          l)

-- The memory is found to be filled with the byte just if it is.
memcheck-filled : (src : Bytes) (c : ℕ) → c < 256 → All (λ s. s ≡ c) src → memcheck src c ≡ pos 0
unfolding memcheck
memcheck-filled [] c small all = refl
memcheck-filled (s ∷ src) c small (same, all) = ground (arith, memcheck-filled src c small all)

filled-memcheck : (src : Bytes) (c : ℕ) → c < 256 → memcheck src c ≡ pos 0 → All (λ s. s ≡ c) src
unfolding memcheck
filled-memcheck [] c small h = tt
filled-memcheck (s ∷ src) c small h = ground (arith, filled-memcheck src c small)

swapcpy-at : (src : Bytes) (n i : ℕ) → i < n → get_or (swapcpy src n) i 0 ≡ get_or src (n - 1 - i) 0
unfolding swapcpy
swapcpy-at src zero i h = absurd (omega arith)
swapcpy-at src (suc n) zero h = ap (λ k. get_or src k 0) (omega arith)
swapcpy-at src (suc n) (suc i) h =
    swapcpy-at src n i (omega arith) ∙ ap (λ k. get_or src k 0) (omega arith)
