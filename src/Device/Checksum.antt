-- ===== src/Device/Checksum.antt =====
-- The checksum of a frame.
use pxbee_open_close.Prelude.{ℕ, ◌<◌, [], ◌∷◌, ◌++◌, ◌≡◌, ◌≢◌, refl, arith}
use pxbee_open_close.Prelude.Bits.{Bytes, IsByte, IsBytes, sub8}
use pxbee_open_close.Device.{checksum}

pub checksum-append : (xs ys : Bytes) (c : ℕ) → checksum (xs ++ ys) c ≡ checksum ys (checksum xs c)
checksum-append [] ys c = refl
checksum-append (x ∷ xs) ys c = checksum-append xs ys (sub8 c x)

-- with its checksum behind it a frame has the checksum 0
pub checksum_closes : (p : Bytes) → checksum (p ++ (checksum p 0xff ∷ [])) 0xff ≡ 0
checksum_closes p = omega (arith, checksum-append p (checksum p 0xff ∷ []) 0xff)

checksum_differs :
    (p : Bytes) (c d : ℕ) → IsBytes p → c < 256 → d < 256 → c ≢ d → checksum p c ≢ checksum p d
checksum_differs [] c d b hc hd ne = ne
checksum_differs (x ∷ p) c d b hc hd ne =
    let h = b.0 in
    checksum_differs p (sub8 c x) (sub8 d x) b.1 (omega arith) (omega arith) (λ e. ne (omega arith))

checksum-IsByte : (p : Bytes) (c : ℕ) → c < 256 → checksum p c < 256
checksum-IsByte [] c h = h
checksum-IsByte (x ∷ p) c h = checksum-IsByte p (sub8 c x) (omega arith)

-- Where the bytes of a frame and its checksum add up, they do so no longer when any one of them is
-- changed into another byte.
pub checksum_detects :
    (front back : Bytes) (x y : ℕ)
    → IsByte x
    → IsByte y
    → IsBytes back
    → x ≢ y
    → checksum (front ++ (x ∷ back)) 0xff ≡ 0
    → checksum (front ++ (y ∷ back)) 0xff ≢ 0
checksum_detects front back x y hx hy b ne e f =
    let c = checksum front 0xff in
    let range = checksum-IsByte front 0xff (omega arith) in
    checksum_differs back (sub8 c x) (sub8 c y) b (omega arith) (omega arith)
      (λ q. ne (omega arith))
      (omega
        (arith, e, f, checksum-append front (x ∷ back) 0xff, checksum-append front (y ∷ back) 0xff))
