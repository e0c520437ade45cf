-- ===== src/Ring/Xbee/Blocks.antt =====
-- Blocks of bytes in and out of the ring.
use mathlib.Core.Path.{subst}
use pxbee_open_close.Prelude.{
  ℕ, zero, suc, ◌+◌, ◌-◌, ◌<◌, ◌≤◌, ◌==◌, min, [], ◌∷◌, ◌++◌, ◌≡◌, refl, arith, ap, sym, ◌∙◌,
  length, length-append, take, drop, append_assoc, append-nil, bit_and, Bool-cases, inl, inr,
}
use pxbee_open_close.Prelude.Bits.{Bytes, sub8}
use pxbee_open_close.Ring.{next, at}
use pxbee_open_close.Ring.Xbee.{Cbuf, put_bytes, put, get}
use pxbee_open_close.Ring.Xbee.Mask.{mask_before}
use pxbee_open_close.Ring.Xbee.Fifo.{
  Holds, pushed, pushed-Holds, popped-Holds, is_empty, is_full, not_zero,
}

-- the place in front of the head is the last one that the tail may take
stop_lem : (m head s : ℕ) → head ≤ m → next (m + 1) s ≡ head → s ≡ at (m + 1) head m
stop_lem m head s h e = ground arith

-- one byte more in the queue, and one less to come
split_lem :
    (q bs : Bytes) (b k n : ℕ) → k ≡ suc n → (q ++ (b ∷ [])) ++ take n bs ≡ q ++ take k (b ∷ bs)
split_lem q bs b k n e =
    append_assoc q (b ∷ []) (take n bs) ∙ ap (λ k. q ++ take k (b ∷ bs)) (sym e)

take_nil : (n : ℕ) → take {A = ℕ} n [] ≡ []
take_nil zero = refl
take_nil (suc n) = refl

put_bytes_lem :
    (buffer : Bytes) (c : Cbuf) (q : Bytes) (stop : ℕ)
    → Holds c q
    → stop ≡ at (c.mask + 1) c.head c.mask
    → ((put_bytes stop buffer c).0 ≡ min (length buffer) (c.mask - length q))
      × Holds (put_bytes stop buffer c).1 (q ++ take (c.mask - length q) buffer)
unfolding put_bytes
put_bytes_lem [] c q stop h s = (
  omega arith,
  subst (Holds c) (sym (append-nil q) ∙ ap (λ l. q ++ l) (sym (take_nil (c.mask - length q)))) h,
)
put_bytes_lem (b ∷ bs) c q stop h s =
    let f = is_full c q stop h s in
    let size = h.bounded in
    elim (Bool-cases (length q == c.mask)) [
      | inl full ↦
          let none_left : 0 ≡ c.mask - length q = ground arith in
          rw (f ∙ full) (
            ground arith,
            subst (Holds c) (sym (append-nil q) ∙ ap (λ k. q ++ take k (b ∷ bs)) none_left) h,
          )
      | inr room ↦
          let n = length-append q (b ∷ []) in
          let k : length q < c.mask = ground arith in
          let rest =
            put_bytes_lem bs (pushed c b) (q ++ (b ∷ [])) stop (pushed-Holds c q b h k) s in
          rw (f ∙ room) (
            omega (arith, rest.0, n),
            subst (Holds (put_bytes stop bs (pushed c b)).1)
                (split_lem q bs b (c.mask - length q) (c.mask - length (q ++ (b ∷ [])))
                  (omega (arith, n)))
                rest.1,
          )
    ]

-- Of a block the ring takes as many bytes, from the front, as it has room for; they come behind the
-- queue, and their number is returned. A ring that holds one byte, where head == tail - 1 (full by the
-- comment in cbuf.h), still takes mask - 1 bytes.
pub put_lem :
    (c : Cbuf) (q buffer : Bytes)
    → Holds c q
    → ((put c buffer).0 ≡ min (length buffer) (c.mask - length q))
      × Holds (put c buffer).1 (q ++ take (c.mask - length q) buffer)
unfolding put
put_lem c q buffer h = put_bytes_lem buffer c q (bit_and (sub8 c.head 1) c.mask) h (
    stop_lem c.mask c.head (bit_and (sub8 c.head 1) c.mask) h.inside
      (mask_before c.mask c.head h.masked h.inside))

-- A block of `n` bytes that is asked for is the first `n` bytes of the queue, or all of a shorter
-- one, and the ring holds the rest.
pub get_lem :
    (n : ℕ) (c : Cbuf) (q : Bytes)
    → Holds c q
    → ((get n c).0 ≡ take n q) × Holds (get n c).1 (drop n q)
unfolding get
get_lem zero c q h = (refl, h)
get_lem (suc n) c [] h = rw (is_empty c [] h) (refl, h)
get_lem (suc n) c (x ∷ q) h =
    let p = popped-Holds c x q h in
    let rest = get_lem n (record c { head = bit_and (c.head + 1) c.mask }) q p.1 in
    rw (is_empty c (x ∷ q) h ∙ not_zero (length q)) (
      ap (λ b. b ∷ (get n (record c { head = bit_and (c.head + 1) c.mask })).0) p.0
          ∙ ap (◌∷◌ x) rest.0,
      rest.1,
    )
