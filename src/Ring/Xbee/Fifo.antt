-- ===== src/Ring/Xbee/Fifo.antt =====
-- The ring is a queue of bytes of bounded length.
use pxbee_open_close.Prelude.{
  ltb, drop, ℤ, Bool-cases, inl, inr, if◌then◌else◌, ℕ, suc, ◌+◌, ◌<◌, ◌≤◌, ◌==◌, pos, negsuc, [],
  ◌∷◌, ◌++◌, ◌≡◌, refl, arith, ap, sym, ◌∙◌, length, length-set, length-append, get_or, set,
  bit_and, true, false,
}
use pxbee_open_close.Prelude.Bits.{Bytes}
use pxbee_open_close.Ring.{next, at, span, Window}
use pxbee_open_close.Ring.Window.{at_bound, next_bound, Window-set, Window-append}
use pxbee_open_close.Ring.Xbee.{Cbuf, putch, getch, used, free}
use pxbee_open_close.Ring.Xbee.Mask.{IsMask, mask_next, mask_span}

-- The ring holds the queue `q`: from the head on stand its bytes, and the tail is behind them.
pub record Holds (c : Cbuf) (q : Bytes) : Type 0 where
  pub masked : IsMask c.mask
  pub room : c.mask < length c.cells
  pub inside : c.head ≤ c.mask
  pub bounded : length q ≤ c.mask
  pub ends : c.tail ≡ at (c.mask + 1) c.head (length q)
  pub holds : Window c.cells (c.mask + 1) c.head q

tail_inside : (c : Cbuf) (q : Bytes) → Holds c q → c.tail ≤ c.mask
tail_inside c q h =
    let i = h.inside in
    let b = h.bounded in
    let a = at_bound (c.mask + 1) c.head (length q) (omega arith) (omega arith) in
    let e = h.ends in omega (arith, a, e)

next-at :
    (size start k : ℕ)
    → start < size
    → suc k < size
    → next size (at size start k) ≡ at size start (suc k)
next-at size start k h l = ground arith

at_wraps : (size start k : ℕ) → start < size → suc k ≡ size → next size (at size start k) ≡ start
at_wraps size start k h l = ground arith

at_behind :
    (size start k : ℕ)
    → start < size
    → suc k < size
    → at size start (suc k) ≡ at size (next size start) k
at_behind size start k h l = ground arith

at_differs : (size start k : ℕ) → start < size → k < size → (at size start k == start) ≡ (k == 0)
at_differs size start k h l = ground arith

pub not_zero : (n : ℕ) → (suc n == 0) ≡ false
not_zero n = ground arith

span-at : (size start k : ℕ) → start < size → k < size → span size start (at size start k) ≡ k
span-at size start k h l = ground arith

-- the place behind the tail
tail_next :
    (c : Cbuf) (q : Bytes)
    → Holds c q
    → bit_and (c.tail + 1) c.mask ≡ next (c.mask + 1) (at (c.mask + 1) c.head (length q))
tail_next c q h =
    mask_next c.mask c.tail h.masked (tail_inside c q h) ∙ ap (next (c.mask + 1)) h.ends

-- a write at the tail leaves the queue as it is
stored-Holds :
    (c : Cbuf) (q : Bytes) (v : ℕ) → Holds c q → Holds (record c { cells = set c.cells c.tail v }) q
stored-Holds c q v h =
    let i = h.inside in
    let b = h.bounded in
    let r = h.room in
    record {
      masked = h.masked;
      room = omega (arith, length-set c.cells c.tail v, r);
      inside = i;
      bounded = b;
      ends = h.ends;
      holds = rw h.ends (
          Window-set c.cells (c.mask + 1) c.head (length q) v q (omega arith) (omega arith)
            (omega arith) h.holds);
    }

-- a write at the tail, and a tail that goes on
abbrev pub pushed : Cbuf → ℕ → Cbuf
pushed c v = record c { cells = set c.cells c.tail v; tail = bit_and (c.tail + 1) c.mask }

pub pushed-Holds :
    (c : Cbuf) (q : Bytes) (v : ℕ)
    → Holds c q
    → length q < c.mask
    → Holds (pushed c v) (q ++ (v ∷ []))
pushed-Holds c q v h k =
    let i = h.inside in
    let r = h.room in
    let n = length-append q (v ∷ []) in
    record {
      masked = h.masked;
      room = omega (arith, length-set c.cells c.tail v, r);
      inside = i;
      bounded = omega (arith, n);
      ends =
          tail_next c q h
          ∙ next-at (c.mask + 1) c.head (length q) (omega arith) (omega arith)
          ∙ ap (at (c.mask + 1) c.head) (omega (arith, n));
      holds = rw h.ends (
          Window-append c.cells (c.mask + 1) c.head v q (omega arith) (omega arith) (omega arith)
            h.holds);
    }

putch_room :
    (c : Cbuf) (q : Bytes) (ch : ℕ)
    → Holds c q
    → length q < c.mask
    → ((putch c ch).0 ≡ pos 1) × Holds (putch c ch).1 (q ++ (ch ∷ []))
unfolding putch
putch_room c q ch h k =
    let i = h.inside in
    let size = c.mask + 1 in
    let t : (bit_and (c.tail + 1) c.mask == c.head) ≡ false =
      ap (λ t. t == c.head)
        (tail_next c q h ∙ next-at size c.head (length q) (omega arith) (omega arith))
      ∙ at_differs size c.head (suc (length q)) (omega arith) (omega arith)
      ∙ not_zero (length q) in
    rw t (refl, pushed-Holds c q ch h k)

putch_full :
    (c : Cbuf) (q : Bytes) (ch : ℕ)
    → Holds c q
    → length q ≡ c.mask
    → ((putch c ch).0 ≡ pos 0) × Holds (putch c ch).1 q
unfolding putch
putch_full c q ch h k =
    let i = h.inside in
    let size = c.mask + 1 in
    let t : (bit_and (c.tail + 1) c.mask == c.head) ≡ true =
      ap (λ t. t == c.head)
        (tail_next c q h ∙ at_wraps size c.head (length q) (omega arith) (omega arith))
      ∙ ground arith in
    rw t (refl, stored-Holds c q ch h)

-- the queue with a byte more, where a ring with this mask has room for it
abbrev pub offered : ℕ → Bytes → ℕ → Bytes
offered mask q ch = if ltb (length q) mask then q ++ (ch ∷ []) else q

-- Where there is room, a byte is put behind the queue and 1 is returned; in a full ring, which
-- holds as many bytes as its mask says, the queue stays as it is and 0 is returned.
pub putch_lem :
    (c : Cbuf) (q : Bytes) (ch : ℕ)
    → Holds c q
    → ((putch c ch).0 ≡ pos (if ltb (length q) c.mask then 1 else 0))
      × Holds (putch c ch).1 (offered c.mask q ch)
putch_lem c q ch h =
    let b = h.bounded in
    elim (Bool-cases (ltb (length q) c.mask)) [
      | inl room ↦ rw room (putch_room c q ch h (ground arith))
      | inr full ↦ rw full (putch_full c q ch h (ground arith))
    ]

-- a head that goes on
pub popped-Holds :
    (c : Cbuf) (x : ℕ) (q : Bytes)
    → Holds c (x ∷ q)
    → (get_or c.cells c.head 0 ≡ x) × Holds (record c { head = bit_and (c.head + 1) c.mask }) q
popped-Holds c x q h =
    let i = h.inside in
    let b = h.bounded in
    let n = mask_next c.mask c.head h.masked i in
    (
      h.holds.0,
      record {
        masked = h.masked;
        room = h.room;
        inside = omega (arith, n, next_bound (c.mask + 1) c.head (omega arith));
        bounded = omega arith;
        ends =
            h.ends
            ∙ at_behind (c.mask + 1) c.head (length q) (omega arith) (omega arith)
            ∙ ap (λ j. at (c.mask + 1) j (length q)) (sym n);
        holds = rw n h.holds.1;
      },
    )

-- the code's test for an empty ring
pub is_empty : (c : Cbuf) (q : Bytes) → Holds c q → (c.head == c.tail) ≡ (length q == 0)
is_empty c q h =
    let i = h.inside in
    let b = h.bounded in
    let d = at_differs (c.mask + 1) c.head (length q) (omega arith) (omega arith) in
    let e = h.ends in ground (arith, d, e)

-- the first byte of a queue, or -1
abbrev pub front : Bytes → ℤ
front [] = negsuc 0
front (x ∷ q) = pos x

-- The result is the first byte of the queue, or -1 where the queue is empty, and the ring holds
-- what is left of the queue.
pub getch_lem :
    (c : Cbuf) (q : Bytes) → Holds c q → ((getch c).0 ≡ front q) × Holds (getch c).1 (drop 1 q)
unfolding getch
getch_lem c [] h = rw (is_empty c [] h) (refl, h)
getch_lem c (x ∷ q) h =
    let p = popped-Holds c x q h in
    rw (is_empty c (x ∷ q) h ∙ not_zero (length q)) (ap pos p.0, p.1)

-- xbee_cbuf_used is the length of the queue, and xbee_cbuf_free what the mask leaves of it.
pub used-free :
    (c : Cbuf) (q : Bytes) → Holds c q → (used c ≡ length q) × (free c + length q ≡ c.mask)
unfolding used free
used-free c q h =
    let i = h.inside in
    let b = h.bounded in
    let s = mask_span c.mask c.head c.tail h.masked i (tail_inside c q h) in
    let l : span (c.mask + 1) c.head c.tail ≡ length q =
      ap (span (c.mask + 1) c.head) h.ends
      ∙ span-at (c.mask + 1) c.head (length q) (omega arith) (omega arith) in
    (s.0 ∙ l, omega (arith, s.1, l))

-- the code's test for a full ring
pub is_full :
    (c : Cbuf) (q : Bytes) (stop : ℕ)
    → Holds c q
    → stop ≡ at (c.mask + 1) c.head c.mask
    → (c.tail == stop) ≡ (length q == c.mask)
is_full c q stop h s =
    let i = h.inside in let b = h.bounded in let e = h.ends in ground (arith, e, s)
