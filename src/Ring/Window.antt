-- ===== src/Ring/Window.antt =====
-- Writing behind a window.
use mathlib.Core.Path.{subst}
use pxbee_open_close.Prelude.{
  zero, sym, ℕ, suc, ◌<◌, ◌≤◌, ◌≢◌, [], ◌∷◌, ◌++◌, ◌≡◌, arith, ap, ◌∙◌, length, set, get_or,
  get_or-set_self, get_or-set_ne,
}
use pxbee_open_close.Prelude.Bits.{Bytes}
use pxbee_open_close.Ring.{next, at, Window}

at_zero : (size start : ℕ) → start < size → at size start 0 ≡ start
at_zero size start h = ground arith

at-suc :
    (size start k : ℕ)
    → start < size
    → suc k < size
    → at size start (suc k) ≡ at size (next size start) k
at-suc size start k h l = ground arith

at_ne : (size start k : ℕ) → start < size → suc k < size → at size start (suc k) ≢ start
at_ne size start k h l = ground arith

pub next_bound : (size i : ℕ) → i < size → next size i < size
next_bound size i h = ground arith

pub at_bound : (size i k : ℕ) → i < size → k < size → at size i k < size
at_bound size i k h l = ground arith

-- a write behind the window, but inside of the array
pub Window-set :
    (cells : Bytes) (size start m v : ℕ) (xs : Bytes)
    → start < size
    → m < size
    → length xs ≤ m
    → Window cells size start xs
    → Window (set cells (at size start m) v) size start xs
Window-set cells size start m v [] h l k w = tt
Window-set cells size start zero v (x ∷ xs) h l k w = absurd (omega arith)
Window-set cells size start (suc m) v (x ∷ xs) h l k w = (
  get_or-set_ne cells (at size start (suc m)) start v 0 (at_ne size start m h l) ∙ w.0,
  subst (λ i. Window (set cells i v) size (next size start) xs) (sym (at-suc size start m h l))
      (Window-set cells size (next size start) m v xs (next_bound size start h) (omega arith)
        (omega arith) w.1),
)

-- one more byte, in the place behind the window
pub Window-append :
    (cells : Bytes) (size start v : ℕ) (xs : Bytes)
    → start < size
    → length xs < size
    → size ≤ length cells
    → Window cells size start xs
    → Window (set cells (at size start (length xs)) v) size start (xs ++ (v ∷ []))
Window-append cells size start v [] h l k w = (
  ap (λ i. get_or (set cells i v) start 0) (at_zero size start h)
      ∙ get_or-set_self cells start v 0 (omega arith),
  tt,
)
Window-append cells size start v (x ∷ xs) h l k w = (
  get_or-set_ne cells (at size start (suc (length xs))) start v 0 (at_ne size start (length xs) h l)
      ∙ w.0,
  subst (λ i. Window (set cells i v) size (next size start) (xs ++ (v ∷ [])))
      (sym (at-suc size start (length xs) h l))
      (Window-append cells size (next size start) v xs (next_bound size start h) (omega arith) k
        w.1),
)
