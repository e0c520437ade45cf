-- ===== src/Ring.antt =====
-- Ring buffers: pxbee/pan/xbee/xbee_cbuf.c, which holds what the serial port receives, and
-- pxbee/misc/cbuffer.c. Here is what they have in common, a window that goes round in an array.
pub mod Window
pub mod Xbee
pub mod Driver
use pxbee_open_close.Prelude.{
  ℕ, ◌+◌, ◌-◌, ◌==◌, ltb, leb, List, [], ◌∷◌, ◌≡◌, if◌then◌else◌, get_or,
}
use pxbee_open_close.Prelude.Bits.{Bytes}

-- the index behind another one, and the one `k` places on, for `k` less than the size
abbrev pub next : ℕ → ℕ → ℕ
next size i = if i + 1 == size then 0 else i + 1

abbrev pub at : ℕ → ℕ → ℕ → ℕ
at size start k = if ltb (start + k) size then start + k else start + k - size

-- the number of places from one index on to another
abbrev pub span : ℕ → ℕ → ℕ → ℕ
span size head tail = if leb head tail then tail - head else tail + size - head

-- the array holds these bytes, one behind the other, from an index on
abbrev pub Window : Bytes → ℕ → ℕ → Bytes → Type 0
Window cells size start [] = Unit
Window cells size start (x ∷ xs) =
    (get_or cells start 0 ≡ x) × Window cells size (next size start) xs
