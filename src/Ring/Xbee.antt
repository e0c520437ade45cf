-- ===== src/Ring/Xbee.antt =====
-- The ring of received bytes, of a size that is a power of two: pxbee/pan/xbee/xbee_cbuf.c. Bytes
-- are written at the tail and read at the head.
pub mod Mask
pub mod Fifo
pub mod Blocks
use pxbee_open_close.Prelude.{
  ℕ, zero, suc, ◌+◌, ◌-◌, ◌==◌, ◌||◌, ltb, not, ℤ, pos, negsuc, einval, Bool, Option, none, some,
  List, [], ◌∷◌, if◌then◌else◌, get_or, set, bit_and,
}
use pxbee_open_close.Prelude.Bits.{Bytes, sub8}

-- `xbee_cbuf_t`; `cells`, `data` in the source, is the memory behind the structure
pub record Cbuf : Type 0 where
  pub head : ℕ
  pub tail : ℕ
  pub mask : ℕ
  pub cells : Bytes

abbrev pub is_bad_size : ℕ → Bool
is_bad_size datasize = ltb datasize 3 || not (bit_and datasize (datasize + 1) == 0)

-- none is the NULL pointer
unfoldable pub init : Option Cbuf → ℕ → ℤ × Option Cbuf
init none datasize = (einval, none)
init (some cbuf) datasize =
    if is_bad_size datasize
    then (einval, some cbuf)
    else (pos 0, some (record cbuf { mask = datasize; head = 0; tail = 0 }))

-- The byte is stored before the code knows whether there is room.
unfoldable pub putch : Cbuf → ℕ → ℤ × Cbuf
putch cbuf ch =
    let stored = record cbuf { cells = set cbuf.cells cbuf.tail ch } in
    let t = bit_and (cbuf.tail + 1) cbuf.mask in
    if t == cbuf.head then (pos 0, stored) else (pos 1, record stored { tail = t })

unfoldable pub getch : Cbuf → ℤ × Cbuf
getch cbuf = if cbuf.head == cbuf.tail then (negsuc 0, cbuf) else (
  pos (get_or cbuf.cells cbuf.head 0),
  record cbuf { head = bit_and (cbuf.head + 1) cbuf.mask },
)

-- A mask has eight bits, so only the low byte of a difference counts.
unfoldable pub used : Cbuf → ℕ
used cbuf = bit_and (sub8 cbuf.tail cbuf.head) cbuf.mask

unfoldable pub free : Cbuf → ℕ
free cbuf = bit_and (sub8 (sub8 cbuf.head cbuf.tail) 1) cbuf.mask

unfoldable pub flush : Cbuf → Cbuf
flush cbuf = record cbuf { head = cbuf.tail }

-- the loop of xbee_cbuf_put over the bytes of the buffer, and how many were copied
put_bytes : ℕ → Bytes → Cbuf → ℕ × Cbuf
put_bytes stop [] cbuf = (0, cbuf)
put_bytes stop (b ∷ buffer) cbuf =
    let (copied, after) = put_bytes stop buffer (record cbuf {
      cells = set cbuf.cells cbuf.tail b;
      tail = bit_and (cbuf.tail + 1) cbuf.mask;
    }) in
    if cbuf.tail == stop then (0, cbuf) else (copied + 1, after)

unfoldable pub put : Cbuf → Bytes → ℕ × Cbuf
unfolding put_bytes
put cbuf buffer = put_bytes (bit_and (sub8 cbuf.head 1) cbuf.mask) buffer cbuf

-- xbee_cbuf_get: the bytes that are copied into the buffer; their number is returned
unfoldable pub get : ℕ → Cbuf → Bytes × Cbuf
get zero cbuf = ([], cbuf)
get (suc copy) cbuf =
    let (bytes, after) = get copy (record cbuf { head = bit_and (cbuf.head + 1) cbuf.mask }) in
    if cbuf.head == cbuf.tail then ([], cbuf) else (get_or cbuf.cells cbuf.head 0 ∷ bytes, after)
