-- ===== src/Ring/Driver.antt =====
-- The ring of the drivers, of any size up to 255: pxbee/misc/cbuffer.c. Bytes are written at the
-- head and read at the tail.
use pxbee_open_close.Prelude.{
  ℕ, ◌+◌, ◌-◌, ◌%◌, ◌==◌, ℤ, pos, negsuc, Bool, if◌then◌else◌, get_or, set,
}
use pxbee_open_close.Prelude.Bits.{Bytes}

-- `struct cbuf`; `buf` is the memory behind its pointer
pub record Buffer : Type 0 where
  pub head : ℕ
  pub tail : ℕ
  pub buf : Bytes
  pub blen : ℕ

unfoldable pub cbuf_init : Bytes → ℕ → Buffer
cbuf_init buffer buflen = record { head = 0; tail = 0; buf = buffer; blen = buflen }

-- `blen + head - tail` is an int and not negative while both indices are less than `blen`.
unfoldable pub data_in_buf : Buffer → ℕ
data_in_buf cb = (cb.blen + cb.head - cb.tail) % cb.blen

unfoldable pub space_in_buf : Buffer → ℕ
space_in_buf cb = cb.blen - data_in_buf cb - 1

abbrev pub is_cbuf_empty : Buffer → Bool
is_cbuf_empty cb = cb.head == cb.tail

unfoldable pub cbuf_flush : Buffer → Buffer
cbuf_flush cb = record cb { head = cb.tail }

abbrev pub is_cbuf_full : Buffer → Bool
is_cbuf_full cb = (cb.head + 1) % cb.blen == cb.tail

-- In a full ring the byte is dropped.
unfoldable pub cbuf_append : Buffer → ℕ → Buffer
cbuf_append cb b =
    let nhead = (cb.head + 1) % cb.blen in
    if nhead == cb.tail then cb else record cb { buf = set cb.buf cb.head b; head = nhead }

unfoldable pub cbuf_get_nocheck : Buffer → ℕ × Buffer
cbuf_get_nocheck cb = (get_or cb.buf cb.tail 0, record cb { tail = (cb.tail + 1) % cb.blen })

-- -ENOENT is -2 in this file.
unfoldable pub cbuf_get : Buffer → ℤ × Buffer
cbuf_get cb =
    if is_cbuf_empty cb
    then (negsuc 1, cb)
    else (let (b, after) = cbuf_get_nocheck cb in (pos b, after))
