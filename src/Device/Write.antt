-- ===== src/Device/Write.antt =====
-- Sending a frame: xbee_frame_write of pxbee/pan/xbee/xbee_device.c, with what it uses of
-- pxbee/pan/hal/xbee_serial_hcs08.c.
pub mod Laws
use pxbee_open_close.Prelude.{
  ℕ, ◌+◌, ◌%◌, ◌/◌, ℤ, pos, einval, enodata, ebusy, emsgsize, Bool, true, not, Option, none, some,
  [], ◌∷◌, ◌++◌, ◌==◌, ◌&&◌, ◌||◌, ltb, if◌then◌else◌, take,
}
use pxbee_open_close.Prelude.Bits.{Bytes, sub16, is_neg16}
use pxbee_open_close.Device.{checksum, start_byte}

-- `xbee_serial_t` as far as sending goes: the port is one of the two that there are, the flag for
-- flow control of its device, the level of /CTS, and the bytes that were put on the line.
pub record Line : Type 0 where
  pub valid : Bool
  pub use_flowcontrol : Bool
  pub cts : Bool
  pub sent : Bytes

-- `xbee_ser_write` on a valid port: it waits until all bytes are out
abbrev pub ser_write : Bytes → ℕ → Bytes → Bytes
ser_write buffer length sent = if is_neg16 length then sent else sent ++ take length buffer

-- `xbee_ser_tx_free`, INT_MAX, and `xbee_ser_tx_used`, 0, as the framesize is compared with them:
-- an int is its bit pattern of 16 bits.
abbrev pub tx_free : ℕ
tx_free = 32767

abbrev pub tx_used : ℕ
tx_used = 0

-- `a < b` of two ints
abbrev pub lt16 : ℕ → ℕ → Bool
lt16 a b = ltb ((a + 32768) % 65536) ((b + 32768) % 65536)

-- the bytes that a NULL pointer stands for, and their number
abbrev pub part : Option Bytes → ℕ → Bytes × ℕ
part none length = ([], 0)
part (some bytes) length = (bytes, length)

-- what goes on the line, with the checksum over the header and then over the data
abbrev pub put_frame : Bytes × ℕ → Bytes × ℕ → Bytes → Bytes
put_frame (header, headerlen) (bytes, datalen) sent =
    let size = (headerlen + datalen) % 65536 in
    let prefixed = ser_write (start_byte ∷ (size / 256) ∷ (size % 256) ∷ []) 3 sent in
    let sum = checksum (take (headerlen % 256) header) 0xff in
    let total = checksum (take (datalen % 256) bytes) sum in
    ser_write (total ∷ []) 1 (ser_write bytes datalen (ser_write header headerlen prefixed))

-- A part of length 0 is not written, and a write of length 0 writes nothing.
unfoldable pub frame_write : Option Line → Option Bytes → ℕ → Option Bytes → ℕ → ℤ × Option Line
frame_write none header headerlen bytes datalen = (einval, none)
frame_write (some xbee) header headerlen bytes datalen =
    let h = part header headerlen in
    let d = part bytes datalen in
    let framesize = (h.1 + d.1 + 3 + 1) % 65536 in
    let cts = if xbee.use_flowcontrol then xbee.cts else true in
    if not xbee.valid
    then (einval, some xbee)
    else if (h.1 == 0) && (d.1 == 0)
    then (enodata, some xbee)
    else if not cts || lt16 tx_free framesize
    then (if lt16 tx_used (sub16 framesize tx_free) then emsgsize else ebusy, some xbee)
    else (pos 0, some (record xbee { sent = put_frame h d xbee.sent }))
