-- ===== src/Util/Bytes.antt =====
-- Byte order and comparison: swap16 and swap32 of pxbee/pan/util/swapbytes.c, _swapcpy of
-- pxbee/pan/util/swapcpy.c and memcheck of pxbee/pan/util/memcheck.c.
pub mod Swap
use pxbee_open_close.Prelude.{
  ℕ, zero, suc, ◌+◌, ◌*◌, ◌/◌, ◌%◌, ℤ, pos, negsuc, List, [], ◌∷◌, get_or, bit_or, bit_and, ◌==◌,
  ltb, if◌then◌else◌,
}
use pxbee_open_close.Prelude.Bits.{Bytes}

unfoldable pub swap16 : ℕ → ℕ
swap16 value = bit_or (bit_and value 0x00ff * 256 % 65536) (value / 256)

unfoldable pub swap32 : ℕ → ℕ
swap32 value =
    bit_or
      (bit_or
        (bit_or (bit_and value 0x000000ff * 16777216 % 4294967296)
          (bit_and value 0x0000ff00 * 256 % 4294967296))
        (bit_and value 0x00ff0000 / 256))
      (bit_and value 0xff000000 / 16777216)

-- what is written behind `dst`, for memory behind `src` that `dst` does not lie in
unfoldable pub swapcpy : Bytes → ℕ → Bytes
swapcpy src zero = []
swapcpy src (suc bytes) = get_or src bytes 0 ∷ swapcpy src bytes

-- The memory holds the bytes that are compared, and no more.
unfoldable pub memcheck : Bytes → ℕ → ℤ
memcheck [] ch = pos 0
memcheck (s ∷ src) ch =
    let rest = memcheck src ch in
    let c = ch % 256 in if s == c then rest else if ltb c s then pos 1 else negsuc 0
