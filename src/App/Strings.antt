-- ===== src/App/Strings.antt =====
-- appendStringChar of src/lib/utils.c: a ZCL character string, its length in front, behind what a
-- response already holds.
pub mod Laws
use pxbee_open_close.Prelude.{ℕ, suc, ◌+◌, ◌%◌, List, [], ◌∷◌, ◌==◌, if◌then◌else◌, set}
use pxbee_open_close.Prelude.Bits.{Bytes}
use pxbee_open_close.Zcl.Response.{Cursor}

-- The loop at `len` with the rest of `str`: it stops at the terminator, the byte 0. The result is
-- the memory with the characters behind `dest`, and the final `len`.
append_chars : ℕ → Bytes → ℕ → Bytes → Bytes × ℕ
append_chars dest mem len [] = (mem, len)
append_chars dest mem len (c ∷ str) =
    let rest = append_chars dest (set mem (1 + len + dest) c) (len + 1) str in
    if c == 0 then (mem, len) else rest

-- `str` is the memory from its pointer on. `dest` is where the cursor stands; the pointer that the
-- function returns is the new place of the cursor.
unfoldable pub append_string_char : Cursor → Bytes → Cursor
unfolding append_chars
append_string_char dest str =
    let (mem, len) = append_chars dest.end dest.mem 0 str in
    record { mem = set mem dest.end (len % 256); end = dest.end + 1 + len }
