-- ===== src/Device/Dispatch/Laws.antt =====
-- Which handlers get a frame.
use pxbee_open_close.Prelude.{
  ℕ, ◌+◌, ◌<◌, ◌≤◌, ◌==◌, pos, List, [], ◌∷◌, ◌≡◌, arith, if◌then◌else◌, length,
}
use pxbee_open_close.Prelude.Bits.{Bytes}
use pxbee_open_close.Zcl.Parse.{byte}
use pxbee_open_close.Device.Dispatch.{Node, Entry, is_for, call_handlers, frame_dispatch, noted}

module _ {W : Type 0} where
  -- the entries of a table for a type and an identifier, up to the end marker
  abbrev pub entries_for : ℕ → ℕ → List (Entry W) → List (Entry W)
  entries_for frametype frameid [] = []
  entries_for frametype frameid (entry ∷ entries) =
      let rest = entries_for frametype frameid entries in
      if entry.frame_type == 0xff
      then []
      else if is_for frametype frameid entry
      then entry ∷ rest
      else rest

  -- all handlers of a list get the frame, in its order
  abbrev pub handle_all : List (Entry W) → Bytes → Node W → Node W
  handle_all [] frame n = n
  handle_all (entry ∷ entries) frame n = handle_all entries frame (entry.handler frame n).1

  call_handlers_lem :
      (table : List (Entry W)) (frame : Bytes) (d : ℕ) (n : Node W)
      → d + length (entries_for (byte frame 0) (byte frame 1) table) < 256
      → call_handlers table frame d n ≡ (
        d + length (entries_for (byte frame 0) (byte frame 1) table),
        handle_all (entries_for (byte frame 0) (byte frame 1) table) frame n,
      )
  unfolding call_handlers
  call_handlers_lem [] frame d n h = ground arith
  call_handlers_lem (entry ∷ entries) frame d n h = ground (
    arith,
    call_handlers_lem entries frame (d + 1) (entry.handler frame n).1,
    call_handlers_lem entries frame d n,
  )

-- A frame that has any bytes goes to the handlers of exactly those entries, before the end marker
-- of the table, that have its type, and its identifier or the identifier 0. They get it in the
-- order of the table, after a modem status was noted, and their number, if less than 256, is
-- returned.
pub frame_dispatch_lem :
    {W : Type 0} (table : List (Entry W)) (frame : Bytes) (n : Node W)
    → 1 ≤ length frame
    → length (entries_for (byte frame 0) (byte frame 1) table) < 256
    → frame_dispatch table frame n ≡ (
      pos (length (entries_for (byte frame 0) (byte frame 1) table)),
      handle_all (entries_for (byte frame 0) (byte frame 1) table) frame (noted frame n),
    )
unfolding frame_dispatch
frame_dispatch_lem table frame n k h =
    ground (arith, call_handlers_lem table frame 0 (noted frame n) (omega arith))
