-- ===== src/Device/Radio/Arrival.antt =====
-- A message on its way from the serial line to the endpoint that it is for.
use pxbee_open_close.Prelude.{
  ◌==◌, false, All, ap, ◌++◌, ◌≢◌, ◌+◌, ◌%◌, Bool-cases, inl, inr, ℕ, ◌≤◌, ◌≡◌, refl, arith, some,
  [], ◌∷◌, List, Option, length, ◌∙◌,
}
use pxbee_open_close.Wpan.{Devices}
use pxbee_open_close.Wpan.Tables.{Endpoint}
use pxbee_open_close.Wpan.Dispatch.{envelope_dispatch}
use pxbee_open_close.Device.Dispatch.{Node, Entry, frame_dispatch, call_handlers, noted}
use pxbee_open_close.Device.Load.{Receiver, frame_load, wait_start}
use pxbee_open_close.Device.Load.Frame.{IsApiFrame}
use pxbee_open_close.Device.Load.Stream.{encode_all, frame_load-encode}
use pxbee_open_close.Device.Radio.{
  receive_entry, handle_receive_explicit, be_bytes, frame_receive_explicit,
}
use pxbee_open_close.Device.Radio.Laws.{
  Reception, IsReception, receive_frame, envelope_of, receive_lem,
}

some_bytes : (x : Reception) → (length (receive_frame x) == 0) ≡ false
some_bytes x = ground arith

-- an entry for another type of frame, in front of the entry of receive frames or behind it: the end
-- of a table has the type 0xff
abbrev pub IsElse : {W : Type 0} → Entry W → Type 0
IsElse entry = entry.frame_type ≢ frame_receive_explicit

abbrev pub IsOther : {W : Type 0} → Entry W → Type 0
IsOther entry = IsElse entry × (entry.frame_type ≢ 0xff)

other_type : (t : ℕ) → t ≢ frame_receive_explicit → (t == 0x91) ≡ false
other_type t h = ground arith

other_mark : (t : ℕ) → t ≢ 0xff → (t == 0xff) ≡ false
other_mark t h = ground arith

module _ {W : Type 0} (devices : Devices W) (dev : ℕ) (table : Option (List (Endpoint W))) where
  -- the node behind the dispatch of a reception
  abbrev pub delivered : Reception → Node W → Node W
  delivered x n = record n {
    world = (envelope_dispatch devices table (envelope_of dev x) n.world).2;
  }

  call_handlers-after :
      (after : List (Entry W)) (x : Reception) (count : ℕ) (n : Node W)
      → All IsElse after
      → call_handlers after (receive_frame x) count n ≡ (count, n)
  unfolding call_handlers
  call_handlers-after [] x count n elses = refl
  call_handlers-after (entry ∷ after) x count n (apart, elses) =
      elim (Bool-cases (entry.frame_type == 0xff)) [
        | inl ends ↦ rw (call_handlers, ends) refl
        | inr goes ↦
            rw (call_handlers, goes, other_type entry.frame_type apart)
              (call_handlers-after after x count n elses)
      ]

  call_handlers-here :
      (after : List (Entry W)) (x : Reception) (count : ℕ) (n : Node W)
      → All IsElse after
      → IsReception x
      → call_handlers (receive_entry devices dev table ∷ after) (receive_frame x) count n
        ≡ ((count + 1) % 256, delivered x n)
  unfolding call_handlers handle_receive_explicit
  call_handlers-here after x count n elses range =
      rw (handle_receive_explicit, receive_lem dev x range)
        (call_handlers-after after x ((count + 1) % 256) (delivered x n) elses)

  call_handlers-before :
      (before after : List (Entry W)) (x : Reception) (count : ℕ) (n : Node W)
      → All IsOther before
      → All IsElse after
      → IsReception x
      → call_handlers
          (before ++ (receive_entry devices dev table ∷ after))
          (receive_frame x)
          count
          n
        ≡ ((count + 1) % 256, delivered x n)
  unfolding call_handlers
  call_handlers-before [] after x count n others elses range =
      call_handlers-here after x count n elses range
  call_handlers-before (entry ∷ before) after x count n ((apart, goes), others) elses range =
      rw (call_handlers, other_mark entry.frame_type goes, other_type entry.frame_type apart)
        (call_handlers-before before after x count n others elses range)

  frame_dispatch-reception :
      (before after : List (Entry W)) (x : Reception) (n : Node W)
      → All IsOther before
      → All IsElse after
      → IsReception x
      → (frame_dispatch (before ++ (receive_entry devices dev table ∷ after)) (receive_frame x) n).1
        ≡ delivered x n
  unfolding frame_dispatch noted
  frame_dispatch-reception before after x n others elses range =
      rw (frame_dispatch, some_bytes x)
        (ap (λ r. r.1) (call_handlers-before before after x 0 n others elses range))

  reception-IsApiFrame : (x : Reception) → length x.payload ≤ 128 → IsApiFrame (receive_frame x)
  unfolding be_bytes
  reception-IsApiFrame x short = record { least = omega arith; most = omega arith }

-- Where the serial port holds the receive frame of a message of at most 128 bytes, and the device
-- waits for a start byte and has the handler of receive frames once in its table, among entries for
-- other types of frames, one call of _xbee_frame_load dispatches one frame, and what this does to
-- the world is what wpan_envelope_dispatch does with the envelope of the message. Nothing is left in
-- the port, and the network address and the flags of the device stay as they are.
pub frame_load-delivered :
    {W : Type 0} (devices : Devices W) (dev : ℕ) (table : Option (List (Endpoint W)))
    (before after : List (Entry W)) (x : Reception) (r : Receiver W)
    → All IsOther before
    → All IsElse after
    → IsReception x
    → length x.payload ≤ 128
    → r.state ≡ wait_start
    → r.serial ≡ encode_all (receive_frame x ∷ [])
    → (r' : Receiver W) × (frame_load (before ++ (receive_entry devices dev table ∷ after)) r
        ≡ some (1, r'))
      × (r'.node ≡ delivered devices dev table x r.node)
      × (r'.serial ≡ [])
frame_load-delivered devices dev table before after x r others elses range short waits held =
    let (r', ran, node, empty) =
      frame_load-encode (before ++ (receive_entry devices dev table ∷ after)) (receive_frame x ∷ [])
        r (reception-IsApiFrame devices dev table x short, tt) waits held (omega arith) in
    (
      r',
      ran,
      node ∙ frame_dispatch-reception devices dev table before after x r.node others elses range,
      empty,
    )
