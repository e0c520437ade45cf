-- ===== src/Device/RoundTrip.antt =====
-- A frame that xbee_frame_write sends is the frame that _xbee_frame_load takes off such a line.
use pxbee_open_close.Prelude.{
  pos, true, false, some, List, [], ◌∷◌, ◌++◌, ◌≡◌, ◌⊎◌, arith, length, length-append, append-nil,
  sym, ◌∙◌, ap,
}
use pxbee_open_close.Prelude.Bits.{Bytes}
use pxbee_open_close.Device.Dispatch.{Entry, frame_dispatch}
use pxbee_open_close.Device.Write.{Line, frame_write}
use pxbee_open_close.Device.Write.Laws.{encode, frame_write_lem}
use pxbee_open_close.Device.Load.{Receiver, wait_start, frame_load}
use pxbee_open_close.Device.Load.Frame.{IsApiFrame}
use pxbee_open_close.Device.Load.Stream.{encode_all, frame_load-encode}

-- A header and data that make a frame of 2 to 146 bytes are written to an empty line, on a valid
-- port whose radio is ready or not asked. A device that waits for a start byte and has in its
-- serial port what is then on the line loads one frame, dispatches exactly the header with the data
-- behind it, and has nothing left in the port.
pub frame_load-frame_write :
    {W : Type 0} (table : List (Entry W)) (l : Line) (h d more1 more2 : Bytes) (r : Receiver W)
    → l.valid ≡ true
    → (l.use_flowcontrol ≡ false) ⊎ (l.cts ≡ true)
    → l.sent ≡ []
    → IsApiFrame (h ++ d)
    → r.state ≡ wait_start
    → (l' : Line) × (r' : Receiver W) × (frame_write
          (some l)
          (some (h ++ more1))
          (length h)
          (some (d ++ more2))
          (length d)
        ≡ (pos 0, some l'))
      × (frame_load table (record r { serial = l'.sent }) ≡ some (1, r'))
      × (r'.node ≡ (frame_dispatch table (h ++ d) r.node).1)
      × (r'.serial ≡ [])
frame_load-frame_write table l h d more1 more2 r v c s f w =
    let least = f.least in
    let most = f.most in
    let size = length-append h d in
    let wrote = frame_write_lem l h d more1 more2 v c (omega arith) (omega arith) (omega arith) in
    let on_line : l.sent ++ encode (h ++ d) ≡ encode_all ((h ++ d) ∷ []) =
      ap (λ q. q ++ encode (h ++ d)) s ∙ sym (append-nil (encode (h ++ d))) in
    let run =
      frame_load-encode table ((h ++ d) ∷ []) (record r { serial = l.sent ++ encode (h ++ d) })
        (f, tt) w on_line (omega arith) in
    (record l { sent = l.sent ++ encode (h ++ d) }, run.0, wrote, run.1, run.2, run.3)
