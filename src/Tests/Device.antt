-- ===== src/Tests/Device.antt =====
-- Runs of the device: an AT command is sent, and its response and a modem status come in.
use pxbee_open_close.Prelude.{
  ℕ, ◌≤◌, ◌≢◌, pos, true, false, some, List, [], ◌∷◌, ◌≡◌, inr, refl, arith, replicate,
}
use pxbee_open_close.Prelude.Bits.{Bytes}
use pxbee_open_close.Device.{checksum}
use pxbee_open_close.Device.Checksum.{checksum_detects}
use pxbee_open_close.Device.Dispatch.{Node, Entry, frame_dispatch}
use pxbee_open_close.Device.Write.{Line, frame_write}
use pxbee_open_close.Device.Load.{Receiver, wait_start, rx_frame, frame_load}
use pxbee_open_close.Device.Load.Frame.{IsApiFrame}
use pxbee_open_close.Device.Load.Stream.{encode_all, dispatch_all, frame_load-encode}
use pxbee_open_close.Device.Load.Safety.{IsReceiver}
use pxbee_open_close.Device.Load.Total.{frame_load-IsReceiver}
use pxbee_open_close.Device.RoundTrip.{frame_load-frame_write}

-- the world keeps the frames that handlers got, the newest first
abbrev note : Bytes → Node (List Bytes) → Node (List Bytes)
note frame n = record n { world = frame ∷ n.world }

abbrev responses : Entry (List Bytes)
responses = record { frame_type = 0x88; frame_id = 0; handler = λ frame n. (pos 0, note frame n) }

abbrev table_end : Entry (List Bytes)
table_end = record { frame_type = 0xff; frame_id = 0; handler = λ frame n. (pos 0, n) }

abbrev handlers : List (Entry (List Bytes))
handlers = responses ∷ table_end ∷ []

-- the response to ATNJ, and the status that the node has joined
abbrev response : Bytes
response = 0x88 ∷ 1 ∷ 0x4e ∷ 0x4a ∷ 0 ∷ []

abbrev joined : Bytes
joined = 0x8a ∷ 2 ∷ []

response-IsApiFrame : IsApiFrame response
response-IsApiFrame = record { least = omega arith; most = omega arith }

joined-IsApiFrame : IsApiFrame joined
joined-IsApiFrame = record { least = omega arith; most = omega arith }

abbrev fresh : Node (List Bytes)
fresh = record { network = 0xfffe; flags = 0; world = [] }

abbrev holding : Bytes → Receiver (List Bytes)
holding serial = record {
  state = wait_start;
  bytes_in_frame = 0;
  bytes_read = 0;
  frame_data = replicate 147 0;
  serial = serial;
  node = fresh;
}

frame_load-encode_example :
    (r' : Receiver (List Bytes)) × (frame_load handlers
        (holding (encode_all (joined ∷ response ∷ [])))
      ≡ some (2, r'))
    × (r'.node ≡ dispatch_all handlers (joined ∷ response ∷ []) fresh)
    × (r'.serial ≡ [])
frame_load-encode_example =
    frame_load-encode handlers (joined ∷ response ∷ [])
      (holding (encode_all (joined ∷ response ∷ []))) (joined-IsApiFrame, (response-IsApiFrame, tt))
      refl refl (omega arith)

-- in the middle of a frame of five bytes, two of them read, and a broken rest
abbrev halfway : Receiver (List Bytes)
halfway = record (holding (0x4e ∷ 0x7e ∷ [])) {
  state = rx_frame;
  bytes_in_frame = 5;
  bytes_read = 2;
}

halfway-IsReceiver : IsReceiver halfway
halfway-IsReceiver = record {
  buffer = refl;
  least = λ _. omega arith;
  most = λ _. omega arith;
  read = λ _. omega arith;
}

frame_load-IsReceiver_example :
    (n : ℕ) × (r' : Receiver (List Bytes)) × (frame_load handlers halfway ≡ some (n, r'))
    × (n ≤ 5)
    × IsReceiver r'
frame_load-IsReceiver_example = frame_load-IsReceiver handlers halfway halfway-IsReceiver

-- the line to a radio, which may be ready or not
abbrev line : Line
line = record { valid = true; use_flowcontrol = true; cts = true; sent = [] }

abbrev busy_line : Line
busy_line = record line { cts = false }

-- the first byte of 8a 02 with its checksum 73
checksum_detects_example : checksum (0x8b ∷ 2 ∷ 0x73 ∷ []) 0xff ≢ 0
checksum_detects_example =
    checksum_detects [] (2 ∷ 0x73 ∷ []) 0x8a 0x8b (omega arith) (omega arith)
      (omega arith, (omega arith, tt)) (λ e. absurd (omega arith)) refl

frame_load-frame_write_example :
    (l' : Line) × (r' : Receiver (List Bytes)) × (frame_write
        (some line)
        (some (0x88 ∷ 1 ∷ []))
        2
        (some (0x4e ∷ 0x4a ∷ 0 ∷ []))
        3
      ≡ (pos 0, some l'))
    × (frame_load handlers (record (holding []) { serial = l'.sent }) ≡ some (1, r'))
    × (r'.node ≡ (frame_dispatch handlers response fresh).1)
    × (r'.serial ≡ [])
frame_load-frame_write_example =
    frame_load-frame_write handlers line (0x88 ∷ 1 ∷ []) (0x4e ∷ 0x4a ∷ 0 ∷ []) [] [] (holding [])
      refl (inr refl) refl response-IsApiFrame refl
