-- ===== src/Device/Load/Frame.antt =====
-- One round of the loop takes one whole frame off the serial port.
use pxbee_open_close.Prelude.{
  ℕ, ◌+◌, ◌≤◌, ◌==◌, List, [], ◌∷◌, ◌++◌, ◌≡◌, arith, ap, sym, ◌∙◌, if◌then◌else◌, length, take,
  drop, min, take-append, drop-append, append_assoc, length-append,
}
use pxbee_open_close.Prelude.Bits.{Bytes}
use pxbee_open_close.Device.{checksum, max_dispatch_per_tick}
use pxbee_open_close.Device.Checksum.{checksum_closes}
use pxbee_open_close.Device.Dispatch.{Entry, frame_dispatch}
use pxbee_open_close.Device.Write.Laws.{encode}
use pxbee_open_close.Device.Load.{
  Receiver, Round, back, again, wait_start, rx_frame, write_at, ser_read, receive, round,
}

pub record IsApiFrame (p : Bytes) : Type 0 where
  pub least : 2 ≤ length p
  pub most : length p ≤ 146

-- the frame with its checksum
abbrev pub summed : Bytes → Bytes
summed p = p ++ (checksum p 0xff ∷ [])

length-summed : (p : Bytes) → length (summed p) ≡ length p + 1
length-summed p = length-append p (checksum p 0xff ∷ [])

read_whole :
    (p rest : Bytes)
    → length p ≤ 146
    → ser_read (length p + 1) (summed p ++ rest) ≡ (summed p, rest)
read_whole p rest h =
    let n : min (length p + 1) 255 ≡ length (summed p) = omega (arith, length-summed p) in
    rw n (
      ap (λ l. (l, drop (length (summed p)) (summed p ++ rest))) (take-append (summed p) rest)
      ∙ ap (λ l. (summed p, l)) (drop-append (summed p) rest))

take-summed : (p mem : Bytes) → take (length p) (summed p ++ mem) ≡ p
take-summed p mem =
    ap (take (length p)) (append_assoc p (checksum p 0xff ∷ []) mem) ∙ take-append p _

take_one_more : (p mem : Bytes) → take (length p + 1) (summed p ++ mem) ≡ summed p
take_one_more p mem =
    ap (λ n. take n (summed p ++ mem)) (sym (length-summed p)) ∙ take-append (summed p) mem

module _ {W : Type 0} (table : List (Entry W)) where
  -- the receiver behind a frame
  abbrev pub behind : Bytes → Bytes → Receiver W → Receiver W
  behind p rest r = record {
    state = wait_start;
    bytes_in_frame = length p;
    bytes_read = 0;
    frame_data = write_at r.frame_data 0 (summed p);
    serial = rest;
    node = (frame_dispatch table p r.node).1;
  }

  -- after the fifth frame of a call it returns
  abbrev pub turn : ℕ → Receiver W → Round W
  turn dispatched r =
      if dispatched == max_dispatch_per_tick then back dispatched r else again dispatched r

  -- the receiver before the frame, which it knows the length of
  abbrev pub before : Bytes → Bytes → Receiver W → Receiver W
  before p rest r = record {
    state = rx_frame;
    bytes_in_frame = length p;
    bytes_read = 0;
    frame_data = r.frame_data;
    serial = summed p ++ rest;
    node = r.node;
  }

  receive_whole :
      (d : ℕ) (p rest : Bytes) (r : Receiver W)
      → length p ≤ 146
      → receive table d (before p rest r) ≡ turn (d + 1) (behind p rest r)
  unfolding receive
  receive_whole d p rest r h = ground (
    arith,
    read_whole p rest h,
    length-summed p,
    take-summed p (drop (length (summed p)) r.frame_data),
    take_one_more p (drop (length (summed p)) r.frame_data),
    checksum_closes p,
  )

  -- from the start byte on
  pub round_whole :
      (d : ℕ) (p rest : Bytes) (r : Receiver W)
      → IsApiFrame p
      → r.state ≡ wait_start
      → r.serial ≡ encode p ++ rest
      → round table d r ≡ turn (d + 1) (behind p rest r)
  unfolding round
  round_whole d p rest r f s e = ground (arith, f.least, f.most, receive_whole d p rest r f.most)
