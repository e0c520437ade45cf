-- ===== src/Device/Load.antt =====
-- Receiving frames: _xbee_frame_load of pxbee/pan/xbee/xbee_device.c.
pub mod Frame
pub mod Stream
pub mod Safety
pub mod Total
use pxbee_open_close.Prelude.{
  ℕ, zero, suc, ◌+◌, ◌-◌, ◌*◌, ◌%◌, Option, none, some, List, [], ◌∷◌, ◌++◌, ◌==◌, ◌||◌, ltb,
  if◌then◌else◌, length, take, drop, min,
}
use pxbee_open_close.Prelude.Bits.{Bytes}
use pxbee_open_close.Device.{checksum, start_byte, max_frame_len, max_dispatch_per_tick}
use pxbee_open_close.Device.Dispatch.{Node, Entry, frame_dispatch}

-- `xbee_dev_rx_state`; `invalid` is any other value
pub data RxState : Type 0 where
  wait_start : RxState
  length_msb : RxState
  length_lsb : RxState
  rx_frame : RxState
  invalid : RxState

-- `struct rx` of the device, the bytes that its serial port has received and not given out yet, and
-- what the handlers change. No byte arrives during the call.
pub record Receiver (W : Type 0) : Type 0 where
  pub state : RxState
  pub bytes_in_frame : ℕ
  pub bytes_read : ℕ
  pub frame_data : Bytes
  pub serial : Bytes
  pub node : Node W

-- `xbee_ser_read` of a length that is not negative: no more than 255 bytes at a time
abbrev pub ser_read : ℕ → Bytes → Bytes × Bytes
ser_read bufsize serial = (take (min bufsize 255) serial, drop (min bufsize 255) serial)

-- bytes written into memory from an offset on
abbrev pub write_at : Bytes → ℕ → Bytes → Bytes
write_at mem i bytes = take i mem ++ bytes ++ drop (i + length bytes) mem

-- A round of the `for` loop ends with a return, or the loop goes on.
pub data Round (W : Type 0) : Type 0 where
  back : ℕ → Receiver W → Round W
  again : ℕ → Receiver W → Round W

module _ {W : Type 0} (table : List (Entry W)) where
  -- behind the whole frame and its checksum
  complete : ℕ → Receiver W → Round W
  complete dispatched r =
      let passed = checksum (take (r.bytes_in_frame + 1) r.frame_data) 0xff == 0 in
      let n = (frame_dispatch table (take r.bytes_in_frame r.frame_data) r.node).1 in
      if passed
      then (if dispatched + 1 == max_dispatch_per_tick
          then back (dispatched + 1) (record r { state = wait_start; node = n })
          else again (dispatched + 1) (record r { state = wait_start; node = n }))
      else again dispatched (record r { state = wait_start })

  -- the case XBEE_RX_STATE_RXFRAME
  receive : ℕ → Receiver W → Round W
  unfolding complete
  receive dispatched r =
      let bytes_left = r.bytes_in_frame - r.bytes_read + 1 in
      let (got, serial) = ser_read bytes_left r.serial in
      let r' = record r { frame_data = write_at r.frame_data r.bytes_read got; serial = serial } in
      if length got == bytes_left
      then complete dispatched r'
      else back dispatched (record r' { bytes_read = r.bytes_read + length got })

  -- the case XBEE_RX_STATE_LENGTH_LSB; the bytes of the serial port come last
  low_byte : ℕ → Receiver W → Bytes → Round W
  unfolding receive
  low_byte dispatched r [] = back dispatched (record r { serial = [] })
  low_byte dispatched r (ch ∷ serial) =
      let length = (r.bytes_in_frame + ch) % 65536 in
      let r' = record r { bytes_in_frame = length; serial = serial } in
      if ltb max_frame_len length || ltb length 2
      then again dispatched
          (record r' { state = if ch == start_byte then length_msb else wait_start })
      else receive dispatched (record r' { state = rx_frame; bytes_read = 0 })

  -- the case XBEE_RX_STATE_LENGTH_MSB
  high_byte : ℕ → Receiver W → Bytes → Round W
  unfolding low_byte
  high_byte dispatched r [] = back dispatched (record r { serial = [] })
  high_byte dispatched r (ch ∷ serial) =
      if ch == start_byte
      then again dispatched (record r { serial = serial })
      else low_byte dispatched (record r { bytes_in_frame = ch * 256; state = length_lsb }) serial

  -- the case XBEE_RX_STATE_WAITSTART
  find_start : ℕ → Receiver W → Bytes → Round W
  unfolding high_byte
  find_start dispatched r [] = back dispatched (record r { serial = [] })
  find_start dispatched r (ch ∷ serial) =
      let later = find_start dispatched r serial in
      if ch == start_byte
      then high_byte dispatched (record r { state = length_msb }) serial
      else later

  on_state : RxState → ℕ → Receiver W → Round W
  unfolding find_start
  on_state wait_start dispatched r = find_start dispatched r r.serial
  on_state length_msb dispatched r = high_byte dispatched r r.serial
  on_state length_lsb dispatched r = low_byte dispatched r r.serial
  on_state rx_frame dispatched r = receive dispatched r
  on_state invalid dispatched r = again dispatched (record r { state = wait_start })

  unfoldable pub round : ℕ → Receiver W → Round W
  unfolding on_state
  round dispatched r = on_state r.state dispatched r

  -- The loop, for at most `fuel` rounds.
  unfoldable pub rounds : ℕ → ℕ → Receiver W → Option (ℕ × Receiver W)
  rounds zero dispatched r = none
  rounds (suc fuel) dispatched r = elim (round dispatched r) [
    | back d r' ↦ some (d, r')
    | again d r' ↦ rounds fuel d r'
  ]

  -- the call for a device with a valid serial port
  unfoldable pub frame_load : Receiver W → Option (ℕ × Receiver W)
  frame_load r = rounds (length r.serial + 2) 0 r
