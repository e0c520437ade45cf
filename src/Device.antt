-- ===== src/Device.antt =====
-- The XBee device: pxbee/headers/xbee/device.h, and the frames on the serial line to the radio,
-- pxbee/pan/xbee/xbee_device.c.
pub mod Checksum
pub mod Write
pub mod Dispatch
pub mod Load
pub mod RoundTrip
pub mod FrameId
pub mod Radio
use pxbee_open_close.Prelude.{◌+◌, ◌%◌, ◌==◌, if◌then◌else◌, ℕ, List, [], ◌∷◌}
use pxbee_open_close.Prelude.Bits.{Bytes, sub8}

-- `_xbee_checksum` over all of the bytes
abbrev pub checksum : Bytes → ℕ → ℕ
checksum [] initial = initial
checksum (b ∷ bytes) initial = checksum bytes (sub8 initial b)

-- XBEE_MAX_FRAME_LEN and XBEE_DEV_MAX_DISPATCH_PER_TICK
abbrev pub max_frame_len : ℕ
max_frame_len = 146

abbrev pub max_dispatch_per_tick : ℕ
max_dispatch_per_tick = 5

-- the byte that starts a frame
abbrev pub start_byte : ℕ
start_byte = 0x7e

-- `xbee_next_frame_id` of a device that is not NULL: the new value of its `frame_id`, an uint8_t
unfoldable pub next_frame_id : ℕ → ℕ
next_frame_id frame_id =
    let incremented = (frame_id + 1) % 256 in if incremented == 0 then 1 else incremented
