-- ===== src/Zcl/Response.antt =====
-- Answering a command: zcl_build_header, zcl_send_response and zcl_default_response of
-- pxbee/pan/zigbee/zigbee_zcl.c. A response structure is the memory that it takes, a list of bytes.
pub mod Header
use pxbee_open_close.Prelude.{
  ℕ, ◌+◌, ◌-◌, ◌%◌, ◌/◌, ℤ, pos, einval, Option, none, some, List, ◌==◌, ◌&&◌, if◌then◌else◌,
  get_or, set, drop, replicate, bit_and, bit_or, bit_xor,
}
use pxbee_open_close.Prelude.Bits.{Bytes, has}
use pxbee_open_close.Wpan.{Envelope, Devices, envelope_broadcast_addr, envelope_broadcast_ep}
use pxbee_open_close.Wpan.Addressing.{envelope_reply, envelope_send}
use pxbee_open_close.Zcl.{
  Command, frame_type_mask, frame_mfg_specific, frame_direction, frame_disable_def_resp,
}

-- `zcl_header_response_t` takes five bytes: frame control, manufacturer code, sequence, command.
-- Without a manufacturer code the first two are not used and the third is the frame control.
abbrev pub header_size : ℕ
header_size = 5

abbrev pub header_sequence : ℕ
header_sequence = 3

abbrev pub header_command : ℕ
header_command = 4

-- Keep type, toggle the direction, and set the disable-default-response bit.
abbrev pub response_control : ℕ → ℕ
response_control fc = bit_xor 0x18 (bit_and fc 0x0b)

-- the offset of the header that is sent, and the memory of the response; neither pointer is NULL
unfoldable pub build_header : Bytes → Command → ℕ × Bytes
build_header rsp cmd =
    let control = response_control cmd.frame_control in
    let seq = set rsp header_sequence cmd.sequence in
    if has cmd.frame_control frame_mfg_specific
    then (
      0,
      set (set (set seq 1 (cmd.mfg_code % 256)) 2 (cmd.mfg_code / 256)) 0
          (bit_or control frame_mfg_specific),
    )
    else (2, set seq 2 control)

-- `*end++ = v`: what is written, and where the next byte goes. A write behind the structure is
-- dropped: the length that is sent then exceeds the bytes that there are.
pub record Cursor : Type 0 where
  pub mem : Bytes
  pub end : ℕ

abbrev pub put : Cursor → ℕ → Cursor
put c v = record { mem = set c.mem c.end v; end = c.end + 1 }

-- the memory of a structure before anything is written: no byte of it is sent
abbrev pub blank : ℕ → Bytes
blank n = replicate n 0

module _ {W : Type 0} (devices : Devices W) where
  send_reply : Option Envelope → Bytes → ℕ → W → ℤ × W
  send_reply none response length w = (einval, w)
  send_reply (some reply) response length w =
      envelope_send devices (some (record reply { payload = some response; length = length })) w

  unfoldable pub send_response : Option Command → Bytes → ℕ → W → ℤ × W
  unfolding send_reply
  send_response none response length w = (einval, w)
  send_response (some request) response length w =
      send_reply (envelope_reply (some request.envelope)) response length w

  -- The structure is the header, the command and the status.
  send_default : Command → ℕ → W → ℤ × W
  unfolding send_response build_header
  send_default request status w =
      let (start, rsp) = build_header (set (blank 7) header_command 0x0b) request in
      let typed = set rsp start (bit_and (get_or rsp start 0) 0xfc) in
      let response = set (set typed 5 request.command) 6 status in
      send_response (some request) (drop start response) (7 - start) w

  unfoldable pub default_response : Option Command → ℕ → W → ℤ × W
  unfolding send_default
  default_response none status w = (einval, w)
  default_response (some request) status w =
      if (status == 0) && has request.frame_control frame_disable_def_resp
      then (pos 0, w)
      else if has request.envelope.options (bit_or envelope_broadcast_addr envelope_broadcast_ep)
      then (pos 0, w)
      else if (bit_and request.frame_control frame_type_mask == 0) && (request.command == 0x0b)
      then (pos 0, w)
      else send_default request status w
