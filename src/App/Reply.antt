-- ===== src/App/Reply.antt =====
-- The answer of a cluster callback to a general command: the steps that the callbacks of src/lib/
-- have in common, and the ZCL constants that they use.
pub mod Laws
use pxbee_open_close.Prelude.{ℕ, ◌-◌, Bool, some, ◌==◌, if◌then◌else◌, set, drop, bit_and}
use pxbee_open_close.Wpan.{Devices}
use pxbee_open_close.Zcl.{Command}
use pxbee_open_close.Zcl.Response.{
  Cursor, blank, header_size, header_command, build_header, send_response,
}

-- ZCL_CMD_MATCH with GENERAL, CLIENT_TO_SERVER, PROFILE
abbrev pub is_profile_request : ℕ → Bool
is_profile_request fc = bit_and fc 0x0f == 0

-- ZCL_CMD_READ_ATTRIB, ZCL_CMD_READ_ATTRIB_RESP, ZCL_CMD_CONFIGURE_REPORT and its response,
-- ZCL_STATUS_SUCCESS, ZCL_TYPE_LOGICAL_BOOLEAN and ZCL_DIRECTION_SEND
abbrev pub cmd_read_attrib : ℕ
cmd_read_attrib = 0x00

abbrev pub cmd_read_attrib_resp : ℕ
cmd_read_attrib_resp = 0x01

abbrev pub cmd_configure_report : ℕ
cmd_configure_report = 0x06

abbrev pub cmd_configure_report_resp : ℕ
cmd_configure_report_resp = 0x07

abbrev pub type_logical_boolean : ℕ
type_logical_boolean = 0x10

abbrev pub direction_send : ℕ
direction_send = 0x00

-- the value of a pin as a byte of the response
abbrev pub level : Bool → ℕ
level b = if b then 0x01 else 0x00

-- the structure of a response: the header, and a buffer of 20 bytes
abbrev pub response_size : ℕ
response_size = 25

-- The header is built for a command code; the cursor is at the start of the buffer.
unfoldable pub open_response : ℕ → Command → ℕ × Cursor
unfolding build_header
open_response code zcl =
    let (start, rsp) = build_header (set (blank response_size) header_command code) zcl in
    (start, record { mem = rsp; end = header_size })

module _ {W : Type 0} (devices : Devices W) where
  -- `zcl_send_response(&zcl, start_response, end_response - start_response)`
  unfoldable pub close_response : Command → ℕ → Cursor → W → W
  close_response zcl start c w =
      (send_response devices (some zcl) (drop start c.mem) (c.end - start) w).1
