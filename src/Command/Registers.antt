-- ===== src/Command/Registers.antt =====
-- The table of AT commands that query a device, and the flags that the query uses:
-- _xbee_atcmd_query_regs of pxbee/pan/xbee/xbee_atcmd.c, pxbee/headers/xbee/device.h and
-- pxbee/headers/wpan/aps.h.
use pxbee_open_close.Prelude.{ℕ, none, some, List, [], ◌∷◌}
use pxbee_open_close.Command.CommandList.{Reg, ListType, clt_none, clt_copy, clt_copy_be}

abbrev pub dev_flag_query_begin : ℕ
dev_flag_query_begin = 0x0002

abbrev pub dev_flag_query_done : ℕ
dev_flag_query_done = 0x0004

abbrev pub dev_flag_query_error : ℕ
dev_flag_query_error = 0x0008

abbrev pub dev_flag_query_inprogress : ℕ
dev_flag_query_inprogress = 0x0020

abbrev pub wpan_flag_joined : ℕ
wpan_flag_joined = 0x0001

abbrev pub wpan_flag_authenticated : ℕ
wpan_flag_authenticated = 0x0002

abbrev pub wpan_flag_authentication_enabled : ℕ
wpan_flag_authentication_enabled = 0x0004

abbrev pub ateo_use_authentication : ℕ
ateo_use_authentication = 0x08

abbrev pub modem_status_joined : ℕ
modem_status_joined = 0x02

abbrev pub modem_status_coord_start : ℕ
modem_status_coord_start = 0x06

abbrev pub modem_status_key_established : ℕ
modem_status_key_established = 0x10

-- where the fields of an `xbee_dev_t` lie, which the compiler decides; the memory behind a device is
-- the one with the number of the device
pub record Layout : Type 0 where
  pub hardware_version : ℕ
  pub firmware_version : ℕ
  pub ieee_high : ℕ
  pub ieee_low : ℕ
  pub payload : ℕ
  pub network : ℕ

-- `wpan_dev.flags` of each device, and all else
pub record Wpans (W : Type 0) : Type 0 where
  pub wpan_flags : ℕ → ℕ
  pub beyond : W

-- the numbers that name the callbacks of the query
abbrev pub handle_eo : ℕ
handle_eo = 0

abbrev pub handle_ai : ℕ
handle_ai = 1

abbrev pub handle_end : ℕ
handle_end = 2

-- XBEE_ATCMD_REG and XBEE_ATCMD_REG_CB
abbrev pub reg_copy : ListType → ℕ → ℕ → ℕ → Reg
reg_copy list_type command bytes offset = record {
  command = command;
  flags = 0;
  list_type = list_type;
  callback = none;
  bytes = bytes;
  offset = offset;
}

abbrev pub reg_call : ℕ → ℕ → Reg
reg_call command callback = record {
  command = command;
  flags = 0;
  list_type = clt_none;
  callback = some callback;
  bytes = 0;
  offset = 0;
}

-- `_xbee_atcmd_query_regs`
abbrev pub query_regs : Layout → List Reg
query_regs layout =
    reg_copy clt_copy_be 0x4856 2 layout.hardware_version
    ∷ reg_copy clt_copy_be 0x5652 4 layout.firmware_version
    ∷ reg_copy clt_copy 0x5348 4 layout.ieee_high
    ∷ reg_copy clt_copy 0x534c 4 layout.ieee_low
    ∷ reg_call 0x454f handle_eo
    ∷ reg_call 0x4149 handle_ai
    ∷ reg_copy clt_copy_be 0x4e50 2 layout.payload
    ∷ reg_copy clt_copy_be 0x4d59 2 layout.network
    ∷ reg_call 0 handle_end
    ∷ []

-- XBEE_ATCMD_REG_REFRESH_IDX
abbrev pub refresh_idx : ℕ
refresh_idx = 6
