-- ===== src/Device/Dispatch.antt =====
-- Handing a frame to its handlers: _xbee_dev_modem_status and _xbee_frame_dispatch of
-- pxbee/pan/xbee/xbee_device.c.
pub mod Laws
use pxbee_open_close.Prelude.{
  ℕ, ◌+◌, ◌%◌, ℤ, pos, einval, Bool, List, [], ◌∷◌, ◌==◌, ◌&&◌, ◌||◌, if◌then◌else◌, length,
  bit_and, bit_or,
}
use pxbee_open_close.Prelude.Bits.{Bytes}
use pxbee_open_close.Zcl.Parse.{byte}

-- What a handler may change: the network address and the flags of the `wpan_dev_t` in the device,
-- and all else, `W`.
pub record Node (W : Type 0) : Type 0 where
  pub network : ℕ
  pub flags : ℕ
  pub world : W

-- `xbee_dispatch_table_entry_t`; the handler stands with its context. A frame is its bytes, as many
-- as its length says.
pub record Entry (W : Type 0) : Type 0 where
  pub frame_type : ℕ
  pub frame_id : ℕ
  pub handler : Bytes → Node W → ℤ × Node W

-- WPAN_FLAG_JOINED, WPAN_FLAG_AUTHENTICATED, WPAN_NET_ADDR_COORDINATOR and WPAN_NET_ADDR_UNDEFINED
abbrev pub flag_joined : ℕ
flag_joined = 0x0001

abbrev pub flag_authenticated : ℕ
flag_authenticated = 0x0002

abbrev pub net_addr_coordinator : ℕ
net_addr_coordinator = 0x0000

abbrev pub net_addr_undefined : ℕ
net_addr_undefined = 0xfffe

-- XBEE_FRAME_MODEM_STATUS
abbrev pub frame_modem_status : ℕ
frame_modem_status = 0x8a

-- the cases XBEE_MODEM_STATUS_HW_RESET, WATCHDOG and DISASSOC
abbrev pub is_lost : ℕ → Bool
is_lost status = (status == 0x00) || (status == 0x01) || (status == 0x03)

module _ {W : Type 0} where
  -- The case KEY_ESTABLISHED falls through to the case JOINED.
  unfoldable pub modem_status : ℕ → Node W → Node W
  modem_status status n =
      if status == 0x06
      then record n {
        network = net_addr_coordinator;
        flags = bit_or n.flags (bit_or flag_joined flag_authenticated);
      }
      else if status == 0x10
      then record n { flags = bit_or (bit_or n.flags flag_authenticated) flag_joined }
      else if status == 0x02
      then record n { flags = bit_or n.flags flag_joined }
      else if is_lost status
      then record n { network = net_addr_undefined; flags = bit_and n.flags 0xfffc }
      else n

  abbrev pub is_for : ℕ → ℕ → Entry W → Bool
  is_for frametype frameid entry =
      (entry.frame_type == frametype) && ((entry.frame_id == 0) || (entry.frame_id == frameid))

  -- the loop over the table, up to the entry of type 0xFF or the end of the list
  unfoldable pub call_handlers : List (Entry W) → Bytes → ℕ → Node W → ℕ × Node W
  call_handlers [] frame dispatched n = (dispatched, n)
  call_handlers (entry ∷ entries) frame dispatched n =
      let called = call_handlers entries frame ((dispatched + 1) % 256) (entry.handler frame n).1 in
      let passed_over = call_handlers entries frame dispatched n in
      if entry.frame_type == 0xff
      then (dispatched, n)
      else if is_for (byte frame 0) (byte frame 1) entry
      then called
      else passed_over

  -- what the modem status frame does before the handlers get it
  unfoldable pub noted : Bytes → Node W → Node W
  unfolding modem_status
  noted frame n = if byte frame 0 == frame_modem_status then modem_status (byte frame 1) n else n

  unfoldable pub frame_dispatch : List (Entry W) → Bytes → Node W → ℤ × Node W
  unfolding call_handlers
  frame_dispatch table frame n =
      if length frame == 0
      then (einval, n)
      else (let (dispatched, n') = call_handlers table frame 0 (noted frame n) in
          (pos dispatched, n'))
