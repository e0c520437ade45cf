-- ===== src/Command/Build.antt =====
-- Filling in a request: xbee_cmd_set_command, xbee_cmd_set_callback, xbee_cmd_set_target,
-- xbee_cmd_set_flags, xbee_cmd_clear_flags, xbee_cmd_set_param, xbee_cmd_set_param_bytes and
-- xbee_cmd_set_param_str of pxbee/pan/xbee/xbee_atcmd.c.
pub mod Param
pub mod Keeps
pub mod Filling
use pxbee_open_close.Prelude.{
  ℕ, ◌-◌, ◌+◌, ◌/◌, ◌%◌, ℤ, pos, einval, emsgsize, Option, none, some, [], ◌∷◌, ◌++◌, ltb,
  if◌then◌else◌, length, take, drop, bit_and, bit_or,
}
use pxbee_open_close.Prelude.Bits.{Bytes, has}
use pxbee_open_close.Device.Load.{write_at}
use pxbee_open_close.Device.Radio.{be_bytes}
use pxbee_open_close.Command.{
  Request, Address, State, change_entry, handle_to_address, max_param_length, flag_remote,
  flag_user_mask,
}

-- `flags & ~mask` of 16-bit flags
abbrev pub without : ℕ → ℕ → ℕ
without mask flags = bit_and flags (65535 - mask)

-- `_xbee_cmd_encode_param`: the bytes that it writes, for a value of 16 bits and for one of 32
unfoldable pub encode_word : ℕ → Bytes
encode_word value = if has value 0xff00 then be_bytes 2 value [] else (value % 256) ∷ []

unfoldable pub encode_param : ℕ → Bytes
encode_param value =
    if has value 0xffff0000 then be_bytes 4 value [] else encode_word (value % 65536)

-- `none` for a NULL address
targeted : Option ℕ → ℕ → Request → Request
targeted none network_address r = record r {
  address = record { ieee = 0; network = 0 };
  flags = without flag_remote r.flags;
}
targeted (some ieee) network_address r = record r {
  address = record { ieee = ieee; network = network_address };
  flags = bit_or r.flags flag_remote;
}

-- the bytes in the parameter, and their number
abbrev pub with_param : Bytes → Request → Request
with_param bytes r = record r { param = write_at r.param 0 bytes; param_length = length bytes }

module _ {W : Type 0} where
  -- the change of the request that a handle names, or -EINVAL
  unfoldable pub with_request : ℤ → (Request → Request) → State W → ℤ × State W
  with_request handle f s = elim (handle_to_address handle s) [
    | none ↦ (einval, s)
    | some i ↦ (pos 0, change_entry i f s)
  ]

  unfoldable pub set_command : ℤ → ℕ → State W → ℤ × State W
  set_command handle command = with_request handle (λ r. record r { command = command })

  unfoldable pub set_callback : ℤ → Option ℕ → Option ℕ → State W → ℤ × State W
  set_callback handle callback context =
      with_request handle (λ r. record r { callback = callback; context = context })

  unfoldable pub set_target : ℤ → Option ℕ → ℕ → State W → ℤ × State W
  unfolding targeted
  set_target handle ieee network_address = with_request handle (targeted ieee network_address)

  unfoldable pub set_flags : ℤ → ℕ → State W → ℤ × State W
  set_flags handle flags =
      with_request handle (λ r. record r { flags = bit_or r.flags (bit_and flags flag_user_mask) })

  unfoldable pub clear_flags : ℤ → ℕ → State W → ℤ × State W
  clear_flags handle flags =
      with_request handle (λ r. record r { flags = without (bit_and flags flag_user_mask) r.flags })

  unfoldable pub set_param : ℤ → ℕ → State W → ℤ × State W
  set_param handle value = with_request handle (with_param (encode_param value))

  -- `data` is the memory from its pointer on, and holds `length` bytes at least
  unfoldable pub set_param_bytes : ℤ → Bytes → ℕ → State W → ℤ × State W
  set_param_bytes handle bytes size s =
      if ltb max_param_length size
      then (emsgsize, s)
      else with_request handle (with_param (take size bytes)) s

  -- the string without its terminator
  unfoldable pub set_param_str : ℤ → Bytes → State W → ℤ × State W
  set_param_str handle str s =
      if ltb max_param_length (length str)
      then (emsgsize, s)
      else set_param_bytes handle str (length str % 256) s
