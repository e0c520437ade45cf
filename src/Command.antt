-- ===== src/Command.antt =====
-- AT commands and their responses: pxbee/headers/xbee/atcmd.h and pxbee/pan/xbee/xbee_atcmd.c. The
-- table of requests, the handles that name its entries, and the release of an entry.
pub mod Slots
pub mod Build
pub mod Handles
pub mod Send
pub mod Respond
pub mod Expire
pub mod Exchange
pub mod CommandList
pub mod Query
pub mod Registers
use pxbee_open_close.Prelude.{
  ℕ, zero, suc, ◌+◌, ◌*◌, ◌/◌, ◌%◌, ℤ, pos, negsuc, einval, Option, none, some, List, [], ◌∷◌, ◌==◌,
  leb, if◌then◌else◌, get_elem?,
}
use pxbee_open_close.Prelude.Bits.{Bytes}
use pxbee_open_close.Device.Radio.{Radio}

-- XBEE_CMD_REQUEST_TABLESIZE and XBEE_CMD_MAX_PARAM_LENGTH
abbrev pub request_tablesize : ℕ
request_tablesize = 2

abbrev pub max_param_length : ℕ
max_param_length = 48

-- XBEE_CMD_FLAG_REMOTE, XBEE_CMD_FLAG_QUEUE_CHANGE, XBEE_CMD_FLAG_REUSE_HANDLE and
-- XBEE_CMD_FLAG_USER_MASK
abbrev pub flag_remote : ℕ
flag_remote = 0x0001

abbrev pub flag_queue_change : ℕ
flag_queue_change = 0x0002

abbrev pub flag_reuse_handle : ℕ
flag_reuse_handle = 0x0004

abbrev pub flag_user_mask : ℕ
flag_user_mask = 0x0006

-- `wpan_address_t`
pub record Address : Type 0 where
  pub ieee : ℕ
  pub network : ℕ

-- `xbee_cmd_request_t`. A device, a callback and a context are the numbers that name them, `none`
-- for NULL; the two characters of a command are a number, the first one high.
pub record Request : Type 0 where
  pub sequence : ℕ
  pub device : Option ℕ
  pub timeout : ℕ
  pub flags : ℕ
  pub param : Bytes
  pub param_length : ℕ
  pub callback : Option ℕ
  pub context : Option ℕ
  pub frame_id : ℕ
  pub address : Address
  pub command : ℕ

-- `xbee_cmd_response_t`; `value_bytes` is the memory from the pointer on
pub record Response : Type 0 where
  pub device : Option ℕ
  pub context : Option ℕ
  pub handle : ℕ
  pub command : ℕ
  pub flags : ℕ
  pub value_length : ℕ
  pub value_bytes : Bytes
  pub value : ℕ
  pub source : Option Address

-- what the requests use of `xbee_dev_t`
pub record Dev : Type 0 where
  pub radio : Radio
  pub flags : ℕ

-- The devices by the numbers that name them, xbee_cmd_request_table, the `last_time` of
-- xbee_cmd_tick, and all else that callbacks change.
pub record State (W : Type 0) : Type 0 where
  pub devices : ℕ → Dev
  pub table : List Request
  pub last_time : ℕ
  pub world : W

-- what the `callback` of a request names: `xbee_cmd_callback_fn`
abbrev pub Callbacks : Type 0 → Type 0
Callbacks W = ℕ → Response → State W → ℤ × State W

-- XBEE_ATCMD_DONE and XBEE_ATCMD_REUSE
abbrev pub atcmd_done : ℤ
atcmd_done = pos 0

abbrev pub atcmd_reuse : ℤ
atcmd_reuse = pos 1

-- a change of one entry of a list
unfoldable pub modify {ℓ} : {A : Type ℓ} → ℕ → (A → A) → List A → List A
modify i f [] = []
modify zero f (x ∷ xs) = f x ∷ xs
modify (suc i) f (x ∷ xs) = x ∷ modify i f xs

-- `_xbee_cmd_release_request` of an entry
abbrev pub released : Request → Request
released r = record r { device = none; sequence = (r.sequence + 1) % 256 }

-- `_xbee_cmd_handle_to_address` behind its range check; the entry is its place in the table
unfoldable pub entry_of : ℕ → List Request → Option ℕ
entry_of handle table = elim (get_elem? table (handle / 256)) [
  | none ↦ none
  | some request ↦ if request.sequence == handle % 256 then some (handle / 256) else none
]

module _ {W : Type 0} where
  -- a change of one entry of the table
  abbrev pub change_entry : ℕ → (Request → Request) → State W → State W
  change_entry i f s = record s { table = modify i f s.table }

  unfoldable pub handle_to_address : ℤ → State W → Option ℕ
  handle_to_address (negsuc n) s = none
  handle_to_address (pos handle) s =
      if leb (request_tablesize * 256) handle then none else entry_of handle s.table

  -- `_xbee_cmd_release_request`
  unfoldable pub release_request : Option ℕ → State W → ℤ × State W
  release_request none s = (einval, s)
  release_request (some i) s = (pos 0, change_entry i released s)

  unfoldable pub release_handle : ℤ → State W → ℤ × State W
  release_handle handle s = release_request (handle_to_address handle s) s
