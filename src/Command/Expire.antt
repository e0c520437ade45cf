-- ===== src/Command/Expire.antt =====
-- Requests that time out, and new requests: xbee_cmd_tick and xbee_cmd_create of
-- pxbee/pan/xbee/xbee_atcmd.c.
pub mod Create
pub mod Keeps
pub mod Quiet
pub mod Tick
use pxbee_open_close.Prelude.{
  ℕ, zero, suc, ◌+◌, ◌*◌, ◌%◌, ℤ, pos, einval, enospc, not, ◌&&◌, true, false, Bool, Option, none,
  some, [], ◌==◌, if◌then◌else◌, get_elem?, replicate,
}
use pxbee_open_close.Prelude.Bits.{has, sub16, is_neg16}
use pxbee_open_close.Command.{
  Request, Response, State, Callbacks, change_entry, released, atcmd_done, request_tablesize,
  max_param_length,
}
use pxbee_open_close.Command.Send.{timeout_after}
use pxbee_open_close.Command.Respond.{is_reuse, find_request}

-- XBEE_CMD_RESP_FLAG_TIMEOUT and XBEE_CMD_RESP_MASK_STATUS
abbrev pub resp_flag_timeout : ℕ
resp_flag_timeout = 0x8000

abbrev pub resp_mask_status : ℕ
resp_mask_status = 0x000f

-- XBEE_DEV_FLAG_CMD_INIT and XBEE_DEV_FLAG_QUERY_REFRESH
abbrev pub dev_flag_cmd_init : ℕ
dev_flag_cmd_init = 0x0001

abbrev pub dev_flag_query_refresh : ℕ
dev_flag_query_refresh = 0x0010

-- XBEE_CHECK_TIMEOUT_SEC
unfoldable pub has_expired : ℕ → ℕ → Bool
has_expired now timeout = not (is_neg16 (sub16 now timeout))

abbrev pub is_free : Request → Bool
is_free r = elim r.device [ none ↦ true | some _ ↦ false ]

-- the response of an expired request: no value, and no status either
unfoldable pub expired : ℕ → Request → Response
expired i r = record {
  device = r.device;
  context = r.context;
  handle = i * 256 + r.sequence;
  command = r.command;
  flags = resp_flag_timeout + resp_mask_status;
  value_length = 0;
  value_bytes = [];
  value = 0;
  source = none;
}

-- a new request in the entry `r`: all but its sequence is cleared
unfoldable pub new_request : ℕ → ℕ → ℕ → Request → Request
new_request now d command r = record {
  sequence = r.sequence;
  device = some d;
  timeout = timeout_after 2 now;
  flags = 0;
  param = replicate max_param_length 0;
  param_length = 0;
  callback = none;
  context = none;
  frame_id = 0;
  address = record { ieee = 0; network = 0 };
  command = command;
}

-- `refresh` is xbee_cmd_query_device( device, 1).
module _ {W : Type 0} (callbacks : Callbacks W) (refresh : ℕ → State W → State W) where
  call_expired : ℕ → Request → State W → ℤ × State W
  call_expired i r s = elim r.callback [
    | none ↦ (atcmd_done, s)
    | some c ↦ callbacks c (expired i r) s
  ]

  refreshed : Option ℕ → State W → State W
  refreshed none s = s
  refreshed (some d) s = if has (s.devices d).flags dev_flag_query_refresh then refresh d s else s

  -- The device is read again behind the callback.
  close_expired : ℕ → State W → State W
  unfolding refreshed
  close_expired i s = elim (get_elem? s.table i) [
    | none ↦ s
    | some r ↦ refreshed r.device (change_entry i released s)
  ]

  expire_request : ℕ → ℕ → Request → State W → ℕ × State W
  unfolding call_expired close_expired
  expire_request now i r s =
      let (reuse, s1) = call_expired i r s in
      if not (is_free r) && has_expired now r.timeout
      then (1, if is_reuse reuse then s1 else close_expired i s1)
      else (0, s)

  -- the walk, with `n` entries to go from the entry `i` on
  tick_walk : ℕ → ℕ → ℕ → State W → ℕ × State W
  tick_walk now zero i s = (0, s)
  tick_walk now (suc n) i s = elim (get_elem? s.table i) [
    | none ↦ (0, s)
    | some r ↦
        let (count, s1) = expire_request now i r s in
        let (counts, s2) = tick_walk now n (suc i) s1 in (count + counts, s2)
  ]

  unfoldable pub cmd_tick : ℕ → State W → ℕ × State W
  unfolding tick_walk expire_request
  cmd_tick now s =
      if s.last_time == now % 256
      then (0, s)
      else tick_walk now request_tablesize 0 (record s { last_time = now % 256 })

-- the search for a free entry, with what is done when the table is full
pub take_free : {W : Type 0} → (State W → ℤ × State W) → ℕ → ℕ → ℕ → State W → ℤ × State W
take_free full now d command s = elim (find_request is_free 0 s.table) [
  | none ↦ full s
  | some (i, r) ↦ (pos (i * 256 + r.sequence), change_entry i (new_request now d command) s)
]

-- `init` is xbee_cmd_init_device.
module _ {W : Type 0} (init : ℕ → State W → State W) where
  unfoldable pub initialized : ℕ → State W → State W
  initialized d s = if has (s.devices d).flags dev_flag_cmd_init then s else init d s

  -- While the call runs xbee_cmd_tick, its static `initialized` is 2, and a further call does not
  -- run it again.
  unfoldable pub create_in_tick : ℕ → Option ℕ → Option ℕ → State W → ℤ × State W
  unfolding take_free initialized
  create_in_tick now (some d) (some command) s =
      take_free (λ s1. (enospc, s1)) now d command (initialized d s)
  create_in_tick now (some d) none s = (einval, s)
  create_in_tick now none command s = (einval, s)

  unfoldable pub create : (State W → ℕ × State W) → ℕ → Option ℕ → Option ℕ → State W → ℤ × State W
  unfolding take_free initialized
  create run_tick now (some d) (some command) s =
      take_free (λ s1. create_in_tick now (some d) (some command) (run_tick s1).1) now d command
        (initialized d s)
  create run_tick now (some d) none s = (einval, s)
  create run_tick now none command s = (einval, s)
