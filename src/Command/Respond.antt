-- ===== src/Command/Respond.antt =====
-- Responses: _xbee_cmd_handle_response of pxbee/pan/xbee/xbee_atcmd.c, with the frames of
-- pxbee/headers/xbee/atcmd.h.
pub mod Laws
use pxbee_open_close.Prelude.{
  ℕ, suc, ◌+◌, ◌-◌, ◌*◌, ◌%◌, ℤ, pos, negsuc, einval, Bool, true, false, not, ◌&&◌, Option, none,
  some, List, [], ◌∷◌, ◌==◌, if◌then◌else◌, length, take, drop,
}
use pxbee_open_close.Prelude.Bits.{Bytes, has}
use pxbee_open_close.Zcl.Parse.{byte}
use pxbee_open_close.Device.Radio.{be_value}
use pxbee_open_close.Device.Dispatch.{Node, Entry}
use pxbee_open_close.Command.{
  Request, Response, Address, State, Callbacks, change_entry, released, flag_remote,
}
use pxbee_open_close.Command.Send.{timeout_after}

-- XBEE_FRAME_LOCAL_AT_RESPONSE and XBEE_FRAME_REMOTE_AT_RESPONSE, and the offsets of `value` in
-- their frames
abbrev pub frame_local_at_response : ℕ
frame_local_at_response = 0x88

abbrev pub frame_remote_at_response : ℕ
frame_remote_at_response = 0x97

abbrev pub local_value_offset : ℕ
local_value_offset = 5

abbrev pub remote_value_offset : ℕ
remote_value_offset = 15

-- what the switch on the type takes from a frame
pub record Answer : Type 0 where
  pub is_local : Bool
  pub frame_id : ℕ
  pub command : ℕ
  pub status : ℕ
  pub value_length : ℕ
  pub value : Bytes
  pub source : Option Address

-- `(uint_fast8_t) (length - offset)`
abbrev pub value_size : ℕ → Bytes → ℕ
value_size offset frame = (length frame + 65536 - offset) % 256

-- the command and the status in front of the value
abbrev pub answer_at : ℕ → Option Address → Bytes → Answer
answer_at offset source frame = record {
  is_local = elim source [ none ↦ true | some _ ↦ false ];
  frame_id = byte frame 1;
  command = be_value 0 (byte frame (offset - 3) ∷ byte frame (offset - 2) ∷ []);
  status = byte frame (offset - 1);
  value_length = value_size offset frame;
  value = drop offset frame;
  source = source;
}

unfoldable pub answer_of : Bytes → Option Answer
answer_of frame =
    let sender : Address = record {
      ieee = be_value 0 (take 8 (drop 2 frame));
      network = be_value 0 (byte frame 10 ∷ byte frame 11 ∷ []);
    } in
    if byte frame 0 == frame_local_at_response
    then some (answer_at local_value_offset none frame)
    else if byte frame 0 == frame_remote_at_response
    then some (answer_at remote_value_offset (some sender) frame)
    else none

-- the value in the byte order of the host
unfoldable pub value_of : ℕ → Bytes → ℕ
value_of size value =
    if size == 0
    then 0
    else if size == 1
    then byte value 0
    else if size == 2
    then be_value 0 (take 2 value)
    else if size == 4
    then be_value 0 (take 4 value)
    else 0xffffffff

-- `is_local == !(request->flags & XBEE_CMD_FLAG_REMOTE)`
abbrev pub same_target : Bool → Request → Bool
same_target is_local r = if is_local then not (has r.flags flag_remote) else has r.flags flag_remote

unfoldable pub is_answered : ℕ → Answer → Request → Bool
is_answered xbee a r =
    elim r.device [ none ↦ false | some d ↦ d == xbee ]
    && ((r.frame_id == a.frame_id) && (same_target a.is_local r && (r.command == a.command)))

-- the search of the table: the place of the first match, counted from `i`, and the request there
unfoldable pub find_request : (Request → Bool) → ℕ → List Request → Option (ℕ × Request)
find_request test i [] = none
find_request test i (r ∷ rs) =
    let rest = find_request test (suc i) rs in if test r then some (i, r) else rest

unfoldable pub response_to : ℕ → Answer → ℕ → Request → Response
response_to xbee a i r = record {
  device = some xbee;
  context = r.context;
  handle = i * 256 + r.sequence;
  command = r.command;
  flags = a.status;
  value_length = a.value_length;
  value_bytes = a.value;
  value = value_of a.value_length a.value;
  source = a.source;
}

abbrev pub is_reuse : ℤ → Bool
is_reuse (pos n) = n == 1
is_reuse (negsuc n) = false

module _ {W : Type 0} (callbacks : Callbacks W) where
  -- the matched request `r`, which is the entry `i`
  call_back : ℕ → ℕ → Answer → ℕ → Request → State W → State W
  call_back now xbee a i r s = elim r.callback [
    | none ↦ change_entry i released s
    | some c ↦
        let (retval, s1) = callbacks c (response_to xbee a i r) s in
        if is_reuse retval
        then change_entry i (λ q. record q { timeout = timeout_after 5 now }) s1
        else change_entry i released s1
  ]

  answered : ℕ → ℕ → Answer → State W → State W
  unfolding call_back
  answered now xbee a s = elim (find_request (is_answered xbee a) 0 s.table) [
    | none ↦ s
    | some (i, r) ↦ call_back now xbee a i r s
  ]

  -- `none` for a NULL frame. The frame is its bytes, as many as its length says.
  unfoldable pub handle_response : ℕ → ℕ → Option Bytes → State W → ℤ × State W
  unfolding answered
  handle_response now xbee none s = (einval, s)
  handle_response now xbee (some frame) s = elim (answer_of frame) [
    | none ↦ (einval, s)
    | some a ↦ (pos 0, answered now xbee a s)
  ]

  -- its entries in the table of frame handlers: XBEE_FRAME_HANDLE_LOCAL_AT and
  -- XBEE_FRAME_HANDLE_REMOTE_AT
  abbrev pub response_entry : ℕ → ℕ → ℕ → Entry (State W)
  response_entry frame_type now xbee = record {
    frame_type = frame_type;
    frame_id = 0;
    handler = λ frame n.
        let (error, s) = handle_response now xbee (some frame) n.world in
        (error, record n { world = s });
  }
