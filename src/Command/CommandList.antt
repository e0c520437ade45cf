-- ===== src/Command/CommandList.antt =====
-- Lists of AT commands: xbee_cmd_list_execute, _xbee_cmd_issue_list and _xbee_cmd_list_callback of
-- pxbee/pan/xbee/xbee_atcmd.c, with the table entries of pxbee/headers/xbee/atcmd.h.
pub mod Callback
pub mod Table
pub mod Execute
pub mod Keeps
use pxbee_open_close.Prelude.{
  ℕ, suc, ◌+◌, ◌-◌, ◌%◌, ℤ, pos, negsuc, true, false, ebusy, einval, is_negative, is_zero, Bool,
  not, Option, none, some, List, [], ◌∷◌, ◌++◌, ◌==◌, ltb, if◌then◌else◌, length, get_or, take,
  drop, replicate, bit_and,
}
use pxbee_open_close.Prelude.Bits.{Bytes, has}
use pxbee_open_close.Zcl.Parse.{byte}
use pxbee_open_close.Device.Load.{write_at}
use pxbee_open_close.Device.Radio.{be_value, be_bytes}
use pxbee_open_close.Command.{
  Address, Response, State, Callbacks, atcmd_done, atcmd_reuse, release_handle,
}
use pxbee_open_close.Command.Build.{
  set_command, set_param, set_param_bytes, set_param_str, set_callback, set_target,
}
use pxbee_open_close.Command.Send.{send}
use pxbee_open_close.Command.Expire.{create, resp_flag_timeout, resp_mask_status}

-- `xbee_command_list_type`
pub data ListType : Type 0 where
  clt_none : ListType
  clt_copy : ListType
  clt_copy_be : ListType
  clt_set : ListType
  clt_set_str : ListType
  clt_set_be : ListType
  clt_set_8 : ListType
  clt_last : ListType

abbrev pub is_last : ListType → Bool
is_last clt_last = true
is_last _ = false

-- `xbee_atcmd_reg_t`; the callback is the number that names it, `none` for NULL
pub record Reg : Type 0 where
  pub command : ℕ
  pub flags : ℕ
  pub list_type : ListType
  pub callback : Option ℕ
  pub bytes : ℕ
  pub offset : ℕ

-- XBEE_ATCMD_REG_END
abbrev pub reg_end : Reg
reg_end = record {
  command = 0;
  flags = 0;
  list_type = clt_none;
  callback = none;
  bytes = 0;
  offset = 0;
}

-- XBEE_ATCMD_REG_VALID
abbrev pub is_valid : Reg → Bool
is_valid reg = not (reg.command == 0)

-- `xbee_command_list_status`
abbrev pub list_running : ℤ
list_running = ebusy

abbrev pub list_done : ℤ
list_done = pos 0

abbrev pub list_timeout : ℤ
list_timeout = negsuc 20011

abbrev pub list_error : ℤ
list_error = negsuc 20001

-- `xbee_command_list_context_t`; a base is the number that names the memory that it points to
pub record ListContext : Type 0 where
  pub list : List Reg
  pub base : ℕ
  pub status : ℤ
  pub index : ℕ

-- the contexts by the numbers that name them, the memory behind the bases, and all else
pub record Lists (W : Type 0) : Type 0 where
  pub contexts : ℕ → ListContext
  pub memory : ℕ → Bytes
  pub rest : W

-- what the callback of an entry names: `xbee_command_list_fn`; the entry is `none` for NULL
abbrev pub ListCalls : Type 0 → Type 0
ListCalls W = ℕ → Response → Option Reg → ℕ → State (Lists W) → State (Lists W)

-- the entry with this index; a list ends with an entry that is not valid
abbrev pub reg_at : ListContext → Reg
reg_at clc = get_or clc.list clc.index reg_end

-- the loop that looks for the end of the list
unfoldable pub end_of : List Reg → Reg
end_of [] = reg_end
end_of (reg ∷ regs) = let rest = end_of regs in if is_valid reg then rest else reg

-- a C string in memory, up to its terminator
unfoldable pub c_string : Bytes → Bytes
c_string [] = []
c_string (c ∷ str) = let rest = c_string str in if c == 0 then [] else c ∷ rest

-- the number in a field of one, two or four bytes, in the byte order of the host
unfoldable pub field_value : ℕ → Bytes → ℕ
field_value size field =
    if size == 2
    then be_value 0 (take 2 field)
    else if size == 4
    then be_value 0 (take 4 field)
    else byte field 0

-- the bytes that a response leaves in its field, if the entry is one to copy
unfoldable pub copied : Reg → Response → Option Bytes
copied reg m = elim reg.list_type [
  | clt_copy ↦ some (
      if ltb m.value_length reg.bytes
      then take m.value_length m.value_bytes ++ replicate (reg.bytes - m.value_length) 0
      else take reg.bytes m.value_bytes)
  | clt_copy_be ↦
      if reg.bytes == 1
      then some ((m.value % 256) ∷ [])
      else if reg.bytes == 2
      then some (be_bytes 2 (m.value % 65536) [])
      else if reg.bytes == 4
      then some (be_bytes 4 m.value [])
      else none
  | _ ↦ none
]

module _ {W : Type 0} where
  abbrev pub context_of : ℕ → State (Lists W) → ListContext
  context_of i s = s.world.contexts i

  abbrev pub list_status : ℕ → State (Lists W) → ℤ
  list_status i s = (context_of i s).status

  abbrev pub put_context : ℕ → ListContext → State (Lists W) → State (Lists W)
  put_context i clc s = record s {
    world = record s.world { contexts = λ j. if j == i then clc else s.world.contexts j };
  }

  abbrev pub put_memory : ℕ → ℕ → Bytes → State (Lists W) → State (Lists W)
  put_memory base offset bytes s = record s {
    world = record s.world {
      memory =
          λ j. if j == base then write_at (s.world.memory j) offset bytes else s.world.memory j;
    };
  }

  -- the parameter of the command of an entry, by its type
  issue_param : ListType → ℤ → Reg → Bytes → State (Lists W) → State (Lists W)
  issue_param clt_set_8 request reg field s = (set_param request reg.bytes s).1
  issue_param clt_set request reg field s = (set_param_bytes request field reg.bytes s).1
  issue_param clt_set_str request reg field s = (set_param_str request (c_string field) s).1
  issue_param clt_set_be request reg field s = (set_param request (field_value reg.bytes field) s).1
  issue_param _ request reg field s = (set_param_bytes request [] 0 s).1

  -- the entry that is next, put into a request
  pub fill_request : ℤ → ℕ → State (Lists W) → ℤ × State (Lists W)
  unfolding issue_param
  fill_request request i s =
      let clc = context_of i s in
      let reg = reg_at clc in
      let s1 = (set_command request reg.command s).1 in
      (
        request,
        issue_param reg.list_type request reg (drop reg.offset (s.world.memory clc.base)) s1,
      )

  -- what copies a response
  copy_response : ℕ → Reg → Response → State (Lists W) → State (Lists W)
  copy_response base reg m s = elim (copied reg m) [
    | none ↦ s
    | some bytes ↦ put_memory base reg.offset bytes s
  ]

-- `callback` is the number that names _xbee_cmd_list_callback.
module _ {W : Type 0} (init : ℕ → State (Lists W) → State (Lists W))
    (run_tick : State (Lists W) → ℕ × State (Lists W)) (callback : ℕ) where
  -- `address` is `none` for NULL
  aim : ℤ → Option Address → State (Lists W) → State (Lists W)
  aim request none s = s
  aim request (some a) s = (set_target request (some a.ieee) a.network s).1

  send_first : ℕ → ℤ → ℕ → Option Address → State (Lists W) → ℤ × State (Lists W)
  send_first now request i address s =
      let s1 = aim request address s in
      let (error, s2) = set_callback request (some callback) (some i) s1 in
      if is_zero error then send now request s2 else (error, s2)

  unfoldable pub list_execute :
      ℕ → Option ℕ → ℕ → List Reg → ℕ → Option Address → State (Lists W) → ℤ × State (Lists W)
  unfolding send_first aim fill_request
  list_execute now xbee i list base address s =
      let s1 =
        put_context i (record { list = list; base = base; status = list_running; index = 0 }) s in
      let first = get_or list 0 reg_end in
      let (request, s2) = create init run_tick now xbee (some first.command) s1 in
      let s3 = (fill_request request i s2).1 in
      if is_negative request then (request, s2) else send_first now request i address s3
