-- ===== src/Command/CommandList/Callback.antt =====
-- The step of a list of AT commands at each response: _xbee_cmd_list_callback of
-- pxbee/pan/xbee/xbee_atcmd.c.
pub mod Effect
pub mod Run
use pxbee_open_close.Prelude.{ℕ, ◌+◌, ◌%◌, ℤ, pos, Option, none, some, ◌==◌, if◌then◌else◌, bit_and}
use pxbee_open_close.Prelude.Bits.{has}
use pxbee_open_close.Command.{Response, State, atcmd_done, atcmd_reuse, release_handle}
use pxbee_open_close.Command.Send.{send}
use pxbee_open_close.Command.Expire.{resp_flag_timeout, resp_mask_status}
use pxbee_open_close.Command.CommandList.{
  Reg, Lists, ListCalls, reg_at, end_of, is_valid, is_last, list_done, list_timeout, list_error,
  context_of, put_context, fill_request, copy_response,
}

module _ {W : Type 0} (calls : ListCalls W) where
  pub call_reg : Response → Reg → Option Reg → ℕ → State (Lists W) → State (Lists W)
  call_reg m reg told base s = elim reg.callback [ none ↦ s | some c ↦ calls c m told base s ]

  pub set_status : ℕ → ℤ → State (Lists W) → State (Lists W)
  set_status i status s = put_context i (record (context_of i s) { status = status }) s

  -- the end of the list, at its entry `reg`
  list_ends : ℕ → Reg → Response → State (Lists W) → ℤ × State (Lists W)
  unfolding call_reg set_status
  list_ends i reg m s =
      (atcmd_done, call_reg m reg (some reg) (context_of i s).base (set_status i list_done s))

  -- the step to the entry behind the answered one
  pub list_next : ℕ → ℕ → Response → State (Lists W) → ℤ × State (Lists W)
  unfolding list_ends fill_request
  list_next now i m s =
      let clc = context_of i s in
      let s1 = put_context i (record clc { index = (clc.index + 1) % 65536 }) s in
      let reg = reg_at (context_of i s1) in
      let s2 = (fill_request (pos m.handle) i s1).1 in
      let s3 = (send now (pos m.handle) s2).1 in
      if is_valid reg
      then if is_last reg.list_type
        then list_ends i reg m (release_handle (pos m.handle) s3).1
        else (atcmd_reuse, s3)
      else list_ends i reg m s1

  -- a response to the command of the entry `reg`
  pub list_answer : Reg → ℕ → Response → State (Lists W) → State (Lists W)
  unfolding call_reg copy_response
  list_answer reg base m s =
      let s1 = if bit_and m.flags resp_mask_status == 0 then copy_response base reg m s else s in
      call_reg m reg (some reg) base s1

  list_timed_out : ℕ → Response → State (Lists W) → State (Lists W)
  unfolding call_reg set_status
  list_timed_out i m s =
      let clc = context_of i s in
      let reg = end_of clc.list in call_reg m reg (some reg) clc.base (set_status i list_timeout s)

  -- The context of the response is `clc`, and is not NULL.
  list_response : ℕ → ℕ → Response → State (Lists W) → ℤ × State (Lists W)
  unfolding list_next list_answer
  list_response now i m s =
      let clc = context_of i s in
      let reg = reg_at clc in
      if m.command == reg.command
      then list_next now i m (list_answer reg clc.base m s)
      else (atcmd_done, call_reg m reg none clc.base (set_status i list_error s))

  unfoldable pub list_callback : ℕ → Response → State (Lists W) → ℤ × State (Lists W)
  unfolding list_response list_timed_out
  list_callback now m s = elim m.context [
    | none ↦ (atcmd_done, s)
    | some i ↦
        if has m.flags resp_flag_timeout
        then (atcmd_done, list_timed_out i m s)
        else list_response now i m s
  ]
