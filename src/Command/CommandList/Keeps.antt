-- ===== src/Command/CommandList/Keeps.antt =====
-- Issuing an entry of a list leaves what does not depend on the table of requests as it is.
use pxbee_open_close.Prelude.{ℕ, ℤ, List, ◌≡◌, ◌∙◌, [], drop}
use pxbee_open_close.Prelude.Bits.{Bytes}
use pxbee_open_close.Command.{Request, State}
use pxbee_open_close.Command.Build.{set_command}
use pxbee_open_close.Command.Build.Keeps.{
  set_command-keeps, set_param-keeps, set_param_bytes-keeps, set_param_str-keeps,
}
use pxbee_open_close.Command.CommandList.{
  Reg, Lists, ListType, clt_none, clt_copy, clt_copy_be, clt_set, clt_set_str, clt_set_be,
  clt_set_8, clt_last, issue_param, fill_request, context_of, reg_at, c_string, field_value,
}

module _ {W A : Type 0} (observe : State (Lists W) → A)
    (table_apart : (t : List Request) (s : State (Lists W))
      → observe (record s { table = t }) ≡ observe s) where
  issue_param-keeps :
      (t : ListType) (request : ℤ) (reg : Reg) (field : Bytes) (s : State (Lists W))
      → observe (issue_param t request reg field s) ≡ observe s
  unfolding issue_param
  issue_param-keeps clt_set_8 request reg field s =
      set_param-keeps observe table_apart request reg.bytes s
  issue_param-keeps clt_set request reg field s =
      set_param_bytes-keeps observe table_apart request field reg.bytes s
  issue_param-keeps clt_set_str request reg field s =
      set_param_str-keeps observe table_apart request (c_string field) s
  issue_param-keeps clt_set_be request reg field s =
      set_param-keeps observe table_apart request (field_value reg.bytes field) s
  issue_param-keeps clt_none request reg field s =
      set_param_bytes-keeps observe table_apart request [] 0 s
  issue_param-keeps clt_copy request reg field s =
      set_param_bytes-keeps observe table_apart request [] 0 s
  issue_param-keeps clt_copy_be request reg field s =
      set_param_bytes-keeps observe table_apart request [] 0 s
  issue_param-keeps clt_last request reg field s =
      set_param_bytes-keeps observe table_apart request [] 0 s

  pub fill_request-keeps :
      (request : ℤ) (i : ℕ) (s : State (Lists W)) → observe (fill_request request i s).1 ≡ observe s
  unfolding fill_request
  fill_request-keeps request i s =
      let reg = reg_at (context_of i s) in
      let s1 = (set_command request reg.command s).1 in
      let field = drop reg.offset (s.world.memory (context_of i s).base) in
      issue_param-keeps reg.list_type request reg field s1
      ∙ set_command-keeps observe table_apart request reg.command s
