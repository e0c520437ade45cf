-- ===== src/Command/CommandList/Execute.antt =====
-- Starting a list leaves what does not depend on the requests, the radios and the contexts as it is.
use pxbee_open_close.Prelude.{
  ℕ, ℤ, List, ◌≡◌, ◌∙◌, refl, Option, none, some, if_ind, is_zero, is_negative, get_or,
}
use pxbee_open_close.Device.Radio.{Radio}
use pxbee_open_close.Command.{Address, Request, Dev, State}
use pxbee_open_close.Command.Build.{set_callback}
use pxbee_open_close.Command.Build.Keeps.{set_callback-keeps, set_target-keeps}
use pxbee_open_close.Command.Send.{with_device}
use pxbee_open_close.Command.Send.Keeps.{send-keeps}
use pxbee_open_close.Command.Expire.{create, initialized, is_free}
use pxbee_open_close.Command.Respond.{find_request}
use pxbee_open_close.Command.Expire.Keeps.{create-keeps}
use pxbee_open_close.Command.CommandList.{
  Reg, ListContext, Lists, list_execute, send_first, aim, fill_request, list_running, put_context,
  reg_end,
}
use pxbee_open_close.Command.CommandList.Keeps.{fill_request-keeps}

-- the context of a list that starts
abbrev pub started : List Reg → ℕ → ListContext
started list base = record { list = list; base = base; status = list_running; index = 0 }

module _ {W A : Type 0} (observe : State (Lists W) → A)
    (table_apart : (t : List Request) (s : State (Lists W))
      → observe (record s { table = t }) ≡ observe s)
    (radio_apart : (d : ℕ) (radio : Dev → Radio) (s : State (Lists W))
      → observe (with_device d (λ dev. record dev { radio = radio dev }) s) ≡ observe s)
    (context_apart : (i : ℕ) (clc : ListContext) (s : State (Lists W))
      → observe (put_context i clc s) ≡ observe s)
    (init : ℕ → State (Lists W) → State (Lists W))
    (run_tick : State (Lists W) → ℕ × State (Lists W)) (d : ℕ) (seen : A)
    (init_apart : (s : State (Lists W)) → observe s ≡ seen → observe (initialized init d s) ≡ seen)
    (callback : ℕ) where
  aim-keeps :
      (request : ℤ) (address : Option Address) (s : State (Lists W))
      → observe (aim init run_tick callback request address s) ≡ observe s
  unfolding aim
  aim-keeps request none s = refl
  aim-keeps request (some a) s =
      set_target-keeps observe table_apart request (some a.ieee) a.network s

  send_first-keeps :
      (now : ℕ) (request : ℤ) (i : ℕ) (address : Option Address) (s : State (Lists W))
      → observe (send_first init run_tick callback now request i address s).1 ≡ observe s
  unfolding send_first
  send_first-keeps now request i address s =
      let s1 = aim init run_tick callback request address s in
      let p = set_callback request (some callback) (some i) s1 in
      let so_far =
        set_callback-keeps observe table_apart request (some callback) (some i) s1
        ∙ aim-keeps request address s in
      if_ind (λ (x : ℤ × State (Lists W)). observe x.1 ≡ observe s) (is_zero p.0)
        (send-keeps observe table_apart radio_apart now request p.1 ∙ so_far) so_far

  pub list_execute-keeps :
      (now i : ℕ) (list : List Reg) (base : ℕ) (address : Option Address) (s : State (Lists W))
      → observe s ≡ seen
      → (let s1 = put_context i (started list base) s in
          find_request is_free 0 (initialized init d s1).table ≡ none
          → observe (run_tick (initialized init d s1)).1 ≡ seen)
      → observe (list_execute init run_tick callback now (some d) i list base address s).1 ≡ seen
  unfolding list_execute
  list_execute-keeps now i list base address s h ticks =
      let clc = started list base in
      let s1 = put_context i clc s in
      let command = (get_or list 0 reg_end).command in
      let p = create init run_tick now (some d) (some command) s1 in
      let created =
        create-keeps observe table_apart init run_tick d seen init_apart now command s1
          (context_apart i clc s ∙ h) ticks in
      let s3 = (fill_request p.0 i p.1).1 in
      if_ind (λ (x : ℤ × State (Lists W)). observe x.1 ≡ seen) (is_negative p.0) created
        (send_first-keeps now p.0 i address s3
          ∙ fill_request-keeps observe table_apart p.0 i p.1
          ∙ created)
