-- ===== src/Command/CommandList/Callback/Effect.antt =====
-- What the callback of a list of AT commands does at one response, in the terms of what is behind
-- the table of requests.
use pxbee_open_close.Prelude.{
  ==_refl, ℕ, ◌≡◌, refl, ap, ◌∙◌, pos, true, false, Option, none, some, ◌==◌, bit_and,
  if◌then◌else◌, Bool-cases, Option-cases, inl, inr,
}
use pxbee_open_close.Prelude.Bits.{Bytes}
use pxbee_open_close.Device.Load.{write_at}
use pxbee_open_close.Command.{Response, State, atcmd_done, atcmd_reuse}
use pxbee_open_close.Command.Send.Keeps.{send-keeps}
use pxbee_open_close.Command.Expire.{resp_mask_status}
use pxbee_open_close.Command.CommandList.{
  Reg, ListContext, Lists, ListCalls, is_last, is_valid, reg_at, reg_end, copied, copy_response,
  context_of, put_context, put_memory, fill_request, list_done,
}
use pxbee_open_close.Command.CommandList.Keeps.{fill_request-keeps}
use pxbee_open_close.Command.CommandList.Callback.{
  list_callback, list_response, list_next, list_ends, list_answer, call_reg, set_status,
}
use pxbee_open_close.Command.CommandList.Table.{stored_by, Answers, stepped}

module _ {W : Type 0} where
  abbrev pub stored : ℕ → Reg → Response → Lists W → Lists W
  stored base reg m w =
      if bit_and m.flags resp_mask_status == 0
      then elim (copied reg m) [
        | none ↦ w
        | some bytes ↦ record w {
          memory = λ j. if j == base then write_at (w.memory j) reg.offset bytes else w.memory j;
        }
      ]
      else w

  abbrev pub put : ℕ → ListContext → Lists W → Lists W
  put i clc w = record w { contexts = λ j. if j == i then clc else w.contexts j }

  abbrev pub advanced : ℕ → Lists W → Lists W
  advanced i w = put i (stepped (w.contexts i)) w

  stored-contexts :
      (base : ℕ) (reg : Reg) (m : Response) (w : Lists W)
      → (stored base reg m w).contexts ≡ w.contexts
  stored-contexts base reg m w = elim (Bool-cases (bit_and m.flags resp_mask_status == 0)) [
    | inl fine ↦ elim (Option-cases (copied reg m)) [
      | inl e ↦ rw (fine, e) refl
      | inr (bytes, e) ↦ rw (fine, e) refl
    ]
    | inr bad ↦ rw bad refl
  ]

  stored-memory :
      (base : ℕ) (reg : Reg) (m : Response) (w : Lists W)
      → (stored base reg m w).memory base ≡ stored_by (reg, m) (w.memory base)
  stored-memory base reg m w = elim (Bool-cases (bit_and m.flags resp_mask_status == 0)) [
    | inl fine ↦ elim (Option-cases (copied reg m)) [
      | inl e ↦ rw (fine, e) refl
      | inr (bytes, e) ↦ rw (fine, e, ==_refl base) refl
    ]
    | inr bad ↦ rw bad refl
  ]

  pub put-context : (i : ℕ) (clc : ListContext) (w : Lists W) → (put i clc w).contexts i ≡ clc
  put-context i clc w = rw (==_refl i) refl

  abbrev pub at_next : ℕ → State (Lists W) → State (Lists W)
  at_next i s = put_context i (stepped (context_of i s)) s

module _ {W : Type 0} (calls : ListCalls W) where
  call_reg-quiet :
      (m : Response) (reg : Reg) (told : Option Reg) (base : ℕ) (s : State (Lists W))
      → reg.callback ≡ none
      → call_reg calls m reg told base s ≡ s
  unfolding call_reg
  call_reg-quiet m reg told base s quiet = rw quiet refl

  copy-world :
      (reg : Reg) (base : ℕ) (m : Response) (s : State (Lists W))
      → (if bit_and m.flags resp_mask_status == 0 then copy_response base reg m s else s).world
        ≡ stored base reg m s.world
  unfolding copy_response
  copy-world reg base m s = elim (Bool-cases (bit_and m.flags resp_mask_status == 0)) [
    | inl fine ↦ rw fine (put_copy (copied reg m))
    | inr bad ↦ rw bad refl
  ]
    where
      put_copy :
          (o : Option Bytes)
          → (elim o as (λ _. State (Lists W)) [
            | none ↦ s
            | some bytes ↦ put_memory base reg.offset bytes s
          ]).world
            ≡ elim o as (λ _. Lists W) [
              | none ↦ s.world
              | some bytes ↦ (put_memory base reg.offset bytes s).world
            ]
      put_copy none = refl
      put_copy (some bytes) = refl

  answer-world :
      (reg : Reg) (base : ℕ) (m : Response) (s : State (Lists W))
      → reg.callback ≡ none
      → (list_answer calls reg base m s).world ≡ stored base reg m s.world
  unfolding list_answer
  answer-world reg base m s quiet =
      ap (λ t. t.world)
        (call_reg-quiet m reg (some reg) base
          (if bit_and m.flags resp_mask_status == 0 then copy_response base reg m s else s) quiet)
      ∙ copy-world reg base m s

  -- the step to an entry that is there
  pub next_more :
      (now i : ℕ) (m : Response) (s : State (Lists W))
      → is_valid (reg_at (context_of i (at_next i s))) ≡ true
      → is_last (reg_at (context_of i (at_next i s))).list_type ≡ false
      → ((list_next calls now i m s).0 ≡ atcmd_reuse)
        × ((list_next calls now i m s).1.world ≡ advanced i s.world)
  unfolding list_next
  next_more now i m s valid kept =
      let s1 = at_next i s in
      let s2 = (fill_request (pos m.handle) i s1).1 in
      rw (valid, kept)
        (
          refl,
          send-keeps (λ x. x.world) (λ t x. refl) (λ d r x. refl) now (pos m.handle) s2
              ∙ fill_request-keeps (λ x. x.world) (λ t x. refl) (pos m.handle) i s1,
        )

  -- the step to the end of the table
  pub next_end :
      (now i : ℕ) (m : Response) (s : State (Lists W))
      → reg_at (context_of i (at_next i s)) ≡ reg_end
      → list_next calls now i m s ≡ (atcmd_done, set_status calls i list_done (at_next i s))
  unfolding list_next list_ends call_reg
  next_end now i m s at_end = rw at_end refl

  pub callback-Answers :
      (now i : ℕ) (reg : Reg) (m : Response) (s : State (Lists W))
      → Answers i (reg, m)
      → reg_at (context_of i s) ≡ reg
      → list_callback calls now m s
        ≡ list_next calls now i m (list_answer calls reg (context_of i s).base m s)
  unfolding list_callback list_response
  callback-Answers now i reg m s (_, _, _, same, named, in_time) here =
      rw (named, in_time, here, same, ==_refl reg.command) refl

  -- the state that a matching response leaves, before the next entry is looked at
  abbrev pub answered : ℕ → Reg → Response → State (Lists W) → State (Lists W)
  answered i reg m s = list_answer calls reg (context_of i s).base m s

  pub answered-contexts :
      (i : ℕ) (reg : Reg) (m : Response) (s : State (Lists W))
      → reg.callback ≡ none
      → (answered i reg m s).world.contexts ≡ s.world.contexts
  answered-contexts i reg m s quiet =
      ap (λ w. w.contexts) (answer-world reg (context_of i s).base m s quiet)
      ∙ stored-contexts (context_of i s).base reg m s.world

  pub answered-memory :
      (i base : ℕ) (reg : Reg) (m : Response) (s : State (Lists W))
      → reg.callback ≡ none
      → (context_of i s).base ≡ base
      → (answered i reg m s).world.memory base ≡ stored_by (reg, m) (s.world.memory base)
  answered-memory i base reg m s quiet at_base =
      ap (λ w. w.memory base) (answer-world reg (context_of i s).base m s quiet)
      ∙ ap (λ b. (stored b reg m s.world).memory base) at_base
      ∙ stored-memory base reg m s.world
