-- ===== src/Command/CommandList/Callback/Run.antt =====
-- A list of AT commands from its first response to its last.
use pxbee_open_close.Prelude.{
  ==_refl, ℕ, suc, ◌+◌, ◌%◌, ◌<◌, ◌≡◌, refl, ap, sym, ◌∙◌, ℤ, none, List, [], ◌∷◌, ◌++◌, length,
  All, arith, append_assoc, length-append, replicate,
}
use pxbee_open_close.Command.{Response, State, atcmd_done, atcmd_reuse}
use pxbee_open_close.Command.CommandList.{
  Reg, Lists, ListCalls, is_last, is_valid, reg_at, reg_end, context_of, list_status, list_done,
}
use pxbee_open_close.Command.CommandList.Callback.{list_callback, set_status}
use pxbee_open_close.Command.CommandList.Table.{
  stored_by, stored_all, Answers, table_of, responses_of, Stands, next_of, stepped, get_or-append,
  reg_at-stepped,
}
use pxbee_open_close.Command.CommandList.Callback.Effect.{
  put-context, next_more, next_end, callback-Answers, answered, answered-contexts, answered-memory,
  at_next,
}

module _ {W : Type 0} (calls : ListCalls W) where
  at_next-context :
      (i : ℕ) (reg : Reg) (m : Response) (s : State (Lists W))
      → reg.callback ≡ none
      → context_of i (at_next i (answered calls i reg m s)) ≡ stepped (context_of i s)
  at_next-context i reg m s quiet =
      put-context i (stepped (context_of i (answered calls i reg m s)))
        (answered calls i reg m s).world
      ∙ ap (λ c. stepped (c i)) (answered-contexts calls i reg m s quiet)

  at_next-next_of :
      (i base : ℕ) (pre : List Reg) (reg : Reg) (m : Response) (ps : List (Reg × Response))
      (s : State (Lists W))
      → reg.callback ≡ none
      → Stands i base pre ((reg, m) ∷ ps) s.world
      → length pre + 1 < 65536
      → reg_at (context_of i (at_next i (answered calls i reg m s))) ≡ next_of ps
  at_next-next_of i base pre reg m ps s quiet stands small =
      ap reg_at (at_next-context i reg m s quiet)
      ∙ reg_at-stepped i base pre reg m ps s.world stands small

  reg_at-Stands :
      (i base : ℕ) (pre : List Reg) (reg : Reg) (m : Response) (ps : List (Reg × Response))
      (s : State (Lists W))
      → Stands i base pre ((reg, m) ∷ ps) s.world
      → reg_at (context_of i s) ≡ reg
  reg_at-Stands i base pre reg m ps s (at_list, at_index, _) =
      rw (at_list, at_index) (get_or-append pre (table_of ps) reg reg_end)

  index_at :
      {index : ℕ} (pre : List Reg) (reg : Reg)
      → index ≡ length pre
      → length pre + 1 < 65536
      → (index + 1) % 65536 ≡ length (pre ++ (reg ∷ []))
  index_at pre reg e small = omega (arith, e, small, length-append pre (reg ∷ []))

  -- A matching response in the middle of the table.
  callback_more :
      (now i base : ℕ) (pre : List Reg) (reg reg' : Reg) (m m' : Response)
      (ps : List (Reg × Response)) (s : State (Lists W))
      → Answers i (reg, m)
      → Answers i (reg', m')
      → Stands i base pre ((reg, m) ∷ (reg', m') ∷ ps) s.world
      → length pre + 1 < 65536
      → let after = list_callback calls now m s in
        (after.0 ≡ atcmd_reuse)
        × Stands i base (pre ++ (reg ∷ [])) ((reg', m') ∷ ps) after.1.world
        × (after.1.world.memory base ≡ stored_by (reg, m) (s.world.memory base))
  callback_more now i base pre reg reg' m m' ps s answers answers' stands small =
      let (_, _, quiet, _, _, _) = answers in
      let (v', k', _, _, _, _) = answers' in
      let (at_list, at_index, at_base) = stands in
      let here = reg_at-Stands i base pre reg m ((reg', m') ∷ ps) s stands in
      let is_next = at_next-next_of i base pre reg m ((reg', m') ∷ ps) s quiet stands small in
      let run = callback-Answers calls now i reg m s answers here in
      let more =
        next_more calls now i m (answered calls i reg m s) (ap is_valid is_next ∙ v')
          (ap (λ x. is_last x.list_type) is_next ∙ k') in
      let world = ap (λ p. p.1.world) run ∙ more.1 in
      let context = ap (λ w. w.contexts i) world ∙ at_next-context i reg m s quiet in
      (
        ap (λ p. p.0) run ∙ more.0,
        (
          ap (λ c. c.list) context
              ∙ at_list
              ∙ sym (append_assoc pre (reg ∷ []) (table_of ((reg', m') ∷ ps))),
          ap (λ c. c.index) context ∙ index_at pre reg at_index small,
          ap (λ c. c.base) context ∙ at_base,
        ),
        ap (λ w. w.memory base) world ∙ answered-memory calls i base reg m s quiet at_base,
      )

  -- The response to the last entry of the table.
  callback_last :
      (now i base : ℕ) (pre : List Reg) (reg : Reg) (m : Response) (s : State (Lists W))
      → Answers i (reg, m)
      → Stands i base pre ((reg, m) ∷ []) s.world
      → length pre + 1 < 65536
      → let after = list_callback calls now m s in
        (after.0 ≡ atcmd_done)
        × (list_status i after.1 ≡ list_done)
        × (after.1.world.memory base ≡ stored_by (reg, m) (s.world.memory base))
  unfolding set_status
  callback_last now i base pre reg m s answers stands small =
      let (_, _, quiet, _, _, _) = answers in
      let (at_list, at_index, at_base) = stands in
      let here = reg_at-Stands i base pre reg m [] s stands in
      let is_end = at_next-next_of i base pre reg m [] s quiet stands small in
      let run =
        callback-Answers calls now i reg m s answers here
        ∙ next_end calls now i m (answered calls i reg m s) is_end in
      (
        ap (λ p. p.0) run,
        ap (λ p. (context_of i p.1).status) run ∙ rw (==_refl i) refl,
        ap (λ p. p.1.world.memory base) run ∙ answered-memory calls i base reg m s quiet at_base,
      )

  -- the callback at one response after the other
  unfoldable pub feed : ℕ → List Response → State (Lists W) → List ℤ × State (Lists W)
  feed now [] s = ([], s)
  feed now (m ∷ ms) s =
      let (answer, s1) = list_callback calls now m s in
      let (answers, s2) = feed now ms s1 in (answer ∷ answers, s2)

  feed-Stands :
      (now i base : ℕ) (pre : List Reg) (reg : Reg) (m : Response) (ps : List (Reg × Response))
      (s : State (Lists W))
      → All (Answers i) ((reg, m) ∷ ps)
      → Stands i base pre ((reg, m) ∷ ps) s.world
      → length pre + suc (length ps) < 65536
      → let after = feed now (m ∷ responses_of ps) s in
        (after.0 ≡ replicate (length ps) atcmd_reuse ++ (atcmd_done ∷ []))
        × (list_status i after.1 ≡ list_done)
        × (after.1.world.memory base ≡ stored_all ((reg, m) ∷ ps) (s.world.memory base))
  unfolding feed
  feed-Stands now i base pre reg m [] s (answers, _) stands small =
      let (ended, status, mem) =
        callback_last now i base pre reg m s answers stands (omega arith) in
      (ap (λ x. x ∷ []) ended, status, mem)
  feed-Stands now i base pre reg m ((reg', m') ∷ ps) s (answers, others) stands small =
      let (kept, stands', mem) =
        callback_more now i base pre reg reg' m m' ps s answers others.0 stands (omega arith) in
      let s1 = (list_callback calls now m s).1 in
      let (statuses, status, mem') =
        feed-Stands now i base (pre ++ (reg ∷ [])) reg' m' ps s1 others stands'
          (omega (arith, small, length-append pre (reg ∷ []))) in
      (
        ap (λ x. x ∷ (feed now (m' ∷ responses_of ps) s1).0) kept
            ∙ ap (λ l. atcmd_reuse ∷ l) statuses,
        status,
        mem' ∙ ap (stored_all ((reg', m') ∷ ps)) mem,
      )

  -- The context `i` is as xbee_cmd_list_execute leaves it, for a table of fewer than 65536 valid
  -- entries, none of which is the last command of a table or has a callback. Each entry gets the
  -- response to its command, in time. Then the callback keeps the request at each response but the
  -- last, at which it gives it up; the status of the list says that it is done; and the memory of
  -- the list holds what the successful responses copy there, in the order of the table.
  pub feed_lem :
      (now i base : ℕ) (status : ℤ) (reg : Reg) (m : Response) (ps : List (Reg × Response))
      (s : State (Lists W))
      → All (Answers i) ((reg, m) ∷ ps)
      → context_of i s
        ≡ record { list = reg ∷ table_of ps; base = base; status = status; index = 0 }
      → suc (length ps) < 65536
      → let after = feed now (m ∷ responses_of ps) s in
        (after.0 ≡ replicate (length ps) atcmd_reuse ++ (atcmd_done ∷ []))
        × (list_status i after.1 ≡ list_done)
        × (after.1.world.memory base ≡ stored_all ((reg, m) ∷ ps) (s.world.memory base))
  feed_lem now i base status reg m ps s answers fresh small =
      let stands : Stands i base [] ((reg, m) ∷ ps) s.world =
        (ap (λ c. c.list) fresh, ap (λ c. c.index) fresh, ap (λ c. c.base) fresh) in
      feed-Stands now i base [] reg m ps s answers stands (omega arith)
