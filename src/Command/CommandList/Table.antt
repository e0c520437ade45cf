-- ===== src/Command/CommandList/Table.antt =====
-- A table of AT commands with the responses that answer it, and what these leave in memory.
use pxbee_open_close.Prelude.{
  ℕ, suc, ◌+◌, ◌%◌, ◌<◌, ◌≡◌, refl, true, false, none, some, List, [], ◌∷◌, ◌++◌, ◌==◌, length,
  arith, get_or, bit_and, if◌then◌else◌,
}
use pxbee_open_close.Prelude.Bits.{Bytes, has}
use pxbee_open_close.Device.Load.{write_at}
use pxbee_open_close.Command.{Response}
use pxbee_open_close.Command.Expire.{resp_flag_timeout, resp_mask_status}
use pxbee_open_close.Command.CommandList.{
  Reg, ListContext, Lists, is_last, is_valid, reg_at, reg_end, copied,
}

-- What one response does to the memory of the list, if its status is success.
abbrev pub stored_by : Reg × Response → Bytes → Bytes
stored_by (reg, m) mem =
    if bit_and m.flags resp_mask_status == 0
    then elim (copied reg m) [ none ↦ mem | some bytes ↦ write_at mem reg.offset bytes ]
    else mem

abbrev pub stored_all : List (Reg × Response) → Bytes → Bytes
stored_all [] mem = mem
stored_all (p ∷ ps) mem = stored_all ps (stored_by p mem)

-- the entries of a table without callbacks, each with the response that answers it
abbrev pub Answers : ℕ → Reg × Response → Type 0
Answers i (reg, m) =
    (is_valid reg ≡ true)
    × (is_last reg.list_type ≡ false)
    × (reg.callback ≡ none)
    × (m.command ≡ reg.command)
    × (m.context ≡ some i)
    × (has m.flags resp_flag_timeout ≡ false)

abbrev pub table_of : List (Reg × Response) → List Reg
table_of [] = reg_end ∷ []
table_of ((reg, m) ∷ ps) = reg ∷ table_of ps

abbrev pub responses_of : List (Reg × Response) → List Response
responses_of [] = []
responses_of ((reg, m) ∷ ps) = m ∷ responses_of ps

-- The context `i` stands at the first of these entries of its table, behind the entries `pre`.
abbrev pub Stands : {W : Type 0} → ℕ → ℕ → List Reg → List (Reg × Response) → Lists W → Type 0
Stands i base pre ps w =
    ((w.contexts i).list ≡ pre ++ table_of ps)
    × ((w.contexts i).index ≡ length pre)
    × ((w.contexts i).base ≡ base)

pub get_or-append :
    (pre rest : List Reg) (r d : Reg) → get_or (pre ++ (r ∷ rest)) (length pre) d ≡ r
get_or-append [] rest r d = refl
get_or-append (x ∷ pre) rest r d = get_or-append pre rest r d

abbrev pub stepped : ListContext → ListContext
stepped clc = record clc { index = (clc.index + 1) % 65536 }

get_or-next :
    (pre rest : List Reg) (r d : Reg)
    → get_or (pre ++ (r ∷ rest)) (suc (length pre)) d ≡ get_or rest 0 d
get_or-next [] rest r d = refl
get_or-next (x ∷ pre) rest r d = get_or-next pre rest r d

abbrev pub next_of : List (Reg × Response) → Reg
next_of ps = get_or (table_of ps) 0 reg_end

pub reg_at-stepped :
    {W : Type 0} (i base : ℕ) (pre : List Reg) (reg : Reg) (m : Response)
    (ps : List (Reg × Response)) (w : Lists W)
    → Stands i base pre ((reg, m) ∷ ps) w
    → length pre + 1 < 65536
    → reg_at (stepped (w.contexts i)) ≡ next_of ps
reg_at-stepped i base pre reg m ps w (at_list, at_index, _) small =
    rw (at_list, at_index, mod_small) (get_or-next pre (table_of ps) reg reg_end)
  where
    mod_small : (length pre + 1) % 65536 ≡ suc (length pre)
    mod_small = omega arith
