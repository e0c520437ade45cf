-- ===== src/Command/Expire/Create.antt =====
-- New requests.
use pxbee_open_close.Prelude.{
  ℕ, suc, ◌+◌, ◌*◌, ◌%◌, replicate, ◌≡◌, refl, ap, ◌∙◌, ℤ, pos, enospc, true, false, none, some,
  List, [], ◌∷◌, ◌++◌, length, All, arith,
}
use pxbee_open_close.Prelude.Bits.{has}
use pxbee_open_close.Command.{Request, State, change_entry, modify}
use pxbee_open_close.Command.Slots.{modify-split, find_request-split}
use pxbee_open_close.Command.Respond.{find_request}
use pxbee_open_close.Command.Expire.{
  is_free, new_request, dev_flag_cmd_init, initialized, take_free, create_in_tick, create,
}

-- the entry is in use
abbrev pub IsUsed : Request → Type 0
IsUsed r = is_free r ≡ false

module _ {W : Type 0} where
  pub set_up-done :
      (init : ℕ → State W → State W) (d : ℕ) (s : State W)
      → has (s.devices d).flags dev_flag_cmd_init ≡ true
      → initialized init d s ≡ s
  unfolding initialized
  set_up-done init d s set_up = rw (initialized, set_up) refl

  pub found_free :
      (full : State W → ℤ × State W) (now d command i : ℕ) (r : Request) (s : State W)
      → find_request is_free 0 s.table ≡ some (i, r)
      → take_free full now d command s
        ≡ (pos (i * 256 + r.sequence), change_entry i (new_request now d command) s)
  unfolding take_free
  found_free full now d command i r s found = rw (take_free, found) refl

  none_free :
      (full : State W → ℤ × State W) (now d command : ℕ) (s : State W)
      → find_request is_free 0 s.table ≡ none
      → take_free full now d command s ≡ full s
  unfolding take_free
  none_free full now d command s full_table = rw (take_free, full_table) refl

  -- The request goes into the first free entry.
  take_free-split :
      (full : State W → ℤ × State W) (now d command : ℕ) (before rest : List Request) (r : Request)
      (s : State W)
      → s.table ≡ before ++ (r ∷ rest)
      → All IsUsed before
      → is_free r ≡ true
      → take_free full now d command s ≡ (
        pos (length before * 256 + r.sequence),
        record s { table = before ++ (new_request now d command r ∷ rest) },
      )
  take_free-split full now d command before rest r s split used free =
      found_free full now d command (length before) r s (
        ap (find_request is_free 0) split
        ∙ find_request-split is_free 0 before rest r used free
        ∙ ap (λ n. some (n, r)) (omega arith))
      ∙ ap (λ t. (pos (length before * 256 + r.sequence), record s { table = t }))
          (ap (modify (length before) (new_request now d command)) split
            ∙ modify-split before rest r (new_request now d command))

none_found : (k : ℕ) (table : List Request) → All IsUsed table → find_request is_free k table ≡ none
unfolding find_request
none_found k [] used = refl
none_found k (r ∷ rs) (taken, used) = rw taken (none_found (suc k) rs used)

-- A new request is put into the first free entry, and is named by the handle that the call returns:
-- the place of the entry with the sequence that it has had, which is 0 for sequence 0 in the first
-- entry. The request has this sequence, the device, the command and two seconds to be sent; all else
-- is cleared, and the other entries are as they were. The command table of the device was set up
-- before.
pub create_lem :
    {W : Type 0} (init : ℕ → State W → State W) (run_tick : State W → ℕ × State W)
    (now d command : ℕ) (before rest : List Request) (r : Request) (s : State W)
    → s.table ≡ before ++ (r ∷ rest)
    → All IsUsed before
    → is_free r ≡ true
    → has (s.devices d).flags dev_flag_cmd_init ≡ true
    → create init run_tick now (some d) (some command) s ≡ (
      pos (length before * 256 + r.sequence),
      record s {
        table =
            before
            ++ (record {
              sequence = r.sequence;
              device = some d;
              timeout = (now + 2) % 65536;
              flags = 0;
              param = replicate 48 0;
              param_length = 0;
              callback = none;
              context = none;
              frame_id = 0;
              address = record { ieee = 0; network = 0 };
              command = command;
            }
                ∷ rest);
      },
    )
unfolding create new_request
create_lem init run_tick now d command before rest r s split used free set_up =
    let full = λ (s1 : State _). create_in_tick init now (some d) (some command) (run_tick s1).1 in
    ap (take_free full now d command) (set_up-done init d s set_up)
    ∙ take_free-split full now d command before rest r s split used free

module _ {W : Type 0} (init : ℕ → State W → State W) (run_tick : State W → ℕ × State W) where
  create_again :
      (now d command : ℕ) (s : State W)
      → All IsUsed s.table
      → has (s.devices d).flags dev_flag_cmd_init ≡ true
      → has ((run_tick s).1.devices d).flags dev_flag_cmd_init ≡ true
      → create init run_tick now (some d) (some command) s
        ≡ take_free (λ s1. (enospc, s1)) now d command (run_tick s).1
  unfolding create create_in_tick
  create_again now d command s used set_up still =
      let full =
        λ (s1 : State W). create_in_tick init now (some d) (some command) (run_tick s1).1 in
      ap (take_free full now d command) (set_up-done init d s set_up)
      ∙ none_free full now d command s (none_found 0 s.table used)
      ∙ ap (take_free (λ s1. (enospc, s1)) now d command) (set_up-done init d (run_tick s).1 still)

  -- While all entries are in use, the expired requests are ended first. If all are still in use
  -- then, the call returns -ENOSPC.
  pub create_full :
      (now d command : ℕ) (s : State W)
      → All IsUsed s.table
      → has (s.devices d).flags dev_flag_cmd_init ≡ true
      → has ((run_tick s).1.devices d).flags dev_flag_cmd_init ≡ true
      → All IsUsed (run_tick s).1.table
      → create init run_tick now (some d) (some command) s ≡ (enospc, (run_tick s).1)
  create_full now d command s used set_up still in_use =
      create_again now d command s used set_up still
      ∙ none_free (λ s1. (enospc, s1)) now d command (run_tick s).1
          (none_found 0 (run_tick s).1.table in_use)

  -- If the tick has freed an entry, the request goes into the first free one.
  pub create_after_tick :
      (now d command : ℕ) (before rest : List Request) (r : Request) (s : State W)
      → All IsUsed s.table
      → has (s.devices d).flags dev_flag_cmd_init ≡ true
      → has ((run_tick s).1.devices d).flags dev_flag_cmd_init ≡ true
      → (run_tick s).1.table ≡ before ++ (r ∷ rest)
      → All IsUsed before
      → is_free r ≡ true
      → create init run_tick now (some d) (some command) s ≡ (
        pos (length before * 256 + r.sequence),
        record (run_tick s).1 { table = before ++ (new_request now d command r ∷ rest) },
      )
  create_after_tick now d command before rest r s used set_up still split taken free =
      create_again now d command s used set_up still
      ∙ take_free-split (λ s1. (enospc, s1)) now d command before rest r (run_tick s).1 split taken
          free
