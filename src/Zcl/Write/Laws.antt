-- ===== src/Zcl/Write/Laws.antt =====
-- The loops of a Write Attributes request: they end, what they report is bounded, and an undivided
-- write is all or nothing as far as its first pass can tell.
use mathlib.Core.Option.{some-injective}
use pxbee_open_close.Zcl.Record.{parse_attribute_record, is_positive16}
use pxbee_open_close.Zcl.Record.Progress.{parse_keeps}
use pxbee_open_close.Zcl.{Attribute, WriteRec}
use pxbee_open_close.Prelude.{
  ℕ, zero, suc, List, get_or, if◌then◌else◌, sym, append-nil, append_assoc, ◌++◌, ◌+◌, true, false,
  ◌==◌, ◌≡◌, ◌≢◌, refl, ◌≤◌, ◌⊎◌, inl, inr, arith, Option, some, [], ◌∷◌, length, Bool-cases, ◌∙◌,
  ap,
}
use pxbee_open_close.Prelude.Bits.{Bytes}
use pxbee_open_close.Zcl.{Command, Store}
use pxbee_open_close.Zcl.Record.Progress.{TameTable}
use pxbee_open_close.Zcl.Write.Loop.{write_pass-Ends, check_pass_keeps}
use pxbee_open_close.Zcl.Write.{
  write_loop, armed, status_record, write_pass, write_passes, start_record, after_check,
  cmd_write_attrib_undiv,
}

after_check_ends :
    (cmd : Command) (out : Bytes) (s : Store)
    → TameTable cmd.attributes
    → length out ≤ cmd.length + 2
    → (out' : Bytes) × (s' : Store) × (after_check cmd (some (out, s)) ≡ some (out', s'))
      × (length out' ≤ cmd.length + 2)
unfolding after_check
after_check_ends cmd [] s tame bounded =
    let ends = write_pass-Ends true cmd s tame in
    (ends.out', ends.s', ends.returns, omega (arith, ends.bounded))
after_check_ends cmd (b ∷ bs) s tame bounded = (b ∷ bs, s, refl, bounded)

-- Whatever the payload is, the handler of Write Attributes requests gets to its response, if the
-- write functions of the table are tame: they consume fewer than 2 ^ 15 bytes, do not make the
-- record longer, and assign nothing without being asked to. The status records take at most two
-- bytes more than the payload, so up to 73 bytes of payload give no more than the 25 records that
-- the response has room for.
pub write_passes_ends :
    (cmd : Command) (s : Store)
    → TameTable cmd.attributes
    → (out : Bytes) × (s' : Store) × (write_passes cmd s ≡ some (out, s'))
      × (length out ≤ cmd.length + 2)
unfolding write_passes
write_passes_ends cmd s tame = elim (Bool-cases (cmd.command == cmd_write_attrib_undiv)) [
  | inl undivided ↦
      let check = write_pass-Ends false cmd s tame in
      rw (write_passes, undivided, check.returns)
        (after_check_ends cmd check.out' check.s' tame (omega (arith, check.bounded)))
  | inr plain ↦
      let ends = write_pass-Ends true cmd s tame in
      rw (write_passes, plain) (ends.out', ends.s', ends.returns, omega (arith, ends.bounded))
]

-- The status records of a pass that assigns nothing: for each record of the payload that does not
-- parse with success, its status and the two bytes of its attribute id. The first argument is fuel.
pub reports : ℕ → Option (List Attribute) → WriteRec → Store → Bytes
reports zero table rec s = []
reports (suc fuel) table rec s =
    let next = (parse_attribute_record table (record rec { flags = 0; status = 0 }) s).1 in
    let rest = reports fuel table next s in
    let id = get_or rec.buffer 0 0 ∷ get_or rec.buffer 1 0 ∷ [] in
    if is_positive16 rec.buflen
    then (if next.status == 0 then rest else next.status ∷ id ++ rest)
    else []

one_report :
    (buffer : Bytes) (status : ℕ) (tail : Bytes)
    → status_record buffer status ++ tail
      ≡ (if status == 0 then tail else status ∷ get_or buffer 0 0 ∷ get_or buffer 1 0 ∷ tail)
unfolding status_record
one_report buffer status tail = elim (Bool-cases (status == 0)) [
  | inl fine ↦ rw fine refl
  | inr failed ↦ rw failed refl
]

write_loop-reports :
    (fuel : ℕ) (table : Option (List Attribute)) (rec : WriteRec) (out : Bytes) (s : Store)
    (out' : Bytes) (s' : Store)
    → TameTable table
    → write_loop fuel false table rec out s ≡ some (out', s')
    → out' ≡ out ++ reports fuel table rec s
unfolding write_loop reports armed
write_loop-reports zero table rec out s out' s' tame ended =
    elim (Bool-cases (is_positive16 rec.buflen)) [
      | inl more ↦ absurd (cc (rw (write_loop, more) at ended))
      | inr done ↦
          sym (ap (λ r. r.0) (some-injective _ _ (rw (write_loop, done) at ended)))
          ∙ sym (append-nil out)
    ]
write_loop-reports (suc fuel) table rec out s out' s' tame ended =
    let step = parse_attribute_record table (armed false rec) s in
    elim (Bool-cases (is_positive16 rec.buflen)) [
      | inl more ↦
          let rest =
            write_loop-reports fuel table step.1 (out ++ status_record rec.buffer step.1.status)
              step.2 out' s' tame (rw (write_loop, more) at ended) in
          let kept : step.2 ≡ s = parse_keeps table (armed false rec) s tame refl in
          let tail = reports fuel table step.1 s in
          rest
          ∙ ap (λ t. (out ++ status_record rec.buffer step.1.status) ++ reports fuel table step.1 t)
              kept
          ∙ append_assoc out (status_record rec.buffer step.1.status) tail
          ∙ ap (λ l. out ++ l) (one_report rec.buffer step.1.status tail)
          ∙ ap
              (λ b.
                out
                ++ (if b
                    then (if step.1.status == 0
                        then tail
                        else step.1.status ∷ get_or rec.buffer 0 0 ∷ get_or rec.buffer 1 0 ∷ tail)
                    else []))
              (sym more)
      | inr done ↦ rw done (
          sym (ap (λ r. r.0) (some-injective _ _ (rw (write_loop, done) at ended)))
          ∙ sym (append-nil out))
    ]

-- what the first pass of a write reports
abbrev pub failures : Command → Store → Bytes
failures cmd s =
    reports cmd.length cmd.attributes
      (record { buffer = cmd.zcl_payload; buflen = cmd.length; flags = 0; status = 0 }) s

checked_cases :
    (cmd : Command) (out : Bytes) (s : Store)
    → ((out ≢ []) × (after_check cmd (some (out, s)) ≡ some (out, s)))
      ⊎ ((out ≡ [])
          × (after_check cmd (some (out, s)) ≡ write_pass true (record cmd { command = 0x02 }) s))
unfolding after_check write_pass start_record
checked_cases cmd [] s = inr (refl, refl)
checked_cases cmd (b ∷ bs) s = inl ((λ e. cc), refl)

-- An undivided write, with tame write functions in the table, answers with what its first pass
-- reports, if that is anything, and changes no attribute then: for each record of the payload that
-- does not parse with success, in their order, its status and attribute id. If the first pass
-- reports nothing, the undivided write does what the plain write of the same payload does, which may
-- still fail for a record behind others that it has written.
pub undivided_lem :
    (cmd : Command) (s : Store)
    → TameTable cmd.attributes
    → cmd.command ≡ cmd_write_attrib_undiv
    → ((failures cmd s ≢ []) × (write_passes cmd s ≡ some (failures cmd s, s)))
      ⊎ ((failures cmd s ≡ [])
          × (write_passes cmd s ≡ write_passes (record cmd { command = 0x02 }) s))
unfolding write_passes write_pass start_record
undivided_lem cmd s tame undivided =
    let is_undivided : (cmd.command == cmd_write_attrib_undiv) ≡ true = rw undivided refl in
    let check = write_pass-Ends false cmd s tame in
    let same = check_pass_keeps cmd s check.out' check.s' tame check.returns in
    let reported : check.out' ≡ failures cmd s =
      write_loop-reports cmd.length cmd.attributes (start_record cmd) [] s check.out' check.s' tame
        check.returns in
    let found : write_pass false cmd s ≡ some (failures cmd s, s) =
      check.returns ∙ ap (λ x. some (check.out', x)) same ∙ ap (λ x. some (x, s)) reported in
    rw (write_passes, is_undivided, found) (checked_cases cmd (failures cmd s) s)
