-- ===== src/Zcl/Write/Loop.antt =====
-- The loop over the records of a Write Attributes request, and one pass of it.
use mathlib.Core.Option.{some-injective}
use pxbee_open_close.Prelude.{
  ℕ, zero, suc, ◌+◌, ◌-◌, Bool, true, false, ◌==◌, ◌≡◌, refl, ◌≤◌, ◌<◌, inl, inr, arith, Option,
  some, List, [], ◌++◌, length, length-append, Bool-cases, if◌then◌else◌, sym, ◌∙◌, ap,
}
use pxbee_open_close.Prelude.Bits.{Bytes, has}
use pxbee_open_close.Zcl.{Attribute, Command, Store, WriteRec, write_flag_read_resp}
use pxbee_open_close.Zcl.{status_success}
use pxbee_open_close.Prelude.{if_ind}
use pxbee_open_close.Zcl.Record.{parse_attribute_record, is_positive16}
use pxbee_open_close.Zcl.Record.Progress.{TameTable, parse-Shrinks, parse_keeps}
use pxbee_open_close.Zcl.Write.{write_loop, write_pass, armed, status_record, start_record}

armed-request :
    (assign : Bool) (rec : WriteRec) → has (armed assign rec).flags write_flag_read_resp ≡ false
unfolding armed
armed-request true rec = refl
armed-request false rec = refl

length-status_record : (buffer : Bytes) (status : ℕ) → length (status_record buffer status) ≤ 3
unfolding status_record
length-status_record buffer status =
    if_ind (λ (bs : Bytes). length bs ≤ 3) (status == status_success) (omega arith) (omega arith)

-- the outcome of the loop: it ends, with `room` more bytes of status records at most
pub record Ends (out : Bytes) (room : ℕ) (r : Option (Bytes × Store)) : Type 0 where
  pub out' : Bytes
  pub s' : Store
  pub returns : r ≡ some (out', s')
  pub bounded : length out' ≤ length out + room

-- how many bytes of status records can still come
room : WriteRec → ℕ
room rec = if is_positive16 rec.buflen then rec.buflen + 2 else 0

room_more : (rec : WriteRec) → is_positive16 rec.buflen ≡ true → 3 ≤ room rec
unfolding room
room_more rec more = ground arith

room-parse :
    (assign : Bool) (table : Option (List Attribute)) (rec : WriteRec) (s : Store)
    → TameTable table
    → is_positive16 rec.buflen ≡ true
    → room (parse_attribute_record table (armed assign rec) s).1 + 3 ≤ room rec
unfolding room armed
room-parse assign table rec s tame more =
    let next = (parse_attribute_record table (armed assign rec) s).1 in
    let short : rec.buflen < 32768 = ground arith in
    let shrinks : is_positive16 next.buflen ≡ true → next.buflen ≤ rec.buflen - 3 =
      parse-Shrinks table (armed assign rec) s tame short (armed-request assign rec) in
    elim (Bool-cases (is_positive16 next.buflen)) [
      | inl again ↦ rw (more, again) (ground (arith, shrinks again))
      | inr done ↦ rw (more, done) (ground arith)
    ]

more_out :
    (out add : Bytes) (r : Option (Bytes × Store)) (a b : ℕ)
    → length add ≤ 3
    → a + 3 ≤ b
    → Ends (out ++ add) a r
    → Ends out b r
more_out out add r a b small less ends = record {
  out' = ends.out';
  s' = ends.s';
  returns = ends.returns;
  bounded = omega (arith, ends.bounded, length-append out add);
}

write_loop-Ends :
    (fuel : ℕ) (assign : Bool) (table : Option (List Attribute)) (rec : WriteRec) (out : Bytes)
    (s : Store)
    → TameTable table
    → room rec ≤ fuel + 2
    → Ends out (room rec) (write_loop fuel assign table rec out s)
unfolding write_loop
write_loop-Ends zero assign table rec out s tame enough =
    elim (Bool-cases (is_positive16 rec.buflen)) [
      | inl more ↦ absurd (omega (arith, room_more rec more, enough))
      | inr done ↦
          rw (write_loop, done) record { out' = out; s' = s; returns = refl; bounded = omega arith }
    ]
write_loop-Ends (suc fuel) assign table rec out s tame enough =
    elim (Bool-cases (is_positive16 rec.buflen)) [
      | inl more ↦
          let step = parse_attribute_record table (armed assign rec) s in
          let add = status_record rec.buffer step.1.status in
          let less : room step.1 + 3 ≤ room rec = room-parse assign table rec s tame more in
          rw (write_loop, more)
            (more_out out add (write_loop fuel assign table step.1 (out ++ add) step.2)
              (room step.1) (room rec) (length-status_record rec.buffer step.1.status) less
              (write_loop-Ends fuel assign table step.1 (out ++ add) step.2 tame
                (omega (arith, less, enough))))
      | inr done ↦
          rw (write_loop, done) record { out' = out; s' = s; returns = refl; bounded = omega arith }
    ]

write_loop_keeps :
    (fuel : ℕ) (table : Option (List Attribute)) (rec : WriteRec) (out : Bytes) (s : Store)
    (out' : Bytes) (s' : Store)
    → TameTable table
    → write_loop fuel false table rec out s ≡ some (out', s')
    → s' ≡ s
unfolding write_loop armed
write_loop_keeps zero table rec out s out' s' tame ended = ground arith
write_loop_keeps (suc fuel) table rec out s out' s' tame ended =
    let step = parse_attribute_record table (armed false rec) s in
    elim (Bool-cases (is_positive16 rec.buflen)) [
      | inl more ↦
          write_loop_keeps fuel table step.1 (out ++ status_record rec.buffer step.1.status) step.2
            out' s' tame (rw (write_loop, more) at ended)
          ∙ parse_keeps table (armed false rec) s tame refl
      | inr done ↦ sym (ap (λ r. r.1) (some-injective _ _ (rw (write_loop, done) at ended)))
    ]

room-start : (cmd : Command) → room (start_record cmd) ≤ cmd.length + 2
unfolding room start_record
room-start cmd =
    if_ind (λ (n : ℕ). n ≤ cmd.length + 2) (is_positive16 cmd.length) (omega arith) (omega arith)

pub write_pass-Ends :
    (assign : Bool) (cmd : Command) (s : Store)
    → TameTable cmd.attributes
    → Ends [] (cmd.length + 2) (write_pass assign cmd s)
unfolding write_pass
write_pass-Ends assign cmd s tame =
    let ends =
      write_loop-Ends cmd.length assign cmd.attributes (start_record cmd) [] s tame
        (room-start cmd) in
    record {
      out' = ends.out';
      s' = ends.s';
      returns = ends.returns;
      bounded = omega (arith, ends.bounded, room-start cmd);
    }

pub check_pass_keeps :
    (cmd : Command) (s : Store) (out' : Bytes) (s' : Store)
    → TameTable cmd.attributes
    → write_pass false cmd s ≡ some (out', s')
    → s' ≡ s
unfolding write_pass
check_pass_keeps cmd s out' s' tame ended =
    write_loop_keeps cmd.length cmd.attributes (start_record cmd) [] s out' s' tame ended
