-- ===== src/Zcl/Record/Progress.antt =====
-- How zcl_parse_attribute_record moves on, whatever the record holds, and that it assigns nothing
-- unless it is asked to.
use mathlib.Core.Path.{subst}
use pxbee_open_close.Prelude.{if_ind}
use pxbee_open_close.Prelude.{
  sym, ap, ℕ, ◌+◌, ◌-◌, true, false, ◌||◌, ◌==◌, ◌≡◌, refl, ◌≤◌, ◌<◌, arith, ltb, List, Option,
  none, some, Bool-cases, Option-cases, inl, inr, All, get_or, bit_and, ◌∙◌,
}
use pxbee_open_close.Prelude.Bits.{sub16, is_neg16, has, le16}
use pxbee_open_close.Zcl.{
  Attribute, Store, WriteRec, attrib_flag_full, write_flag_assign, write_flag_read_resp,
}
use pxbee_open_close.Zcl.Attributes.{find_attribute}
use pxbee_open_close.Zcl.Attributes.Members.{find_attribute-All, find_attribute-none}
use pxbee_open_close.Zcl.Decode.{decode_attribute, status_malformed_command}
use pxbee_open_close.Zcl.{status_success}
use pxbee_open_close.Zcl.Decode.Bounds.{IsTame, decode_attribute-IsTame}
use pxbee_open_close.Zcl.Record.{
  consume, write_value, settle, judged, parse_at, parse_attribute_record, fake_attribute, parse_as,
  is_positive16,
}

-- The write functions of a table are tame.
abbrev pub TameEntry : Attribute → Type 0
TameEntry e = (f : WriteRec → Store → ℕ × WriteRec × Store) → e.write ≡ some f → IsTame f

abbrev pub TameTable : Option (List Attribute) → Type 0
TameTable none = Unit
TameTable (some es) = All TameEntry es

find_attribute-Tame :
    (table : Option (List Attribute)) (id : ℕ) (e : Attribute)
    → TameTable table
    → find_attribute table id ≡ some e
    → TameEntry e
find_attribute-Tame none id e tame found = absurd (find_attribute-none id e found)
find_attribute-Tame (some es) id e tame found = find_attribute-All TameEntry id es e tame found

write_value-IsTame : (e : Attribute) → TameEntry e → IsTame (write_value e)
unfolding write_value
write_value-IsTame e tame = elim (Bool-cases (has e.flags attrib_flag_full)) [
  | inl full ↦ elim (Option-cases e.write) [
    | inl absent ↦ rw (write_value, full, absent) (decode_attribute-IsTame e)
    | inr (f, present) ↦ rw (write_value, full, present) (tame f present)
  ]
  | inr base ↦ rw (write_value, base) (decode_attribute-IsTame e)
]

-- If anything is left to parse, it is no more than it was.
abbrev Shrinks : ℕ → WriteRec × Store → Type 0
Shrinks bound r = is_positive16 r.0.buflen ≡ true → r.0.buflen ≤ bound

consume-Shrinks :
    (f : WriteRec → Store → ℕ × WriteRec × Store) (rec : WriteRec) (s : Store)
    → IsTame f
    → rec.buflen < 32768
    → Shrinks rec.buflen (consume (f rec s))
unfolding consume
consume-Shrinks f rec s tame short positive =
    let small = tame.small rec s short in let shrinks = tame.shrinks rec s short in ground arith

cut-Shrinks :
    (bound : ℕ) (rec : WriteRec) (s : Store) → Shrinks bound (record rec { buflen = 0 }, s)
cut-Shrinks bound rec s positive = omega arith

settle-Shrinks :
    (entry : Option Attribute) (id type : ℕ) (rec : WriteRec) (s : Store)
    → ((e : Attribute) → entry ≡ some e → TameEntry e)
    → rec.buflen < 32768
    → Shrinks rec.buflen (settle entry id type rec s)
unfolding settle
settle-Shrinks entry id type rec s tame short =
    if_ind (Shrinks rec.buflen) (rec.status == status_malformed_command)
      (cut-Shrinks rec.buflen rec s)
      (if_ind (Shrinks rec.buflen) (rec.status == status_success)
        elim (Option-cases entry) [
          | inl null ↦ rw (settle, null) (λ positive. omega arith)
          | inr (e, is_e) ↦
              rw (settle, is_e)
                (consume-Shrinks (write_value e) rec s (write_value-IsTame e (tame e is_e)) short)
        ]
        (consume-Shrinks (decode_attribute (fake_attribute id type))
          (record rec { flags = bit_and rec.flags 0xfe }) s
          (decode_attribute-IsTame (fake_attribute id type)) short))

sub16_le : (a b : ℕ) → a < 32768 → ltb a b ≡ false → sub16 a b + b ≡ a
sub16_le a b short enough = ground arith

weaken : (a b : ℕ) (r : WriteRec × Store) → a ≤ b → Shrinks a r → Shrinks b r
weaken a b r less h positive = omega (arith, h positive)

parse_at-Shrinks :
    (table : Option (List Attribute)) (offset id : ℕ) (rec : WriteRec) (s : Store)
    → TameTable table
    → rec.buflen < 32768
    → Shrinks (rec.buflen - offset) (parse_at table offset id rec s)
unfolding parse_at judged
parse_at-Shrinks table offset id rec s tame short =
    elim (Bool-cases (is_neg16 rec.buflen || ltb rec.buflen offset)) [
      | inl cut ↦ rw (parse_at, cut) (λ positive. omega arith)
      | inr enough ↦
          let left : sub16 rec.buflen offset + offset ≡ rec.buflen =
            sub16_le rec.buflen offset short (ground arith) in
          rw (parse_at, enough)
            (weaken (sub16 rec.buflen offset) (rec.buflen - offset)
              (settle (find_attribute table id) id (get_or rec.buffer (offset - 1) 0)
                (judged table offset id rec) s)
              (omega (arith, left))
              (settle-Shrinks (find_attribute table id) id (get_or rec.buffer (offset - 1) 0)
                (judged table offset id rec) s
                (λ e found. find_attribute-Tame table id e tame found)
                (omega (arith, left, short))))
    ]

-- the two bytes that say which attribute a record is about
abbrev record_id : WriteRec → ℕ
record_id rec = le16 (get_or rec.buffer 0 0) (get_or rec.buffer 1 0)

parse_request :
    (table : Option (List Attribute)) (rec : WriteRec) (s : Store)
    → has rec.flags write_flag_read_resp ≡ false
    → ((parse_attribute_record table rec s).1, (parse_attribute_record table rec s).2)
      ≡ parse_at table 3 (record_id rec) rec s
unfolding parse_attribute_record parse_as
parse_request table rec s request =
    ap (λ response. ((parse_as response table rec s).1, (parse_as response table rec s).2)) request

-- A record of a Write Attributes request takes three bytes at least.
pub parse-Shrinks :
    (table : Option (List Attribute)) (rec : WriteRec) (s : Store)
    → TameTable table
    → rec.buflen < 32768
    → has rec.flags write_flag_read_resp ≡ false
    → is_positive16 (parse_attribute_record table rec s).1.buflen ≡ true
    → (parse_attribute_record table rec s).1.buflen ≤ rec.buflen - 3
parse-Shrinks table rec s tame short request =
    subst (Shrinks (rec.buflen - 3)) (sym (parse_request table rec s request))
      (parse_at-Shrinks table 3 (record_id rec) rec s tame short)

consume_memory : (r : ℕ × WriteRec × Store) → (consume r).1 ≡ r.2
unfolding consume
consume_memory r = refl

settle_keeps :
    (entry : Option Attribute) (id type : ℕ) (rec : WriteRec) (s : Store)
    → ((e : Attribute) → entry ≡ some e → TameEntry e)
    → rec.flags ≡ 0
    → (settle entry id type rec s).1 ≡ s
unfolding settle
settle_keeps entry id type rec s tame check =
    let P : WriteRec × Store → Type 0 = λ r. r.1 ≡ s in
    let unasked : has rec.flags write_flag_assign ≡ false = rw check refl in
    if_ind P (rec.status == status_malformed_command) refl (
      if_ind P (rec.status == status_success)
        elim (Option-cases entry) [
          | inl null ↦ rw (settle, null) refl
          | inr (e, is_e) ↦
              rw (settle, is_e)
                (consume_memory (write_value e rec s)
                  ∙ (write_value-IsTame e (tame e is_e)).keeps rec s unasked)
        ]
        (consume_memory (
            decode_attribute (fake_attribute id type)
              (record rec { flags = bit_and rec.flags 0xfe }) s)
          ∙ (decode_attribute-IsTame (fake_attribute id type)).keeps
              (record rec { flags = bit_and rec.flags 0xfe }) s (rw check refl)))

parse_at_keeps :
    (table : Option (List Attribute)) (id : ℕ) (rec : WriteRec) (s : Store)
    → TameTable table
    → rec.flags ≡ 0
    → (parse_at table 3 id rec s).1 ≡ s
unfolding parse_at judged
parse_at_keeps table id rec s tame check =
    let P : WriteRec × Store → Type 0 = λ r. r.1 ≡ s in
    if_ind P (is_neg16 rec.buflen || ltb rec.buflen 3) refl (
      settle_keeps (find_attribute table id) id (get_or rec.buffer 2 0) (judged table 3 id rec) s
        (λ e found. find_attribute-Tame table id e tame found) check)

-- Without the flag to assign the memory stays as it is.
pub parse_keeps :
    (table : Option (List Attribute)) (rec : WriteRec) (s : Store)
    → TameTable table
    → rec.flags ≡ 0
    → (parse_attribute_record table rec s).2 ≡ s
parse_keeps table rec s tame check =
    subst (λ (r : WriteRec × Store). r.1 ≡ s) (sym (parse_request table rec s (rw check refl)))
      (parse_at_keeps table (record_id rec) rec s tame check)
