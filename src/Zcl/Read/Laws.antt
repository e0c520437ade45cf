-- ===== src/Zcl/Read/Laws.antt =====
-- The answer to a Read Attributes request: how long it gets, and the frame that goes out.
use pxbee_open_close.Prelude.{
  ℕ, zero, suc, ◌+◌, ◌-◌, ◌≡◌, refl, ◌≤◌, arith, ltb, Option, none, some, List, [], ◌++◌, length,
  length-append, Bool-cases, inl, inr, All, get_or, drop,
}
use pxbee_open_close.Prelude.Bits.{Bytes, has, le16}
use pxbee_open_close.Zcl.{Attribute, Store, attrib_flag_writeonly}
use pxbee_open_close.Zcl.Attributes.{find_attribute}
use pxbee_open_close.Zcl.Attributes.Members.{find_attribute-All, find_attribute-none}
use pxbee_open_close.Zcl.Encode.{Encoded, encode_attribute_value}
use pxbee_open_close.Zcl.Encode.Bounds.{Within, fits, fails, IsScalar, encode-Within}
use pxbee_open_close.Zcl.Read.{
  Step, adds, stops, encoded_step, read_record, read_records, response_buffer, after_record,
}

-- What a request adds: it leaves the end of the buffer by two bytes at most, where there were three
-- bytes left of it.
data IsAdded (bytesleft : ℕ) : Step → Type 0 where
  more : {v : Bytes} → length v ≤ bytesleft + 4 → IsAdded bytesleft (adds v)
  last : {v : Bytes} → length v ≤ bytesleft + 4 → IsAdded bytesleft (stops v)

encoded-IsAdded :
    (lo hi type bytesleft : ℕ) (e : Encoded) (bound : ℕ)
    → bound + 4 ≤ bytesleft + 4
    → Within bound e
    → IsAdded bytesleft (encoded_step lo hi type e)
unfolding encoded_step
encoded-IsAdded lo hi type bytesleft e bound less (fits h) = more (omega arith)
encoded-IsAdded lo hi type bytesleft e bound less fails = last (omega arith)

abbrev pub ScalarTable : Option (List Attribute) → Type 0
ScalarTable none = Unit
ScalarTable (some es) = All IsScalar es

record-IsAdded :
    (depth : ℕ) (entry : Option Attribute) (lo hi bytesleft : ℕ) (s : Store)
    → ((e : Attribute) → entry ≡ some e → IsScalar e)
    → 1 ≤ bytesleft
    → IsAdded bytesleft (read_record depth entry lo hi bytesleft s).0
unfolding read_record
record-IsAdded depth none lo hi bytesleft s scalar left = more (omega arith)
record-IsAdded depth (some e) lo hi bytesleft s scalar left =
    elim (Bool-cases (has e.flags attrib_flag_writeonly)) [
      | inl hidden ↦ rw (read_record, hidden) (more (omega arith))
      | inr readable ↦
          rw (read_record, readable)
            (encoded-IsAdded lo hi e.type bytesleft
              (encode_attribute_value depth (bytesleft - 2) e s).0 bytesleft (omega arith)
              (encode-Within depth (bytesleft - 2) e s bytesleft (scalar e refl) (omega arith)
                left))
    ]

find-IsScalar :
    (table : Option (List Attribute)) (id : ℕ)
    → ScalarTable table
    → (e : Attribute) → find_attribute table id ≡ some e
    → IsScalar e
find-IsScalar none id scalar e found = absurd (find_attribute-none id e found)
find-IsScalar (some es) id scalar e found = find_attribute-All IsScalar id es e scalar found

-- the loop ends, with two bytes behind the end of the buffer at most
record Answers (r : Option (Bytes × Store)) : Type 0 where
  pub out' : Bytes
  pub s' : Store
  pub returns : r ≡ some (out', s')
  pub bounded : length out' ≤ response_buffer + 2

after_record-Answers :
    (out : Bytes) (continue : Bytes → Store → Option (Bytes × Store)) (bytesleft : ℕ) (step : Step)
    (s : Store)
    → ((out' : Bytes) → length out' ≤ response_buffer + 2 → Answers (continue out' s))
    → length out + bytesleft + 2 ≡ response_buffer
    → IsAdded bytesleft step
    → Answers (after_record out continue (step, s))
unfolding after_record
after_record-Answers out continue bytesleft step s go exact (more {v} h) =
    go (out ++ v) (omega (arith, length-append out v))
after_record-Answers out continue bytesleft step s go exact (last {v} h) = record {
  out' = out ++ v;
  s' = s;
  returns = refl;
  bounded = omega (arith, length-append out v);
}

read_records-Answers :
    (depth : ℕ) (table : Option (List Attribute)) (requests : ℕ) (ids out : Bytes) (s : Store)
    → ScalarTable table
    → length out ≤ response_buffer + 2
    → Answers (read_records depth table requests ids out s)
unfolding read_records
read_records-Answers depth table zero ids out s scalar below = record {
  out' = out;
  s' = s;
  returns = refl;
  bounded = below;
}
read_records-Answers depth table (suc requests) ids out s scalar below =
    elim (Bool-cases (ltb (response_buffer - length out) 3)) [
      | inl full ↦
          rw (read_records, full) record { out' = out; s' = s; returns = refl; bounded = below }
      | inr left ↦
          let lo = get_or ids 0 0 in
          let hi = get_or ids 1 0 in
          let bytesleft = response_buffer - length out - 2 in
          let entry = find_attribute table (le16 lo hi) in
          let step = read_record depth entry lo hi bytesleft s in
          let enough : 3 ≤ response_buffer - length out = ground arith in
          rw (read_records, left)
            (after_record-Answers out
              (λ out' s'. read_records depth table requests (drop 2 ids) out' s') bytesleft step.0
              step.1
              (λ out' below'.
                read_records-Answers depth table requests (drop 2 ids) out' step.1 scalar below')
              (omega arith)
              (record-IsAdded depth entry lo hi bytesleft s
                (find-IsScalar table (le16 lo hi) scalar) (omega arith)))
    ]

-- The loop over the requests of any payload ends in a response if no attribute of the table is an
-- array or a structure. The response is at most two bytes longer than the buffer of 80 bytes that
-- the handler has for it.
pub read_records_lem :
    (depth : ℕ) (table : Option (List Attribute)) (requests : ℕ) (ids : Bytes) (s : Store)
    → ScalarTable table
    → (out : Bytes) × (s' : Store) × (read_records depth table requests ids [] s ≡ some (out, s'))
      × (length out ≤ response_buffer + 2)
read_records_lem depth table requests ids s scalar =
    let answers = read_records-Answers depth table requests ids [] s scalar (omega arith) in
    (answers.out', answers.s', answers.returns, answers.bounded)
