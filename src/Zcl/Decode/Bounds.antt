-- ===== src/Zcl/Decode/Bounds.antt =====
-- How much zcl_decode_attribute consumes, and that it assigns nothing unless it is asked to.
use pxbee_open_close.Prelude.{
  ℕ, zero, suc, ◌+◌, Bool, true, false, pos, negsuc, List, [], ◌∷◌, ◌==◌, ◌≡◌, refl, ◌≤◌, ◌<◌,
  arith, leb, ltb, none, some, ◌||◌, ◌&&◌, ℤ-cases, Option-cases, get_or, length, Bool-cases, inl,
  inr, Option,
}
use pxbee_open_close.Prelude.Bits.{Bytes, has, tested_below, tested_below_lem, is_neg16}
use pxbee_open_close.Zcl.{Attribute, Store, WriteRec, write_flag_assign, attrib_flag_raw}
use pxbee_open_close.Zcl.Types.{
  type_info, sizeof_type, t_invalid, is_24bit, logical_boolean, string_char, type_info_table,
}
use pxbee_open_close.Zcl.Types.Sizes.{table_length}
use pxbee_open_close.Prelude.{if_ind}
use pxbee_open_close.Zcl.Decode.{
  Outcome, decode_attribute, decode_switch, decode_default, decode_string, decoded,
  status_invalid_value, status_defined_out_of_band, over_max,
}
use pxbee_open_close.Zcl.{status_success}

get_or-beyond : (xs : List ℕ) (i d : ℕ) → length xs ≤ i → get_or xs i d ≡ d
get_or-beyond [] i d h = refl
get_or-beyond (x ∷ xs) zero d h = absurd (omega arith)
get_or-beyond (x ∷ xs) (suc i) d h = get_or-beyond xs i d (omega arith)

size_ok : ℕ → Bool
size_ok type = elim (sizeof_type type) [ pos n ↦ leb n 16 | negsuc _ ↦ true ]

size_table : tested_below size_ok 256 ≡ true
unfolding tested_below size_ok sizeof_type type_info type_info_table
size_table = refl

size_beyond : (type : ℕ) → length type_info_table ≤ type → size_ok type ≡ true
unfolding size_ok sizeof_type type_info
size_beyond type h =
    rw (size_ok, sizeof_type, type_info, get_or-beyond type_info_table type t_invalid h) refl

size_ok-true : (type : ℕ) → size_ok type ≡ true
size_ok-true type = elim (Bool-cases (ltb type 256)) [
  | inl below ↦ tested_below_lem size_ok 256 type size_table (ground arith)
  | inr above ↦ size_beyond type (rw table_length (ground arith))
]

-- No type has a fixed size of more than 16 bytes.
pub sizeof_type-le : (type n : ℕ) → sizeof_type type ≡ pos n → n ≤ 16
unfolding size_ok
sizeof_type-le type n e =
    let known : size_ok type ≡ true = size_ok-true type in
    let below : leb n 16 ≡ true = rw (size_ok, e) at known in ground arith

abbrev IsSmall : Outcome → Type 0
IsSmall o = o.retval < 32768

default-IsSmall :
    (e : Attribute) (target : Option ℕ) (buffer : Bytes) (status : ℕ) (s : Store)
    → IsSmall (decode_default e target buffer status s)
unfolding decode_default
default-IsSmall e target buffer status s =
    if_ind IsSmall (type_info e.type == t_invalid) (omega arith)
      elim (ℤ-cases (sizeof_type e.type)) [
        | inl (n, sized) ↦ rw (decode_default, sized) (omega (arith, sizeof_type-le e.type n sized))
        | inr (n, sized) ↦ rw (decode_default, sized) (omega arith)
      ]

string-IsSmall :
    (e : Attribute) (target : Option ℕ) (buffer : Bytes) (buflen status : ℕ) (s : Store)
    → buflen < 32768
    → IsSmall (decode_string e target buffer buflen status s)
unfolding decode_string
string-IsSmall e target buffer buflen status s short =
    elim (Bool-cases (is_neg16 buflen || leb buflen (get_or buffer 0 0))) [
      | inl cut ↦ rw (decode_string, cut) short
      | inr whole ↦
          let fits : get_or buffer 0 0 + 1 < 32768 = ground arith in
          rw (decode_string, whole) (if_ind IsSmall (over_max e (get_or buffer 0 0)) fits fits)
    ]

switch-IsSmall :
    (e : Attribute) (target : Option ℕ) (rec : WriteRec) (status : ℕ) (s : Store)
    → rec.buflen < 32768
    → IsSmall (decode_switch e target rec status s)
unfolding decode_switch
switch-IsSmall e target rec status s short = if_ind IsSmall (is_24bit e.type) (omega arith) (
    if_ind IsSmall ((e.type == logical_boolean) && has (get_or rec.buffer 0 0) 0xfe)
      (default-IsSmall e none rec.buffer status_invalid_value s)
      (if_ind IsSmall (e.type == string_char)
        (string-IsSmall e target rec.buffer rec.buflen status s short)
        (if_ind IsSmall ((e.type == 0x00) || (e.type == 0xff)) (omega arith)
          (default-IsSmall e target rec.buffer status s))))

-- the memory is as before if there is no variable to assign to
default_keeps :
    (e : Attribute) (buffer : Bytes) (status : ℕ) (s : Store)
    → (decode_default e none buffer status s).after ≡ s
unfolding decode_default
default_keeps e buffer status s =
    if_ind (λ (o : Outcome). o.after ≡ s) (type_info e.type == t_invalid) refl
      elim (ℤ-cases (sizeof_type e.type)) [
        | inl (n, sized) ↦
            rw (decode_default, sized) (if_ind (λ x. x ≡ s) (has e.flags attrib_flag_raw) refl refl)
        | inr (n, sized) ↦ rw (decode_default, sized) refl
      ]

switch_keeps :
    (e : Attribute) (rec : WriteRec) (status : ℕ) (s : Store)
    → (decode_switch e none rec status s).after ≡ s
unfolding decode_switch
switch_keeps e rec status s =
    let P : Outcome → Type 0 = λ o. o.after ≡ s in
    if_ind P (is_24bit e.type) (if_ind (λ x. x ≡ s) (has e.flags attrib_flag_raw) refl refl) (
      if_ind P ((e.type == logical_boolean) && has (get_or rec.buffer 0 0) 0xfe)
        (default_keeps e rec.buffer status_invalid_value s)
        (if_ind P (e.type == string_char)
          (if_ind P (is_neg16 rec.buflen || leb rec.buflen (get_or rec.buffer 0 0)) refl
            (if_ind P (over_max e (get_or rec.buffer 0 0)) refl refl))
          (if_ind P ((e.type == 0x00) || (e.type == 0xff)) refl
            (default_keeps e rec.buffer status s))))

-- What the loop over the records relies on, for zcl_decode_attribute and for the functions that
-- entries have in its place: the bytes consumed fit an int, the length of the record does not grow,
-- and without the flag nothing is assigned.
pub record IsTame (f : WriteRec → Store → ℕ × WriteRec × Store) : Type 0 where
  pub small : (rec : WriteRec) (s : Store) → rec.buflen < 32768 → (f rec s).0 < 32768
  pub shrinks : (rec : WriteRec) (s : Store) → rec.buflen < 32768 → (f rec s).1.buflen ≤ rec.buflen
  pub keeps :
      (rec : WriteRec) (s : Store) → has rec.flags write_flag_assign ≡ false → (f rec s).2 ≡ s

decoded_buflen : (rec : WriteRec) (o : Outcome) → (decoded rec o).1.buflen ≡ rec.buflen
unfolding decoded
decoded_buflen rec o =
    if_ind (λ (r : WriteRec). r.buflen ≡ rec.buflen) (rec.status == status_success) refl refl

decode_is_switch :
    (e : Attribute) (rec : WriteRec) (s : Store)
    → (target : Option ℕ) × (status : ℕ) × (decode_attribute e rec s
        ≡ decoded rec (decode_switch e target rec status s))
unfolding decode_attribute
decode_is_switch e rec s = elim (Bool-cases (has rec.flags write_flag_assign)) [
  | inl assign ↦ elim (Option-cases e.value) [
    | inl null ↦ (none, status_defined_out_of_band, rw (decode_attribute, assign, null) refl)
    | inr (p, at) ↦ (some p, rec.status, rw (decode_attribute, assign, at) refl)
  ]
  | inr check ↦ (none, rec.status, rw (decode_attribute, check) refl)
]

pub decode_attribute-IsTame : (e : Attribute) → IsTame (decode_attribute e)
unfolding decode_attribute decoded
decode_attribute-IsTame e = record {
  small = λ rec s short.
      let (target, status, same) = decode_is_switch e rec s in
      rw same (switch-IsSmall e target rec status s short);
  shrinks = λ rec s short.
      let (target, status, same) = decode_is_switch e rec s in
      rw same (omega (arith, decoded_buflen rec (decode_switch e target rec status s)));
  keeps = λ rec s check. rw (decode_attribute, check) (switch_keeps e rec rec.status s);
}
