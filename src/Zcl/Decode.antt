-- ===== src/Zcl/Decode.antt =====
-- Bytes of a message to values: zcl_convert_24bit and zcl_decode_attribute of
-- pxbee/pan/zigbee/zigbee_zcl.c, for a big-endian host.
pub mod Laws
pub mod Bounds
use pxbee_open_close.Prelude.{
  ℕ, ◌+◌, ◌%◌, Bool, not, ◌||◌, ◌&&◌, pos, negsuc, Option, none, some, [], ◌∷◌, ◌++◌, ◌==◌, ltb,
  leb, if◌then◌else◌, get_or, take, drop,
}
use mathlib.Core.List.{reverse}
use pxbee_open_close.Prelude.Bits.{Bytes, has, is_neg16}
use pxbee_open_close.Zcl.{status_success}
use pxbee_open_close.Zcl.{
  Attribute, Store, WriteRec, attrib_flag_raw, attrib_flag_full, write_flag_assign,
}
use pxbee_open_close.Zcl.Types.{
  type_info, sizeof_type, t_invalid, is_24bit, logical_boolean, string_char, signed_24bit,
}
use pxbee_open_close.Zcl.Memory.{store_bytes}
use pxbee_open_close.Zcl.Encode.{status_defined_out_of_band}

-- ZCL_STATUS_MALFORMED_COMMAND, ZCL_STATUS_UNSUPPORTED_ATTRIBUTE,
-- ZCL_STATUS_INVALID_VALUE and ZCL_STATUS_INVALID_DATA_TYPE
abbrev pub status_malformed_command : ℕ
status_malformed_command = 0x80

abbrev pub status_unsupported_attribute : ℕ
status_unsupported_attribute = 0x86

abbrev pub status_invalid_value : ℕ
status_invalid_value = 0x87

abbrev pub status_invalid_data_type : ℕ
status_invalid_data_type = 0x8d

-- The four bytes of the result as they lie in memory; the pointer is not NULL.
unfoldable pub convert_24bit : Bytes → Bool → Bytes
convert_24bit value_le extend_sign =
    let b = get_or value_le in
    (if has (b 2 0) 0x80 && extend_sign then 0xff else 0) ∷ b 2 0 ∷ b 1 0 ∷ b 0 0 ∷ []

-- what one case of the `switch` leaves: retval, newstatus and the memory
pub record Outcome : Type 0 where
  pub retval : ℕ
  pub newstatus : ℕ
  pub after : Store

-- an assignment to `entry->value`, where there is one
assign_to : Option ℕ → Bytes → Store → Store
assign_to none bs s = s
assign_to (some p) bs s = store_bytes s p bs

-- a value of three bytes
decode_24bit : Attribute → Option ℕ → Bytes → ℕ → Store → Outcome
unfolding assign_to
decode_24bit entry target buffer newstatus s = record {
  retval = 3;
  newstatus = newstatus;
  after =
      if has entry.flags attrib_flag_raw
      then assign_to target (take 3 buffer) s
      else assign_to target (convert_24bit buffer (entry.type == signed_24bit)) s;
}

-- the case for most types
decode_default : Attribute → Option ℕ → Bytes → ℕ → Store → Outcome
unfolding assign_to
decode_default entry target buffer newstatus s =
    if type_info entry.type == t_invalid
    then record { retval = 0; newstatus = status_unsupported_attribute; after = s }
    else elim (sizeof_type entry.type) [
      | pos size ↦ record {
        retval = size;
        newstatus = newstatus;
        after =
            if has entry.flags attrib_flag_raw
            then assign_to target (take size buffer) s
            else assign_to target (reverse (take size buffer)) s;
      }
      | negsuc _ ↦ record { retval = 0; newstatus = newstatus; after = s }
    ]

-- `maxlength && length > maxlength`, for an int of 16 bits that the low half of `max` gives
over_max : Attribute → ℕ → Bool
over_max entry length =
    let maxlength = entry.max % 65536 in
    has entry.flags attrib_flag_full
    && not (maxlength == 0)
    && (is_neg16 maxlength || ltb maxlength length)

decode_string : Attribute → Option ℕ → Bytes → ℕ → ℕ → Store → Outcome
unfolding assign_to over_max
decode_string entry target buffer buflen newstatus s =
    let length = get_or buffer 0 0 in
    if is_neg16 buflen || leb buflen length
    then record { retval = buflen; newstatus = status_malformed_command; after = s }
    else if over_max entry length
    then record { retval = length + 1; newstatus = status_invalid_value; after = s }
    else record {
      retval = length + 1;
      newstatus = newstatus;
      after = assign_to target (take length (drop 1 buffer) ++ (0 ∷ [])) s;
    }

-- the `switch`; `target` is `entry->value` if it is assigned to
decode_switch : Attribute → Option ℕ → WriteRec → ℕ → Store → Outcome
unfolding decode_24bit decode_default decode_string
decode_switch entry target rec newstatus s =
    if is_24bit entry.type
    then decode_24bit entry target rec.buffer newstatus s
    else if (entry.type == logical_boolean) && has (get_or rec.buffer 0 0) 0xfe
    then decode_default entry none rec.buffer status_invalid_value s
    else if entry.type == string_char
    then decode_string entry target rec.buffer rec.buflen newstatus s
    else if (entry.type == 0x00) || (entry.type == 0xff)
    then record { retval = 0; newstatus = status_invalid_data_type; after = s }
    else decode_default entry target rec.buffer newstatus s

decoded : WriteRec → Outcome → ℕ × WriteRec × Store
decoded rec o = (
  o.retval,
  (if rec.status == status_success then record rec { status = o.newstatus } else rec),
  o.after,
)

-- for an entry and a record that are not NULL; the number of bytes consumed is an int of 16 bits
unfoldable pub decode_attribute : Attribute → WriteRec → Store → ℕ × WriteRec × Store
unfolding decode_switch decoded
decode_attribute entry rec s =
    if has rec.flags write_flag_assign
    then elim entry.value [
      | none ↦ decoded rec (decode_switch entry none rec status_defined_out_of_band s)
      | some p ↦ decoded rec (decode_switch entry (some p) rec rec.status s)
    ]
    else decoded rec (decode_switch entry none rec rec.status s)
