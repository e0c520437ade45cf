-- ===== src/Zcl/Record.antt =====
-- One record of a Write Attributes request or a Read Attributes response: zcl_check_minmax and
-- zcl_parse_attribute_record of pxbee/pan/zigbee/zigbee_zcl.c.
pub mod Progress
pub mod Range
use pxbee_open_close.Prelude.{
  ℕ, zero, suc, ◌+◌, ◌-◌, ◌*◌, ◌^◌, ◌%◌, Bool, not, ◌||◌, ◌&&◌, ℤ, pos, negsuc, einval, is_zero,
  Option, none, some, List, [], ◌∷◌, ◌==◌, ltb, if◌then◌else◌, get_or, drop, bit_and, bit_or,
}
use pxbee_open_close.Prelude.Bits.{Bytes, has, le16, sub16, is_neg16}
use pxbee_open_close.Zcl.{
  Attribute, Store, WriteRec, attrib_flag_full, attrib_flag_readonly, attrib_flag_has_min,
  attrib_flag_has_max, write_flag_read_resp,
}
use pxbee_open_close.Zcl.Types.{type_info, sizeof_type, t_invalid, t_signed, t_float}
use pxbee_open_close.Zcl.Attributes.{find_attribute}
use pxbee_open_close.Zcl.Decode.{
  decode_attribute, status_malformed_command, status_unsupported_attribute, status_invalid_value,
  status_invalid_data_type,
}
use pxbee_open_close.Zcl.{status_success}

-- ZCL_STATUS_READ_ONLY
abbrev pub status_read_only : ℕ
status_read_only = 0x88

-- `x > 0` for an int16_t
abbrev pub is_positive16 : ℕ → Bool
is_positive16 x = ltb 0 x && ltb x 32768

-- the value of little-endian bytes, in the low bytes of an uint32_t
unfoldable pub le_value : ℕ → Bytes → ℕ
le_value zero bs = 0
le_value (suc n) [] = 0
le_value (suc n) (b ∷ bs) = b + 256 * le_value n bs

-- `a < b` for the bit patterns of two int32_t
abbrev pub lt_signed : ℕ → ℕ → Bool
lt_signed a b = ltb ((a + 2147483648) % 4294967296) ((b + 2147483648) % 4294967296)

-- `value._unsigned |= (0xFFFFFFFF << sizeof_type)`, if the sign bit of fewer than four bytes is set
unfoldable pub sign_extend : ℕ → Bytes → ℕ → ℕ
sign_extend size buffer value =
    if ltb size 4 && has (get_or buffer (size - 1) 0) 0x80
    then bit_or value ((4294967295 * 2 ^ size) % 4294967296)
    else value

-- 1 for below the minimum, 2 for above the maximum
compare_range : (ℕ → ℕ → Bool) → Attribute → ℕ → ℤ
compare_range less e value =
    if has e.flags attrib_flag_has_min && less value e.min
    then pos 1
    else if has e.flags attrib_flag_has_max && less e.max value
    then pos 2
    else pos 0

check_value : Attribute → Bytes → ℕ → ℤ
unfolding compare_range
check_value e buffer size =
    if ltb size 1 || ltb 4 size || has (type_info e.type) t_float
    then pos 0
    else if has (type_info e.type) t_signed
    then compare_range lt_signed e (sign_extend size buffer (le_value size buffer))
    else compare_range ltb e (le_value size buffer)

-- the buffer is not NULL
unfoldable pub check_minmax : Option Attribute → Bytes → ℤ
unfolding check_value
check_minmax none buffer = einval
check_minmax (some e) buffer =
    if has e.flags (bit_or attrib_flag_has_min attrib_flag_has_max)
    then elim (sizeof_type e.type) [ pos size ↦ check_value e buffer size | negsuc _ ↦ pos 0 ]
    else pos 0

-- the status of a record with a given type for the attribute that was found
judge_size : ℕ → WriteRec → ℕ
judge_size type rec = elim (sizeof_type type) [
  | pos size ↦
      if is_neg16 rec.buflen || ltb rec.buflen size then status_malformed_command else rec.status
  | negsuc _ ↦ rec.status
]

judge : Option Attribute → ℕ → WriteRec → ℕ
unfolding judge_size
judge none type rec = status_unsupported_attribute
judge (some e) type rec =
    if not (e.type == type)
    then (if type_info type == t_invalid
        then status_malformed_command
        else status_invalid_data_type)
    else if has e.flags attrib_flag_readonly
    then status_read_only
    else judge_size type rec

-- the whole judgement, with the range of the value
unfoldable pub record_status : Option Attribute → ℕ → WriteRec → ℕ
unfolding judge
record_status entry type rec =
    let status = judge entry type rec in
    if (status == status_success) && not (is_zero (check_minmax entry rec.buffer))
    then status_invalid_value
    else status

-- the entry that stands in for one that is not assigned to: only `id` and `type` are set
fake_attribute : ℕ → ℕ → Attribute
fake_attribute id type = record {
  id = id;
  flags = 0;
  type = type;
  value = none;
  min = 0;
  max = 0;
  read = none;
  write = none;
}

-- `bytes_read` comes off the buffer
consume : ℕ × WriteRec × Store → WriteRec × Store
consume (bytes_read, rec, s) =
    (record rec { buffer = drop bytes_read rec.buffer; buflen = sub16 rec.buflen bytes_read }, s)

-- the write function of the entry, or zcl_decode_attribute
write_value : Attribute → WriteRec → Store → ℕ × WriteRec × Store
write_value entry rec s =
    if has entry.flags attrib_flag_full
    then elim entry.write [ none ↦ decode_attribute entry rec s | some write ↦ write rec s ]
    else decode_attribute entry rec s

-- The record is judged; `rec` has the status, and its buffer is behind the type.
settle : Option Attribute → ℕ → ℕ → WriteRec → Store → WriteRec × Store
unfolding consume write_value fake_attribute
settle entry id type rec s =
    if rec.status == status_malformed_command
    then (record rec { buflen = 0 }, s)
    else if rec.status == status_success
    then elim entry [ none ↦ (rec, s) | some e ↦ consume (write_value e rec s) ]
    else consume (
        decode_attribute (fake_attribute id type) (record rec { flags = bit_and rec.flags 0xfe }) s)

-- the record behind its id and type, which take `offset` bytes
past_head : ℕ → WriteRec → WriteRec
past_head offset rec = record rec {
  buffer = drop offset rec.buffer;
  buflen = sub16 rec.buflen offset;
}

-- ... with the status that it gets
judged : Option (List Attribute) → ℕ → ℕ → WriteRec → WriteRec
unfolding past_head
judged entries offset id rec =
    let at_value = past_head offset rec in
    let type = get_or rec.buffer (offset - 1) 0 in
    record at_value { status = record_status (find_attribute entries id) type at_value }

parse_at : Option (List Attribute) → ℕ → ℕ → WriteRec → Store → WriteRec × Store
unfolding settle judged
parse_at entries offset id rec s =
    if is_neg16 rec.buflen || ltb rec.buflen offset
    then (record rec { status = status_malformed_command; buflen = 0 }, s)
    else let type = get_or rec.buffer (offset - 1) 0 in
      settle (find_attribute entries id) id type (judged entries offset id rec) s

-- the return value, the number of bytes consumed, comes first
parsed : WriteRec → WriteRec × Store → ℕ × WriteRec × Store
parsed rec (rec', s') = (sub16 rec.buflen rec'.buflen, rec', s')

-- for a record of a Read Attributes response, or of a Write Attributes request
parse_as : Bool → Option (List Attribute) → WriteRec → Store → ℕ × WriteRec × Store
unfolding parse_at parsed
parse_as response entries rec s =
    let id = le16 (get_or rec.buffer 0 0) (get_or rec.buffer 1 0) in
    if response && not (get_or rec.buffer 2 0 == status_success)
    then (3, record rec { buffer = drop 3 rec.buffer }, s)
    else parsed rec (parse_at entries (if response then 4 else 3) id rec s)

-- for a record that is not NULL
unfoldable pub parse_attribute_record :
    Option (List Attribute) → WriteRec → Store → ℕ × WriteRec × Store
unfolding parse_as
parse_attribute_record entries rec s = parse_as (has rec.flags write_flag_read_resp) entries rec s
