-- ===== src/Zcl/Encode.antt =====
-- Values to the bytes of a message: zcl_encode_attribute_value, _zcl_encode_array_value and
-- _zcl_encode_struct_value of pxbee/pan/zigbee/zigbee_zcl.c, for a big-endian host.
-- `room` is `bufsize`. It can be negative in the code, which only asks whether it is below a bound
-- of at least 1, so the model's subtraction, which stops at 0, decides the same.
pub mod Bounds
use pxbee_open_close.Prelude.{
  ℕ, zero, suc, ◌+◌, ◌-◌, ◌/◌, ◌%◌, Bool, ◌||◌, pos, negsuc, none, some, List, [], ◌∷◌, ◌++◌, ◌==◌,
  ltb, if◌then◌else◌, length,
}
use mathlib.Core.List.{reverse}
use pxbee_open_close.Prelude.Bits.{Bytes, has}
use pxbee_open_close.Zcl.{Attribute, Store, ArrayValue, StructValue, StructElement}
use pxbee_open_close.Zcl.{attrib_flag_raw, attrib_flag_full}
use pxbee_open_close.Zcl.Types.{
  type_info, sizeof_type, t_invalid, is_24bit, logical_boolean, string_char, type_array,
  type_struct, type_set, type_bag,
}
use pxbee_open_close.Zcl.Memory.{load}

-- ZCL_STATUS_INSUFFICIENT_SPACE and ZCL_STATUS_DEFINED_OUT_OF_BAND
abbrev pub status_insufficient_space : ℕ
status_insufficient_space = 0x89

abbrev pub status_defined_out_of_band : ℕ
status_defined_out_of_band = 0x91

-- `written bs` is the return of the number of bytes, the bytes `bs` being in the buffer; `failed s`
-- the return of -s. `too_deep` stands for values nested deeper than the model follows.
pub data Encoded : Type 0 where
  written : Bytes → Encoded
  failed : ℕ → Encoded
  too_deep : Encoded

-- the characters up to the terminating 0, `left` at most
unfoldable pub characters : (ℕ → ℕ) → ℕ → ℕ → Bytes
characters m p zero = []
characters m p (suc left) =
    let rest = characters m (p + 1) left in if m p == 0 then [] else m p ∷ rest

-- The first byte is the length. It is written when no character is left, even into no room.
unfoldable pub encode_string : (ℕ → ℕ) → ℕ → ℕ → Encoded
encode_string m room p =
    let chars = characters m p (room - 1) in
    if m (p + length chars) == 0
    then written ((length chars % 256) ∷ chars)
    else failed status_insufficient_space

-- the `switch` on the type; `size` is sizeof_type where that is not negative
encode_switch : (ℕ → ℕ) → ℕ → ℕ → ℕ → ℕ → Encoded
encode_switch m room type size p =
    if type == logical_boolean
    then written ((if m p == 0 then 0 else 1) ∷ [])
    else if type == string_char
    then encode_string m room p
    else if is_24bit type
    then written (reverse (load m (p + 1) 3))
    else if type_info type == t_invalid
    then failed 0x01
    else written (reverse (load m p size))

unfoldable pub encode_scalar : (ℕ → ℕ) → ℕ → ℕ → ℕ → ℕ → Encoded
unfolding encode_switch
encode_scalar m room type flags p = elim (sizeof_type type) [
  | pos size ↦
      if ltb room size
      then failed status_insufficient_space
      else if has flags attrib_flag_raw
      then written (load m p size)
      else encode_switch m room type size p
  | negsuc _ ↦ encode_switch m room type 0 p
]

-- `room`, type and address to the encoding of an element
abbrev pub Encoder : Type 0
Encoder = ℕ → ℕ → ℕ → Encoded

low_high : ℕ → Bytes
low_high n = (n % 256) ∷ ((n / 256) % 256) ∷ []

-- the loop over the elements of an array, `out` being what is written so far
encode_items : Encoder → ArrayValue → ℕ → Bytes → ℕ → ℕ → Encoded
encode_items enc a room out p zero = written out
encode_items enc a room out p (suc left) = elim (enc (room - length out) a.type p) [
  | written v ↦ encode_items enc a room (out ++ v) (p + a.element_size) left
  | failed s ↦ failed s
  | too_deep ↦ too_deep
]

unfoldable pub encode_array : Encoder → ℕ → ArrayValue → Encoded
unfolding encode_items low_high
encode_array enc room a =
    if ltb room 3
    then failed status_insufficient_space
    else encode_items enc a room (a.type ∷ low_high a.current_count) a.value a.current_count

-- the loop over the elements of a structure
encode_members : Encoder → ℕ → ℕ → Bytes → List StructElement → Encoded
encode_members enc base room out [] = written out
encode_members enc base room out (e ∷ es) =
    if length out == room
    then failed status_insufficient_space
    else elim (enc (room - (length out + 1)) e.zcl_type (base + e.offset)) [
      | written v ↦ encode_members enc base room (out ++ (e.zcl_type ∷ v)) es
      | failed s ↦ failed s
      | too_deep ↦ too_deep
    ]

unfoldable pub encode_struct : Encoder → ℕ → StructValue → Encoded
unfolding encode_members low_high
encode_struct enc room s =
    if ltb room 2
    then failed status_insufficient_space
    else encode_members enc s.base_address room (low_high (length s.element)) s.element

abbrev pub is_array : ℕ → Bool
is_array type = (type == type_array) || (type == type_set) || (type == type_bag)

-- the part behind the call of the read function
encode_body : Encoder → Store → ℕ → ℕ → ℕ → ℕ → Encoded
encode_body enc s room type flags p =
    if is_array type
    then encode_array enc room (s.array_at p)
    else if type == type_struct
    then encode_struct enc room (s.struct_at p)
    else encode_scalar s.byte_at room type flags p

-- zcl_encode_attribute_value of an element, whose entry has no flags and an address that is not
-- NULL. The first argument bounds the nesting.
unfoldable pub encode_element : ℕ → Store → Encoder
unfolding encode_body
encode_element zero s room type p = too_deep
encode_element (suc depth) s room type p = elim (sizeof_type type) [
  | pos zero ↦ written []
  | _ ↦ encode_body (encode_element depth s) s room type 0 p
]

-- the call of the read function, where there is one: the status and the memory
update : Attribute → Store → ℕ × Store
update entry s =
    if has entry.flags attrib_flag_full
    then elim entry.read [ none ↦ (0, s) | some read ↦ read s ]
    else (0, s)

encode_at : ℕ → ℕ → Attribute → ℕ → ℕ × Store → Encoded × Store
unfolding encode_body
encode_at depth room entry p (status, s) =
    if status == 0
    then (encode_body (encode_element depth s) s room entry.type entry.flags p, s)
    else (failed status, s)

encode_value : ℕ → ℕ → Attribute → Store → Encoded × Store
unfolding encode_at update
encode_value depth room entry s = elim entry.value [
  | none ↦ (failed status_defined_out_of_band, s)
  | some p ↦ encode_at depth room entry p (update entry s)
]

-- for a buffer and an entry that are not NULL
unfoldable pub encode_attribute_value : ℕ → ℕ → Attribute → Store → Encoded × Store
unfolding encode_value
encode_attribute_value depth room entry s = elim (sizeof_type entry.type) [
  | pos zero ↦ (written [], s)
  | _ ↦ encode_value depth room entry s
]
