-- ===== src/Zcl.antt =====
-- The ZigBee Cluster Library: the data of pxbee/headers/zigbee/zcl.h. Its functions, in
-- pxbee/pan/zigbee/zigbee_zcl.c, are in the child modules.
pub mod Types
pub mod Attributes
pub mod Memory
pub mod Encode
pub mod Decode
pub mod Record
pub mod Read
pub mod Write
pub mod Discover
pub mod General
pub mod Parse
pub mod Response
pub mod Invalid
use pxbee_open_close.Prelude.{ℕ, Bool, Option, List}
use pxbee_open_close.Prelude.Bits.{Bytes}
use pxbee_open_close.Wpan.{Envelope}

-- `zcl_array_t`: `value` is the address of the first element.
pub record ArrayValue : Type 0 where
  pub max_count : ℕ
  pub current_count : ℕ
  pub element_size : ℕ
  pub type : ℕ
  pub value : ℕ

-- `zcl_struct_element_t`
pub record StructElement : Type 0 where
  pub zcl_type : ℕ
  pub offset : ℕ

-- `zcl_struct_t`: `element` holds `element_count` elements
pub record StructValue : Type 0 where
  pub base_address : ℕ
  pub element : List StructElement

-- The memory behind the `value` pointers of attributes: a pointer is an address, at which there are
-- bytes, in the byte order of the host, or an array or a structure.
pub record Store : Type 0 where
  pub byte_at : ℕ → ℕ
  pub array_at : ℕ → ArrayValue
  pub struct_at : ℕ → StructValue

-- `zcl_attribute_write_rec_t`: the buffer is the memory from its pointer on.
pub record WriteRec : Type 0 where
  pub buffer : Bytes
  pub buflen : ℕ
  pub flags : ℕ
  pub status : ℕ

-- `zcl_attribute_full_t` with the `zcl_attribute_base_t` that it starts with. Of an entry without
-- ZCL_ATTRIB_FLAG_FULL only the first four fields exist. `min` and `max` are bit patterns.
pub record Attribute : Type 0 where
  pub id : ℕ
  pub flags : ℕ
  pub type : ℕ
  pub value : Option ℕ
  pub min : ℕ
  pub max : ℕ
  pub read : Option (Store → ℕ × Store)
  pub write : Option (WriteRec → Store → ℕ × WriteRec × Store)

-- `zcl_attribute_tree_t`
pub record AttributeTree : Type 0 where
  pub manufacturer_id : ℕ
  pub server : Option (List Attribute)
  pub client : Option (List Attribute)

-- `zcl_command_t`: `zcl_payload` is the memory from its pointer on, `length` an int16_t.
pub record Command : Type 0 where
  pub envelope : Envelope
  pub frame_control : ℕ
  pub mfg_code : ℕ
  pub sequence : ℕ
  pub command : ℕ
  pub attributes : Option (List Attribute)
  pub zcl_payload : Bytes
  pub length : ℕ

-- ZCL_STATUS_SUCCESS
abbrev pub status_success : ℕ
status_success = 0x00

-- ZCL_MFG_NONE and the ZCL_FRAME_* masks
abbrev pub mfg_none : ℕ
mfg_none = 0

abbrev pub frame_type_mask : ℕ
frame_type_mask = 0x03

abbrev pub frame_mfg_specific : ℕ
frame_mfg_specific = 0x04

abbrev pub frame_direction : ℕ
frame_direction = 0x08

abbrev pub frame_disable_def_resp : ℕ
frame_disable_def_resp = 0x10

-- the ZCL_ATTRIB_FLAG_* that the functions read
abbrev pub attrib_flag_writeonly : ℕ
attrib_flag_writeonly = 0x01

abbrev pub attrib_flag_readonly : ℕ
attrib_flag_readonly = 0x02

abbrev pub attrib_flag_has_min : ℕ
attrib_flag_has_min = 0x04

abbrev pub attrib_flag_has_max : ℕ
attrib_flag_has_max = 0x08

abbrev pub attrib_flag_raw : ℕ
attrib_flag_raw = 0x40

abbrev pub attrib_flag_full : ℕ
attrib_flag_full = 0x80

-- ZCL_ATTR_WRITE_FLAG_ASSIGN and ZCL_ATTR_WRITE_FLAG_READ_RESP
abbrev pub write_flag_assign : ℕ
write_flag_assign = 0x01

abbrev pub write_flag_read_resp : ℕ
write_flag_read_resp = 0x02
