-- ===== src/Zcl/Parse.antt =====
-- zcl_command_build of pxbee/pan/zigbee/zigbee_zcl.c.
pub mod Laws
use pxbee_open_close.Prelude.{
  ℕ, einval, ebadmsg, Result, ok, err, Option, none, some, List, [], ◌∷◌, ◌==◌, if◌then◌else◌,
  get_or, drop, ◌+◌,
}
use pxbee_open_close.Prelude.Bits.{Bytes, has, le16, sub16, is_neg16}
use pxbee_open_close.Wpan.{Envelope}
use pxbee_open_close.Zcl.{
  Attribute, AttributeTree, Command, mfg_none, frame_mfg_specific, frame_direction,
}

-- The memory behind a payload pointer. The code does not test it for NULL.
abbrev pub memory : Option Bytes → Bytes
memory none = []
memory (some p) = p

-- The code reads the header before it tests the length; a byte behind the memory that the model
-- holds reads as 0.
abbrev pub byte : Bytes → ℕ → ℕ
byte p i = get_or p i 0

-- the branch of the tree for a manufacturer; the one for ZCL_MFG_NONE is the last
find_branch : ℕ → List AttributeTree → Option AttributeTree
find_branch mfg [] = none
find_branch mfg (t ∷ ts) =
    if t.manufacturer_id == mfg
    then some t
    else if t.manufacturer_id == mfg_none
    then none
    else find_branch mfg ts

attributes_of : ℕ → Option AttributeTree → Option (List Attribute)
attributes_of fc none = none
attributes_of fc (some t) = if has fc frame_direction then t.client else t.server

unfoldable pub find_attributes : ℕ → ℕ → Option (List AttributeTree) → Option (List Attribute)
unfolding find_branch attributes_of
find_attributes mfg fc none = none
find_attributes mfg fc (some tree) = attributes_of fc (find_branch mfg tree)

-- the fields that stand behind the header, `size` bytes long, whose common part is at `common`
fill : Envelope → ℕ → ℕ → Option (List AttributeTree) → Bytes → ℕ → Command
unfolding find_attributes
fill e mfg common tree p length = record {
  envelope = e;
  frame_control = byte p 0;
  mfg_code = mfg;
  sequence = byte p common;
  command = byte p (common + 1);
  attributes = find_attributes mfg (byte p 0) tree;
  zcl_payload = drop (common + 2) p;
  length = length;
}

build_at : Envelope → ℕ → ℕ → Option (List AttributeTree) → Bytes → ℕ → Result Command
unfolding fill
build_at e mfg common tree p length =
    if is_neg16 length then err ebadmsg else ok (fill e mfg common tree p length)

-- The command is the result. On -EBADMSG the code clears it.
unfoldable pub command_build : Option Envelope → Option (List AttributeTree) → Result Command
unfolding build_at
command_build none tree = err einval
command_build (some e) tree =
    let p = memory e.payload in
    if has (byte p 0) frame_mfg_specific
    then build_at e (le16 (byte p 1) (byte p 2)) 3 tree p (sub16 e.length 5)
    else build_at e mfg_none 1 tree p (sub16 e.length 3)
