-- ===== src/Zcl/Parse/Laws.antt =====
-- zcl_command_build against the layout of a ZCL frame.
use pxbee_open_close.Prelude.{
  ℕ, ◌+◌, ◌%◌, ◌/◌, ◌<◌, ◌≤◌, ebadmsg, ok, err, Option, some, List, [], ◌∷◌, ◌++◌, ◌≡◌, inl, inr,
  arith, if◌then◌else◌, Bool, false, Bool-cases, length, take, take-append,
}
use pxbee_open_close.Prelude.Bits.{Bytes, IsBytes, has, le16, sub16}
use pxbee_open_close.Wpan.{Envelope}
use pxbee_open_close.Zcl.{AttributeTree, Command, mfg_none, frame_mfg_specific}
use pxbee_open_close.Zcl.Parse.{command_build, find_attributes, fill, byte, memory}

-- A frame as the ZigBee specification lays it out: the manufacturer code is there only if the
-- frame control says so.
pub record Frame : Type 0 where
  pub frame_control : ℕ
  pub mfg_code : ℕ
  pub sequence : ℕ
  pub command : ℕ
  pub payload : Bytes

abbrev pub is_mfg : Frame → Bool
is_mfg f = has f.frame_control frame_mfg_specific

abbrev pub print : Frame → Bytes
print f =
    if is_mfg f
    then f.frame_control
      ∷ (f.mfg_code % 256)
      ∷ (f.mfg_code / 256)
      ∷ f.sequence
      ∷ f.command
      ∷ f.payload
    else f.frame_control ∷ f.sequence ∷ f.command ∷ f.payload

pub record IsFrame (f : Frame) : Type 0 where
  pub mfg_range : f.mfg_code < 65536
  pub mfg_absent : is_mfg f ≡ false → f.mfg_code ≡ mfg_none

-- the envelope carries exactly the bytes `p`, as far as its length says
pub record Carries (e : Envelope) (p : Bytes) : Type 0 where
  pub rest : Bytes
  pub held : e.payload ≡ some (p ++ rest)
  pub counted : e.length ≡ length p
  pub short : e.length < 32768

-- the command with the fields of the frame, its payload pointer at the payload of the frame
abbrev pub command_of : Envelope → Frame → Option (List AttributeTree) → Bytes → Command
command_of e f tree rest = record {
  envelope = e;
  frame_control = f.frame_control;
  mfg_code = f.mfg_code;
  sequence = f.sequence;
  command = f.command;
  attributes = find_attributes f.mfg_code f.frame_control tree;
  zcl_payload = f.payload ++ rest;
  length = length f.payload;
}

-- An envelope that carries a printed frame, with whatever bytes behind it in memory, is built into
-- the command with the fields, the payload and the payload length of the frame, and with the
-- attributes that the tree has for its manufacturer code and direction.
pub command_build-print :
    (e : Envelope) (f : Frame) (tree : Option (List AttributeTree))
    → IsFrame f
    → (k : Carries e (print f)) → command_build (some e) tree ≡ ok (command_of e f tree k.rest)
unfolding command_build
command_build-print e f tree w k = elim (Bool-cases (is_mfg f)) [
  | inl with_mfg ↦ ground arith
  | inr no_mfg ↦ ground (arith, w.mfg_absent no_mfg)
]

abbrev pub frame_of : Command → Bytes → Frame
frame_of c payload = record {
  frame_control = c.frame_control;
  mfg_code = c.mfg_code;
  sequence = c.sequence;
  command = c.command;
  payload = payload;
}

-- how many bytes the header takes, by its first byte
abbrev pub header_length : Envelope → ℕ
header_length e = if has (byte (memory e.payload) 0) frame_mfg_specific then 5 else 3

-- A message that is shorter than its header is refused with -EBADMSG.
pub command_build_short :
    (e : Envelope) (tree : Option (List AttributeTree))
    → e.length < header_length e
    → command_build (some e) tree ≡ err ebadmsg
unfolding command_build
command_build_short e tree h = elim (Bool-cases (has (byte (memory e.payload) 0) 4)) [
  | inl with_mfg ↦ ground arith
  | inr no_mfg ↦ ground arith
]

-- A message of less than 2 ^ 15 bytes that is at least as long as its header is never refused: the
-- command has the rest of the length.
pub command_build_enough :
    (e : Envelope) (tree : Option (List AttributeTree))
    → e.length < 32768
    → header_length e ≤ e.length
    → (c : Command) × (command_build (some e) tree ≡ ok c) × (c.length + header_length e ≡ e.length)
unfolding command_build
command_build_enough e tree h k = elim (Bool-cases (has (byte (memory e.payload) 0) 4)) [
  | inl with_mfg ↦ (
    fill e (le16 (byte (memory e.payload) 1) (byte (memory e.payload) 2)) 3 tree (memory e.payload)
        (sub16 e.length 5),
    ground arith,
    ground arith,
  )
  | inr no_mfg ↦
      (fill e mfg_none 1 tree (memory e.payload) (sub16 e.length 3), ground arith, ground arith)
]

-- Printing the fields of a command that was built gives back the bytes of the message.
pub print-command_build :
    (e : Envelope) (p : Bytes) (tree : Option (List AttributeTree)) (c : Command)
    → Carries e p
    → IsBytes p
    → command_build (some e) tree ≡ ok c
    → print (frame_of c (take c.length c.zcl_payload)) ≡ p
unfolding command_build
print-command_build e [] tree c k b h = ground arith
print-command_build e (x ∷ []) tree c k b h = ground arith
print-command_build e (x ∷ y ∷ []) tree c k b h = ground arith
print-command_build e (x ∷ y ∷ z ∷ []) tree c k b h = ground arith
print-command_build e (x ∷ y ∷ z ∷ u ∷ []) tree c k b h = ground arith
print-command_build e (x ∷ y ∷ z ∷ u ∷ v ∷ p) tree c k b h = ground (arith, take-append p k.rest)
