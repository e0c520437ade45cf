-- ===== src/App/DefaultCluster.antt =====
-- default_cluster_callback of src/lib/default_cluster_callback.c, the handler of every cluster of
-- the endpoint that has no handler of its own: it answers the questions of the basic cluster.
pub mod Laws
use pxbee_open_close.Prelude.{
  ℕ, ◌-◌, ℤ, pos, ok, err, Bool, Option, none, some, List, [], ◌∷◌, ◌==◌, ◌&&◌, if◌then◌else◌, set,
  drop,
}
use pxbee_open_close.Prelude.Bits.{Bytes}
use pxbee_open_close.Wpan.{Envelope, Devices}
use pxbee_open_close.Zcl.{AttributeTree, Command}
use pxbee_open_close.Zcl.Parse.{command_build, byte}
use pxbee_open_close.Zcl.Response.{Cursor, put, send_response}
use pxbee_open_close.App.Strings.{append_string_char}
use pxbee_open_close.App.Reply.{
  is_profile_request, cmd_read_attrib, cmd_read_attrib_resp, open_response, close_response,
}
use pxbee_open_close.Zcl.{status_success}

-- ZCL_MANUFACTURER and ZCL_MODEL of src/headers/xbee_config.h, "Root" and "Occupied" with their
-- terminators
abbrev pub manufacturer : Bytes
manufacturer = 0x52 ∷ 0x6f ∷ 0x6f ∷ 0x74 ∷ 0 ∷ []

abbrev pub model : Bytes
model = 0x4f ∷ 0x63 ∷ 0x63 ∷ 0x75 ∷ 0x70 ∷ 0x69 ∷ 0x65 ∷ 0x64 ∷ 0 ∷ []

-- the attribute ID and the status of a record
abbrev record_head : ℕ → Cursor → Cursor
record_head id c = put (put (put c id) 0x00) status_success

-- the value of the application version, of type 0x20 (an unsigned byte)
unfoldable pub version_record : Cursor → Cursor
version_record c = put (put (record_head 0x01 c) 0x20) 0x00

-- a name, of type 0x42 (a character string)
unfoldable pub name_record : ℕ → Bytes → Cursor → Cursor
unfolding append_string_char
name_record id name c = append_string_char (put (record_head id c) 0x42) name

-- `zclPayload[0] == id && zclPayload[1] == 0x00`
abbrev pub asks : ℕ → Bytes → Bool
asks id p = (byte p 0 == id) && (byte p 1 == 0x00)

-- The payload of the envelope is terminated for printing, by a write to the byte behind it. What
-- the callback then builds the command from is that memory.
unfoldable pub terminate : Envelope → Envelope
terminate e = record e {
  payload = elim e.payload [ none ↦ none | some p ↦ some (set p e.length 0) ];
}

module _ {W : Type 0} (devices : Devices W) where
  send_record : Command → (Cursor → Cursor) → W → W
  send_record zcl fill w =
      let (start, c) = open_response cmd_read_attrib_resp zcl in
      close_response devices zcl start (fill c) w

  answer_basic : Command → W → W
  unfolding send_record
  answer_basic zcl w =
      if asks 0x01 zcl.zcl_payload
      then send_record zcl version_record w
      else if asks 0x04 zcl.zcl_payload
      then send_record zcl (name_record 0x04 manufacturer) w
      else if asks 0x05 zcl.zcl_payload
      then send_record zcl (name_record 0x05 model) w
      else w

  handle : Command → W → W
  unfolding answer_basic
  handle zcl w =
      if is_profile_request zcl.frame_control
      then (if (zcl.command == cmd_read_attrib) && (zcl.length == 2) then answer_basic zcl w else w)
      else w

  -- It returns 0 whatever happens. The envelope pointer is not tested for NULL.
  unfoldable pub default_cluster_callback : Envelope → Option (List AttributeTree) → W → ℤ × W
  unfolding handle
  default_cluster_callback envelope context w =
      elim (command_build (some (terminate envelope)) context) [
        | ok zcl ↦ (pos 0, handle zcl w)
        | err _ ↦ (pos 0, w)
      ]
