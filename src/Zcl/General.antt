-- ===== src/Zcl/General.antt =====
-- The handler of the general commands: zcl_general_command of pxbee/pan/zigbee/zigbee_zcl.c.
pub mod Laws
use pxbee_open_close.Prelude.{
  ℕ, Bool, ◌||◌, ℤ, pos, negsuc, ok, err, Option, none, some, List, ◌==◌, if◌then◌else◌, bit_and,
}
use pxbee_open_close.Wpan.{Envelope, Devices}
use pxbee_open_close.Wpan.Conversations.{EpState, conversation_response}
use pxbee_open_close.Zcl.{AttributeTree, Command, Store, frame_type_mask}
use pxbee_open_close.Zcl.Parse.{command_build}
use pxbee_open_close.Zcl.Invalid.{invalid_command}
use pxbee_open_close.Zcl.Read.{read_attributes}
use pxbee_open_close.Zcl.Write.{write_attributes}
use pxbee_open_close.Zcl.Discover.{discover_attributes}

-- ZCL_CMD_WRITE_ATTRIB, _UNDIV and _NORESP
abbrev pub is_write : ℕ → Bool
is_write command = (command == 0x02) || (command == 0x03) || (command == 0x05)

-- ZCL_CMD_DEFAULT_RESP, ZCL_CMD_READ_ATTRIB_RESP, ZCL_CMD_WRITE_ATTRIB_RESP,
-- ZCL_CMD_DISCOVER_ATTRIB_RESP and ZCL_CMD_WRITE_STRUCT_ATTRIB_RESP
abbrev pub is_response : ℕ → Bool
is_response command =
    (command == 0x0b)
    || (command == 0x01)
    || (command == 0x04)
    || (command == 0x0d)
    || (command == 0x10)

-- What a handler works on and changes: the conversations of the endpoint that the envelope is for
-- (none if no endpoint matches), the memory of the attributes and the rest of the world. A handler
-- of a conversation may change the last two.
pub record World (W : Type 0) : Type 0 where
  pub conversations : Option (EpState (Store × W))
  pub variables : Store
  pub outside : W

module _ {W : Type 0} (devices : Devices W) where
  -- zcl_invalid_command, and the world behind it
  reject : Envelope → World W → ℤ × World W
  reject e g =
      let (error, w') = invalid_command devices (some e) g.outside in
      (error, record g { outside = w' })

  -- a response: to the conversation that waits for it, or refused
  on_response : Envelope → Command → World W → ℤ × World W
  unfolding reject
  on_response e zcl g = elim g.conversations [
    | none ↦ reject e g
    | some state ↦
        let (error, state', (s', w')) =
          conversation_response state zcl.sequence e (g.variables, g.outside) in
        let g' : World W = record { conversations = some state'; variables = s'; outside = w' } in
        elim error [ pos n ↦ (pos n, g') | negsuc _ ↦ reject e g' ]
  ]

  -- the result of a handler that answers from the attributes
  settled : World W → Option (ℤ × Store × W) → Option (ℤ × World W)
  settled g none = none
  settled g (some (error, s', w')) = some (error, record g { variables = s'; outside = w' })

  -- the `switch` on the command
  on_command : ℕ → Envelope → Command → World W → Option (ℤ × World W)
  unfolding settled on_response reject
  on_command depth e zcl g =
      if zcl.command == 0x0c
      then (let (error, w') = discover_attributes devices zcl g.outside in
          some (error, record g { outside = w' }))
      else if zcl.command == 0x00
      then settled g (read_attributes devices depth zcl g.variables g.outside)
      else if is_write zcl.command
      then settled g (write_attributes devices zcl g.variables g.outside)
      else if is_response zcl.command
      then some (on_response e zcl g)
      else some (reject e g)

  -- The envelope is not NULL; the context is the attribute tree.
  unfoldable pub general_command :
      ℕ → Envelope → Option (List AttributeTree) → World W → Option (ℤ × World W)
  unfolding on_command reject
  general_command depth e tree g = elim (command_build (some e) tree) [
    | err error ↦ some (error, g)
    | ok zcl ↦
        if bit_and zcl.frame_control frame_type_mask == 0x00
        then on_command depth e zcl g
        else some (reject e g)
  ]
