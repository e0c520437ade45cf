-- ===== src/Zcl/Write.antt =====
-- The handler of the three Write Attributes requests: _zcl_write_attributes of
-- pxbee/pan/zigbee/zigbee_zcl.c.
pub mod Loop
pub mod Laws
use pxbee_open_close.Prelude.{
  ℕ, zero, suc, Bool, true, false, ℤ, pos, Option, none, some, List, [], ◌∷◌, ◌++◌, ◌==◌,
  if◌then◌else◌, get_or,
}
use pxbee_open_close.Prelude.Bits.{Bytes}
use pxbee_open_close.Wpan.{Devices}
use pxbee_open_close.Zcl.{Attribute, Command, Store, WriteRec, write_flag_assign}
use pxbee_open_close.Zcl.{status_success}
use pxbee_open_close.Zcl.Record.{parse_attribute_record, is_positive16}
use pxbee_open_close.Zcl.Read.{respond}

-- ZCL_CMD_WRITE_ATTRIB_UNDIV and ZCL_CMD_WRITE_ATTRIB_NORESP
abbrev pub cmd_write_attrib_undiv : ℕ
cmd_write_attrib_undiv = 0x03

abbrev pub cmd_write_attrib_noresp : ℕ
cmd_write_attrib_noresp = 0x05

-- the record, ready for zcl_parse_attribute_record
unfoldable pub armed : Bool → WriteRec → WriteRec
armed assign rec = record rec {
  flags = if assign then write_flag_assign else 0;
  status = status_success;
}

-- The status record that is kept of a parsed record that began at `buffer`: the status, and the
-- id as it was.
status_record : Bytes → ℕ → Bytes
status_record buffer status =
    if status == status_success then [] else status ∷ get_or buffer 0 0 ∷ get_or buffer 1 0 ∷ []

-- The loop over the records of the request, with the status records so far. The first argument is
-- fuel, none says that it ran out.
unfoldable pub write_loop :
    ℕ → Bool → Option (List Attribute) → WriteRec → Bytes → Store → Option (Bytes × Store)
unfolding status_record
write_loop zero assign table rec out s = if is_positive16 rec.buflen then none else some (out, s)
write_loop (suc fuel) assign table rec out s = elim (is_positive16 rec.buflen) [
  | true ↦
      let (_, rec', s') = parse_attribute_record table (armed assign rec) s in
      write_loop fuel assign table rec' (out ++ status_record rec.buffer rec'.status) s'
  | false ↦ some (out, s)
]

-- the record at the start of the payload
unfoldable pub start_record : Command → WriteRec
start_record cmd = record {
  buffer = cmd.zcl_payload;
  buflen = cmd.length;
  flags = 0;
  status = status_success;
}

-- one pass over the payload, with as much fuel as there are bytes
unfoldable pub write_pass : Bool → Command → Store → Option (Bytes × Store)
write_pass assign cmd s = write_loop cmd.length assign cmd.attributes (start_record cmd) [] s

-- what follows the first pass of an undivided write
after_check : Command → Option (Bytes × Store) → Option (Bytes × Store)
after_check cmd none = none
after_check cmd (some ([], s)) = write_pass true cmd s
after_check cmd (some (b ∷ bs, s)) = some (b ∷ bs, s)

-- the outer loop: the second pass of an undivided write runs if no status was kept
unfoldable pub write_passes : Command → Store → Option (Bytes × Store)
unfolding after_check
write_passes cmd s =
    if cmd.command == cmd_write_attrib_undiv
    then after_check cmd (write_pass false cmd s)
    else write_pass true cmd s

-- The status records, or one status without an id if every record was written.
abbrev pub write_body : Bytes → Bytes
write_body [] = status_success ∷ []
write_body (b ∷ bs) = b ∷ bs

module _ {W : Type 0} (devices : Devices W) where
  unfoldable pub write_attributes : Command → Store → W → Option (ℤ × Store × W)
  write_attributes cmd s w = elim (write_passes cmd s) [
    | none ↦ none
    | some (out, s') ↦
        if cmd.command == cmd_write_attrib_noresp
        then some (pos 0, s', w)
        else (let (error, w') = respond devices cmd 0x04 (write_body out) w in some (error, s', w'))
  ]
