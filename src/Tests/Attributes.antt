-- ===== src/Tests/Attributes.antt =====
-- Runs of the functions on attributes: a cluster with a level, a name, a limit and a variable that
-- is missing.
use pxbee_open_close.Prelude.{
  ℕ, zero, suc, pos, none, some, List, [], ◌∷◌, ◌++◌, ◌≡◌, ◌≢◌, ◌≤◌, refl, arith, length,
  if◌then◌else◌, leb, take, Option, ◌⊎◌,
}
use pxbee_open_close.Prelude.Bits.{Bytes}
use pxbee_open_close.Zcl.{Attribute, Store, WriteRec, Command}
use pxbee_open_close.Zcl.Types.{sizeof_type, type_info, type_info_table}
use pxbee_open_close.Zcl.Attributes.{find_attribute, skip_below}
use pxbee_open_close.Zcl.Attributes.Sorted.{
  IsTable, ends, entry, listed, first_with, find_attribute_lem,
}
use pxbee_open_close.Zcl.Encode.{
  written, encode_scalar, encode_string, characters, encode_attribute_value,
}
use pxbee_open_close.Zcl.Decode.{decode_attribute, convert_24bit}
use pxbee_open_close.Zcl.Decode.Laws.{IsPlain, IsWritten, encode-decode}
use pxbee_open_close.Zcl.Record.{check_minmax, parse_attribute_record, record_status}
use pxbee_open_close.Zcl.Record.Progress.{TameTable}
use pxbee_open_close.Zcl.Memory.{load, poke}
use pxbee_open_close.Tests.Fixture.{message}
use pxbee_open_close.Zcl.Record.Range.{minimum_ignored}
use pxbee_open_close.Zcl.Discover.{discover_body, discover_records}
use pxbee_open_close.Zcl.Discover.Laws.{discover_body_lem, reports, from_id}
use pxbee_open_close.Zcl.Read.{read_records, read_record}
use pxbee_open_close.Zcl.Read.Laws.{read_records_lem}
use pxbee_open_close.Zcl.Write.{write_passes, write_pass, write_loop, armed, start_record}
use pxbee_open_close.Zcl.Write.Laws.{failures, write_passes_ends, undivided_lem}

-- an entry without limits and functions
abbrev plain : ℕ → ℕ → ℕ → Option ℕ → Attribute
plain id flags type value = record {
  id = id;
  flags = flags;
  type = type;
  value = value;
  min = 0;
  max = 0;
  read = none;
  write = none;
}

-- a 24-bit number at 16, a read-only enumeration at 20, a name at 32, and a number without a variable
abbrev level : Attribute
level = plain 0x0001 0x00 0x22 (some 16)

abbrev pub table : List Attribute
table =
    level
    ∷ plain 0x0002 0x02 0x30 (some 20)
    ∷ plain 0x0005 0x00 0x42 (some 32)
    ∷ plain 0x0009 0x00 0x20 none
    ∷ plain 0xffff 0x00 0x00 none
    ∷ []

pub table-IsTable : IsTable 0 table
table-IsTable = entry (omega arith) (omega arith) (
    entry (omega arith) (omega arith)
      (entry (omega arith) (omega arith) (entry (omega arith) (omega arith) (ends refl))))

-- each byte of the memory is its address, but for the name, which is empty
abbrev pub store : Store
store = record {
  byte_at = λ a. if leb 32 a then 0 else a;
  array_at =
      λ a. record { max_count = 0; current_count = 0; element_size = 0; type = 0; value = 0 };
  struct_at = λ a. record { base_address = 0; element = [] };
}

-- A write of 0x030201 to the level.
abbrev level_rec : WriteRec
level_rec = record { buffer = 1 ∷ 2 ∷ 3 ∷ 9 ∷ []; buflen = 4; flags = 1; status = 0 }

level-IsPlain : IsPlain level 16 2
level-IsPlain = record {
  at = refl;
  byte = omega arith;
  sized = unfold sizeof_type type_info type_info_table in refl;
  base = refl;
}

level-IsWritten : IsWritten level level_rec 2
level-IsWritten = record {
  assigns = refl;
  success = refl;
  long = omega arith;
  boolean = λ h. absurd (cc);
}

encode-decode_example :
    (s' : Store) × (decode_attribute level level_rec store ≡ (3, level_rec, s'))
    × (encode_attribute_value 0 10 level s' ≡ (written (1 ∷ 2 ∷ 3 ∷ []), s'))
encode-decode_example =
    encode-decode 0 10 level 16 2 level_rec store level-IsPlain level-IsWritten (omega arith)
      (omega arith)

find_attribute_lem_example : find_attribute (some table) 5 ≡ first_with 5 (listed table)
find_attribute_lem_example = find_attribute_lem 0 5 table table-IsTable (omega arith)

discover_body_lem_example :
    discover_body (some table) (2 ∷ 0 ∷ 2 ∷ [])
    ≡ (if leb (length (from_id 2 (listed table))) 2 then 1 else 0)
      ∷ reports (take 2 (from_id 2 (listed table)))
discover_body_lem_example = discover_body_lem 0 table (2 ∷ 0 ∷ 2 ∷ []) table-IsTable (omega arith)

discover_run : discover_body (some table) (2 ∷ 0 ∷ 2 ∷ []) ≡ 0 ∷ 2 ∷ 0 ∷ 0x30 ∷ 5 ∷ 0 ∷ 0x42 ∷ []
unfolding discover_body discover_records skip_below
discover_run = refl

-- the requests for the empty name at the end of a full response
read_records_lem_example :
    (out : Bytes) × (s' : Store) × (read_records 0 (some table) 2 (5 ∷ 0 ∷ 7 ∷ 0 ∷ []) [] store
      ≡ some (out, s'))
    × (length out ≤ 82)
read_records_lem_example =
    read_records_lem 0 (some table) 2 (5 ∷ 0 ∷ 7 ∷ 0 ∷ []) store
      ((refl, refl), ((refl, refl), ((refl, refl), ((refl, refl), ((refl, refl), tt)))))

abbrev out_length : Option (Bytes × Store) → ℕ
out_length none = 0
out_length (some (out, s)) = length out

abbrev repeat : ℕ → Bytes → Bytes → Bytes
repeat zero bs end = end
repeat (suc n) bs end = bs ++ repeat n bs end

-- Eleven readings of the level fill 77 of the 80 bytes. The empty name then takes 5 more.
overrun_run :
    out_length (read_records 0 (some table) 12 (repeat 11 (1 ∷ 0 ∷ []) (5 ∷ 0 ∷ [])) [] store) ≡ 82
unfolding read_records read_record find_attribute skip_below encode_attribute_value sizeof_type
    type_info type_info_table encode_scalar encode_string characters load
overrun_run = refl

-- a write command
abbrev write_command : ℕ → Bytes → Command
write_command command payload = record {
  envelope = message 6 [];
  frame_control = 0;
  mfg_code = 0;
  sequence = 1;
  command = command;
  attributes = some table;
  zcl_payload = payload;
  length = length payload;
}

tame : TameTable (some table)
tame = (
  (λ f h. absurd (cc)),
  (
    (λ f h. absurd (cc)),
    ((λ f h. absurd (cc)), ((λ f h. absurd (cc)), ((λ f h. absurd (cc)), tt))),
  ),
)

-- writes to the level and to the read-only attribute
abbrev mixed : Bytes
mixed = 1 ∷ 0 ∷ 0x22 ∷ 7 ∷ 8 ∷ 9 ∷ 2 ∷ 0 ∷ 0x30 ∷ 1 ∷ []

write_passes_ends_example :
    (out : Bytes) × (s' : Store) × (write_passes (write_command 2 mixed) store ≡ some (out, s'))
    × (length out ≤ 12)
write_passes_ends_example = write_passes_ends (write_command 2 mixed) store tame

undivided_lem_example :
    ((failures (write_command 3 mixed) store ≢ [])
      × (write_passes (write_command 3 mixed) store
          ≡ some (failures (write_command 3 mixed) store, store)))
    ⊎ ((failures (write_command 3 mixed) store ≡ [])
        × (write_passes (write_command 3 mixed) store ≡ write_passes (write_command 2 mixed) store))
undivided_lem_example = undivided_lem (write_command 3 mixed) store tame refl

abbrev statuses : Option (Bytes × Store) → Bytes
statuses none = []
statuses (some (out, s)) = out

abbrev level_after : Option (Bytes × Store) → Bytes
level_after none = []
level_after (some (out, s)) = load s.byte_at 16 4

-- An undivided write of the level and of the number without a variable: the first pass finds
-- nothing, the second one assigns the level and then reports the other.
abbrev divided : Option (Bytes × Store)
divided = write_passes (write_command 3 (1 ∷ 0 ∷ 0x22 ∷ 7 ∷ 8 ∷ 9 ∷ 9 ∷ 0 ∷ 0x20 ∷ 1 ∷ [])) store

reported_run : statuses divided ≡ 0x91 ∷ 9 ∷ 0 ∷ []
unfolding write_passes write_pass start_record write_loop armed parse_attribute_record record_status
    find_attribute skip_below check_minmax sizeof_type type_info type_info_table decode_attribute
    convert_24bit load poke
reported_run = refl

assigned_run : level_after divided ≡ 0 ∷ 9 ∷ 8 ∷ 7 ∷ []
unfolding write_passes write_pass start_record write_loop armed parse_attribute_record record_status
    find_attribute skip_below check_minmax sizeof_type type_info type_info_table decode_attribute
    convert_24bit load poke
assigned_run = refl

-- A signed byte with a minimum of -10: -128 passes.
abbrev limited : Attribute
limited = record (plain 0x0001 0x04 0x28 (some 16)) { min = 4294967286 }

minimum_ignored_example : check_minmax (some limited) (0x80 ∷ []) ≢ pos 1
minimum_ignored_example = minimum_ignored limited 0x80 [] refl (omega arith) (omega arith) refl
