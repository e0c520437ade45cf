-- ===== src/Tests/General.antt =====
-- Runs of the handler of general commands.
use pxbee_open_close.Prelude.{
  none, some, Option, List, [], ◌∷◌, ◌++◌, ◌≡◌, refl, arith, pos, length,
}
use pxbee_open_close.Wpan.{Envelope}
use pxbee_open_close.Zcl.Response.Header.{answer}
use pxbee_open_close.Zcl.Discover.Laws.{reports, from_id}
use pxbee_open_close.Zcl.Attributes.Sorted.{listed}
use pxbee_open_close.Zcl.{AttributeTree}
use pxbee_open_close.Zcl.Parse.{find_attributes}
use pxbee_open_close.Zcl.Parse.Laws.{Frame, print}
use pxbee_open_close.Zcl.General.{World, general_command}
use pxbee_open_close.Zcl.General.Laws.{IsRequest, found_from, discovered, general_discover}
use pxbee_open_close.Tests.Fixture.{Sent, devices, keep, message, request, request-IsFrame}
use pxbee_open_close.Tests.Attributes.{table, table-IsTable, store}

-- the envelope of a request, with a byte behind it in memory
abbrev carrying : Frame → Envelope
carrying f = record (message 6 (print f)) { payload = some (print f ++ (0xff ∷ [])) }

abbrev discovering : Frame
discovering = request 0x0c (2 ∷ 0 ∷ 2 ∷ [])

abbrev tree : Option (List AttributeTree)
tree = some (record { manufacturer_id = 0; server = some table; client = none } ∷ [])

found : find_attributes 0 0 tree ≡ some table
unfolding find_attributes
found = refl

abbrev world : World Sent
world = record { conversations = none; variables = store; outside = [] }

abbrev discovering-IsRequest : IsRequest devices (carrying discovering) discovering 0x0c 0 keep
discovering-IsRequest = record {
  frame = request-IsFrame 0x0c (2 ∷ 0 ∷ 2 ∷ []);
  carries = record { rest = 0xff ∷ []; held = refl; counted = refl; short = omega arith };
  byte = omega arith;
  general = refl;
  asks = refl;
  at_device = refl;
  is_send = refl;
}

-- two of the attributes from 2 on are reported, and there are more
general_discover_example :
    let bytes = print (discovered discovering (found_from 2 2 table)) in
    general_command devices 0 (carrying discovering) tree world
    ≡ some (
      pos 0,
      record world {
        outside = record (answer (carrying discovering) bytes (length bytes)) { options = 0 } ∷ [];
      },
    )
general_discover_example =
    general_discover 0 devices (carrying discovering) discovering 0 keep tree world 0 2 0 2 [] table
      discovering-IsRequest refl (omega arith) (omega arith) found table-IsTable

discovered_run :
    print (discovered discovering (found_from 2 2 table))
    ≡ 0x18 ∷ 42 ∷ 0x0d ∷ 0 ∷ 2 ∷ 0 ∷ 0x30 ∷ 5 ∷ 0 ∷ 0x42 ∷ []
unfolding from_id reports listed
discovered_run = refl
