-- ===== src/Tests/Zcl.antt =====
-- Runs of the ZCL functions.
use pxbee_open_close.Prelude.{ok, none, some, [], ◌∷◌, ◌++◌, ◌≡◌, ◌+◌, refl, arith}
use pxbee_open_close.Wpan.{Envelope}
use pxbee_open_close.Zcl.{Command}
use pxbee_open_close.Zcl.Parse.{command_build}
use pxbee_open_close.Zcl.Parse.Laws.{
  IsFrame, Carries, print, command_of, frame_of, command_build-print, command_build_enough,
  print-command_build,
}
use pxbee_open_close.Tests.Fixture.{special, message}

-- a message with the manufacturer's frame, and a byte behind it in memory
abbrev held : Envelope
held = record (message 6 (print special)) { payload = some (print special ++ (0xff ∷ [])) }

abbrev held-Carries : Carries held (print special)
held-Carries = record { rest = 0xff ∷ []; held = refl; counted = refl; short = omega arith }

special-IsFrame : IsFrame special
special-IsFrame = record { mfg_range = omega arith; mfg_absent = λ h. absurd (cc) }

command_build-print_example :
    command_build (some held) none ≡ ok (command_of held special none (0xff ∷ []))
command_build-print_example = command_build-print held special none special-IsFrame held-Carries

command_build_enough_example :
    (c : Command) × (command_build (some held) none ≡ ok c) × (c.length + 5 ≡ 8)
command_build_enough_example = command_build_enough held none (omega arith) (omega arith)

print-command_build_example :
    print (frame_of (command_of held special none (0xff ∷ [])) (1 ∷ 2 ∷ 3 ∷ [])) ≡ print special
print-command_build_example =
    print-command_build held (print special) none (command_of held special none (0xff ∷ []))
      held-Carries (ground arith)
      (command_build-print held special none special-IsFrame held-Carries)

abbrev command : Command
command = command_of held special none (0xff ∷ [])
