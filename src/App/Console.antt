-- ===== src/App/Console.antt =====
-- The console menu: read_console_commands of src/lib/read_console_commands.c, with
-- xbee_cmd_callback of src/lib/xbee_cmd_callback.c and the settings of src/headers/xbee_config.h.
-- What they print is left out.
pub mod Laws
use pxbee_open_close.Prelude.{
  ℕ, ℤ, is_negative, Option, none, some, List, [], ◌∷◌, ◌==◌, if◌then◌else◌,
}
use pxbee_open_close.Prelude.Bits.{Bytes}
use pxbee_open_close.Command.{Response, State, Callbacks, atcmd_done}
use pxbee_open_close.Command.Build.{set_callback}
use pxbee_open_close.Command.Send.{send, simple, execute}
use pxbee_open_close.Command.Expire.{create}

-- The number that names xbee_cmd_callback. It returns XBEE_ATCMD_DONE on each of its paths.
abbrev pub xbee_cmd_callback : ℕ
xbee_cmd_callback = 0

abbrev pub console_callbacks : {W : Type 0} → Callbacks W
console_callbacks c response s = (atcmd_done, s)

-- the command that the menu asks for: "OP", "OI" and "MY"
abbrev pub asked_command : ℕ → Option ℕ
asked_command option =
    if option == 49
    then some 0x4f50
    else if option == 50
    then some 0x4f49
    else if option == 51
    then some 0x4d59
    else none

-- "ZS", "NJ", "NH", "NO", "EE", "EO" and "AP" with XBEE_PARAM_ZS and so on
abbrev pub settings : List (ℕ × ℕ)
settings =
    (0x5a53, 2)
    ∷ (0x4e4a, 0x5a)
    ∷ (0x4e48, 0x1e)
    ∷ (0x4e4f, 3)
    ∷ (0x4545, 1)
    ∷ (0x454f, 1)
    ∷ (0x4150, 1)
    ∷ []

-- XBEE_PARAM_KY, "5A6967426565416C6C69616E63653039", and its length
abbrev pub link_key : Bytes
link_key =
    0x35 ∷ 0x41 ∷ 0x36 ∷ 0x39 ∷ 0x36 ∷ 0x37 ∷ 0x34 ∷ 0x32 ∷ 0x36 ∷ 0x35 ∷ 0x36 ∷ 0x35 ∷ 0x34 ∷ 0x31
    ∷ 0x36 ∷ 0x43 ∷ 0x36 ∷ 0x43 ∷ 0x36 ∷ 0x39 ∷ 0x36 ∷ 0x31 ∷ 0x36 ∷ 0x45 ∷ 0x36 ∷ 0x33 ∷ 0x36
    ∷ 0x35 ∷ 0x33 ∷ 0x30 ∷ 0x33 ∷ 0x39 ∷ []

module _ {W : Type 0} where
  set_all : ℕ → List (ℕ × ℕ) → State W → State W
  set_all xdev [] s = s
  set_all xdev ((command, value) ∷ rest) s =
      set_all xdev rest (simple (some xdev) command value s).1

  -- the case of `s`: settings, the link key "KY", and "WR" to store them
  additional : ℕ → State W → State W
  unfolding set_all
  additional xdev s =
      let s1 = set_all xdev settings s in
      let s2 = (execute (some xdev) 0x4b59 (some link_key) 32 s1).1 in
      (execute (some xdev) 0x5752 none 0 s2).1

-- `init` is xbee_cmd_init_device, and `run_tick` is xbee_cmd_tick.
module _ {W : Type 0} (init : ℕ → State W → State W) (run_tick : State W → ℕ × State W) where
  ask : ℕ → ℕ → ℕ → State W → State W
  ask now xdev command s =
      let (request, s1) = create init run_tick now (some xdev) (some command) s in
      let s2 = (set_callback request (some xbee_cmd_callback) none s1).1 in
      if is_negative request then s1 else (send now request s2).1

  -- The byte that the console has received, if any; "NR" resets the network.
  unfoldable pub read_console_commands : ℕ → ℕ → Option ℕ → State W → State W
  unfolding ask additional
  read_console_commands now xdev none s = s
  read_console_commands now xdev (some option) s = elim (asked_command option) [
    | some command ↦ ask now xdev command s
    | none ↦
        if option == 115
        then additional xdev s
        else if option == 114
        then (simple (some xdev) 0x4e52 0 s).1
        else s
  ]
