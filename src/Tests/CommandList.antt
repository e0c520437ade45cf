-- ===== src/Tests/CommandList.antt =====
-- Runs of lists of AT commands.
use pxbee_open_close.Prelude.{ℕ, ◌≡◌, refl, none, some, List, [], ◌∷◌, ◌++◌, arith, replicate}
use pxbee_open_close.Command.{Response, State, atcmd_done, atcmd_reuse}
use pxbee_open_close.Command.CommandList.{
  Reg, Lists, ListCalls, clt_copy, clt_copy_be, list_running, list_done, list_status, copied,
}
use pxbee_open_close.Command.CommandList.Table.{table_of, stored_all}
use pxbee_open_close.Command.CommandList.Callback.Run.{feed, feed_lem}
use pxbee_open_close.Device.Radio.{be_bytes}
use pxbee_open_close.Tests.Command.{modem, vacant}

-- HV into the field at 0 and SH into the field at 2
abbrev version_reg : Reg
version_reg = record {
  command = 0x4856;
  flags = 0;
  list_type = clt_copy_be;
  callback = none;
  bytes = 2;
  offset = 0;
}

abbrev serial_reg : Reg
serial_reg = record version_reg { command = 0x5348; list_type = clt_copy; bytes = 4; offset = 2 }

abbrev pub version_answer : Response
version_answer = record {
  device = some 0;
  context = some 0;
  handle = 9;
  command = 0x4856;
  flags = 0;
  value_length = 2;
  value_bytes = 0x1e ∷ 0x45 ∷ [];
  value = 0x1e45;
  source = none;
}

abbrev serial_answer : Response
serial_answer = record version_answer {
  command = 0x5348;
  value_length = 3;
  value_bytes = 0x13 ∷ 0xa2 ∷ 7 ∷ [];
  value = 0xffffffff;
}

abbrev query : List (Reg × Response)
query = (version_reg, version_answer) ∷ (serial_reg, serial_answer) ∷ []

abbrev lists : Lists ℕ
lists = record {
  contexts = λ i. record { list = table_of query; base = 0; status = list_running; index = 0 };
  memory = λ b. replicate 6 0xff;
  rest = 0;
}

abbrev asking : State (Lists ℕ)
asking = record {
  devices = λ d. modem;
  table = record vacant { sequence = 9; device = some 0; command = 0x4856 } ∷ vacant ∷ [];
  last_time = 100;
  world = lists;
}

abbrev no_calls : ListCalls ℕ
no_calls c m reg base s = s

feed_lem_example :
    let after = feed no_calls 101 (version_answer ∷ serial_answer ∷ []) asking in
    (after.0 ≡ replicate 1 atcmd_reuse ++ (atcmd_done ∷ []))
    × (list_status 0 after.1 ≡ list_done)
    × (after.1.world.memory 0 ≡ stored_all query (replicate 6 0xff))
feed_lem_example =
    feed_lem no_calls 101 0 0 list_running version_reg version_answer
      ((serial_reg, serial_answer) ∷ []) asking
      ((refl, refl, refl, refl, refl, refl), ((refl, refl, refl, refl, refl, refl), tt)) refl
      (omega arith)

stores_both : stored_all query (replicate 6 0xff) ≡ 0x1e ∷ 0x45 ∷ 0x13 ∷ 0xa2 ∷ 7 ∷ 0 ∷ []
unfolding copied be_bytes
stores_both = refl
