-- ===== src/Tests/Query.antt =====
-- Runs of the query of a device.
use pxbee_open_close.Prelude.{ℕ, true, some, [], ◌∷◌, replicate}
use pxbee_open_close.Command.CommandList.Callback.{list_callback}
use pxbee_open_close.Command.{Callbacks, State}
use pxbee_open_close.Command.CommandList.{Lists, list_done}
use pxbee_open_close.Command.Query.{query_device, query_calls}
use pxbee_open_close.Command.Registers.{Layout, Wpans}
use pxbee_open_close.Tests.Command.{modem, vacant, join_time}

abbrev layout : Layout
layout = record {
  hardware_version = 10;
  firmware_version = 12;
  ieee_high = 0;
  ieee_low = 4;
  payload = 16;
  network = 8;
}

-- a free table, and a device that is set up
abbrev quiet : State (Lists (Wpans ℕ))
quiet = record {
  devices = λ d. modem;
  table = vacant ∷ vacant ∷ [];
  last_time = 100;
  world = record {
    contexts = λ i. record { list = []; base = 0; status = list_done; index = 0 };
    memory = λ b. replicate 20 0;
    rest = record { wpan_flags = λ d. 0; beyond = 0 };
  };
}

-- A query runs, and a refresh was asked for behind its start.
abbrev pressed : State (Lists (Wpans ℕ))
pressed = record quiet { devices = λ d. record modem { flags = 0x33 } }

abbrev nothing_due : State (Lists (Wpans ℕ)) → ℕ × State (Lists (Wpans ℕ))
nothing_due s = (0, s)

abbrev set_up_before : ℕ → State (Lists (Wpans ℕ)) → State (Lists (Wpans ℕ))
set_up_before d s = s

-- what the numbers of callbacks stand for: each is _xbee_cmd_list_callback
abbrev callbacks : Callbacks (Lists (Wpans ℕ))
callbacks c m s = list_callback (query_calls layout 0 7 nothing_due set_up_before 101) 101 m s

abbrev renew : ℕ → State (Lists (Wpans ℕ)) → State (Lists (Wpans ℕ))
renew d s = (query_device layout 0 7 nothing_due set_up_before 101 (some d) true s).1

-- both entries are in use, and neither is due
abbrev full_table : State (Lists (Wpans ℕ))
full_table = record quiet { table = join_time ∷ join_time ∷ [] }
