-- ===== src/Tests/Command.antt =====
-- Runs of AT commands: a device with one request in its table and one free entry.
use pxbee_open_close.Prelude.{
  ◌%◌, ℕ, ◌+◌, ◌*◌, ◌≡◌, refl, pos, true, false, inl, inr, none, some, List, [], ◌∷◌, length, map,
  arith, if◌then◌else◌, replicate, ◌==◌,
}
use pxbee_open_close.Device.{next_frame_id}
use pxbee_open_close.Device.Write.{Line}
use pxbee_open_close.Device.Write.Laws.{encode}
use pxbee_open_close.Device.Radio.{be_bytes}
use pxbee_open_close.Command.{
  Request, Dev, State, Callbacks, handle_to_address, atcmd_done, max_param_length, entry_of,
  change_entry, released,
}
use pxbee_open_close.Command.Build.{encode_param}
use pxbee_open_close.Command.Build.Param.{value_of-encode_param, param_size}
use pxbee_open_close.Command.Handles.{begins, released_here, created, released_handle}
use pxbee_open_close.Prelude.Bits.{has}
use pxbee_open_close.Command.Respond.{find_request}
use pxbee_open_close.Command.Expire.{is_free, dev_flag_cmd_init}
use pxbee_open_close.Command.{modify, release_request}
use pxbee_open_close.Command.Send.{send}
use pxbee_open_close.Command.Respond.{handle_response, value_of}
use pxbee_open_close.Command.Respond.Laws.{local_response, concluded}
use pxbee_open_close.Command.Exchange.{send_answered}
use pxbee_open_close.Command.Expire.{create, cmd_tick, has_expired}
use pxbee_open_close.Command.Expire.Create.{create_lem}
use pxbee_open_close.Command.Expire.Tick.{IsModest, ended, count_over, tick_lem}
use pxbee_open_close.App.Console.{console_callbacks, read_console_commands}
use pxbee_open_close.App.Console.Laws.{console_asks}

abbrev pub ready : Line
ready = record { valid = true; use_flowcontrol = false; cts = true; sent = [] }

-- the table of its commands is set up
abbrev pub modem : Dev
modem = record { radio = record { line = some ready; frame_id = 4 }; flags = 1 }

abbrev pub vacant : Request
vacant = record {
  sequence = 7;
  device = none;
  timeout = 0;
  flags = 0;
  param = replicate max_param_length 0;
  param_length = 0;
  callback = none;
  context = none;
  frame_id = 0;
  address = record { ieee = 0; network = 0 };
  command = 0;
}

-- "NJ" with the parameter 0x5a, whose answer the callback 3 gets
abbrev pub join_time : Request
join_time = record vacant {
  sequence = 9;
  device = some 0;
  timeout = 102;
  param = 0x5a ∷ replicate 47 0;
  param_length = 1;
  callback = some 3;
  context = some 2;
  command = 0x4e4a;
}

abbrev state : State (List ℕ)
state = record {
  devices = λ d. modem;
  table = join_time ∷ vacant ∷ [];
  last_time = 100;
  world = [];
}

-- both entries are in use
abbrev full_state : State (List ℕ)
full_state = record state { table = join_time ∷ join_time ∷ [] }

-- the callbacks keep the values that they are told
abbrev keep : Callbacks (List ℕ)
keep c response s = (atcmd_done, record s { world = response.value ∷ s.world })

abbrev no_init : ℕ → State (List ℕ) → State (List ℕ)
no_init d s = s

abbrev idle : State (List ℕ) → ℕ × State (List ℕ)
idle s = (0, s)

send_answered_example :
    ((send 101 (pos 9) state).0 ≡ pos 0)
    × (((send 101 (pos 9) state).1.devices 0).radio ≡ record {
      line = some (record ready { sent = encode (0x08 ∷ 5 ∷ be_bytes 2 0x4e4a (0x5a ∷ [])) });
      frame_id = 5;
    })
    × (handle_response keep 102 0
          (some (local_response 5 0x4e4a 0 (0x5a ∷ [])))
          (send 101 (pos 9) state).1
        ≡ (
          pos 0,
          concluded 102 0 (
              keep 3
                (record {
                  device = some 0;
                  context = some 2;
                  handle = 9;
                  command = 0x4e4a;
                  flags = 0;
                  value_length = 1;
                  value_bytes = 0x5a ∷ [];
                  value = value_of 1 (0x5a ∷ []);
                  source = none;
                })
                (send 101 (pos 9) state).1),
        ))
unfolding next_frame_id
send_answered_example =
    send_answered keep 101 102 0 3 0 [] (vacant ∷ []) join_time (0x5a ∷ []) (replicate 47 0)
      (0x5a ∷ []) ready state refl (omega arith) (omega arith) refl refl refl refl (omega arith)
      refl refl (inl refl) refl (omega arith) (omega arith) tt

keep-IsModest : IsModest keep
keep-IsModest = record {
  keeps_table = λ c m s. refl;
  keeps_devices = λ c m s. refl;
  gives_up = λ c m s. refl;
}

tick_lem_example :
    ((cmd_tick keep no_init 102 state).0 ≡ count_over 102 (join_time ∷ vacant ∷ []))
    × ((cmd_tick keep no_init 102 state).1.table ≡ map (ended 102) (join_time ∷ vacant ∷ []))
tick_lem_example = tick_lem keep no_init keep-IsModest 102 state refl refl (λ d. refl)

counts_one : count_over 102 (join_time ∷ vacant ∷ []) ≡ 1
unfolding has_expired
counts_one = refl

value_of-encode_param_example :
    (value_of (length (encode_param 0x1234)) (encode_param 0x1234) ≡ 0x1234)
    × (length (encode_param 0x1234) ≡ param_size 0x1234)
value_of-encode_param_example = value_of-encode_param 0x1234 (omega arith)

names_first : handle_to_address (pos 9) state ≡ some 0
unfolding handle_to_address entry_of
names_first = refl

-- the request is released, and its entry is taken again
abbrev again : State (List ℕ)
again = (create no_init idle 101 (some 0) (some 0x4f50) (release_request (some 0) state).1).1

abbrev let_go : State (List ℕ)
let_go = (release_request (some 0) state).1

set_up_still : has (let_go.devices 0).flags dev_flag_cmd_init ≡ true
unfolding release_request
set_up_still = refl

first_is_free : find_request is_free 0 let_go.table ≡ some (0, released join_time)
unfolding release_request find_request modify
first_is_free = refl

released_handle_example : handle_to_address (pos 9) again ≡ (if 1 == 256 then some 0 else none)
released_handle_example =
    released_handle 1 9 0 state again names_first
      (created no_init idle 101 0 0x4f50 0 (released join_time) set_up_still first_is_free
        (released_here begins))
      (omega arith) (omega arith)

create_lem_example : create no_init idle 101 (some 0) (some 0x4f50) state ≡ (
  pos (1 * 256 + 7),
  record state {
    table =
        join_time
        ∷ record vacant {
          sequence = 7;
          device = some 0;
          timeout = (101 + 2) % 65536;
          command = 0x4f50;
        }
        ∷ [];
  },
)
create_lem_example =
    create_lem no_init idle 101 0 0x4f50 (join_time ∷ []) [] vacant state refl (refl, tt) refl refl

console_asks_example :
    (((read_console_commands no_init idle 101 0 (some 49) state).devices 0).radio ≡ record {
      line = some (record ready { sent = encode (0x08 ∷ 5 ∷ be_bytes 2 0x4f50 []) });
      frame_id = 5;
    })
    × (handle_response console_callbacks 102 0
          (some (local_response 5 0x4f50 0 (1 ∷ 2 ∷ [])))
          (read_console_commands no_init idle 101 0 (some 49) state)
        ≡ (
          pos 0,
          change_entry 1 released (read_console_commands no_init idle 101 0 (some 49) state),
        ))
unfolding next_frame_id
console_asks_example =
    console_asks no_init idle 101 102 0 49 0x4f50 0 (join_time ∷ []) [] vacant (1 ∷ 2 ∷ []) ready
      state refl refl (refl, tt) refl refl (omega arith) (omega arith) refl refl (inl refl)
      (omega arith) (inr (omega arith), tt)
