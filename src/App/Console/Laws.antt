-- ===== src/App/Console/Laws.antt =====
-- A question to the radio from the menu, and its answer.
use pxbee_open_close.Prelude.{
  ℕ, ◌+◌, ◌*◌, ◌<◌, ◌≡◌, ◌≢◌, ◌⊎◌, refl, ap, ◌∙◌, pos, true, false, none, some, List, [], ◌∷◌, ◌++◌,
  replicate, length, All, arith,
}
use pxbee_open_close.Prelude.Bits.{Bytes, has}
use pxbee_open_close.Device.{next_frame_id}
use pxbee_open_close.Device.Write.{Line}
use pxbee_open_close.Device.Write.Laws.{encode}
use pxbee_open_close.Device.Radio.{be_bytes}
use pxbee_open_close.Command.{Request, State, change_entry, released, max_param_length}
use pxbee_open_close.Command.Build.{set_callback}
use pxbee_open_close.Command.Send.{send}
use pxbee_open_close.Command.Respond.{handle_response}
use pxbee_open_close.Command.Respond.Laws.{local_response}
use pxbee_open_close.Command.Exchange.{send_answered, with_request-split}
use pxbee_open_close.Command.Expire.{is_free, new_request, dev_flag_cmd_init}
use pxbee_open_close.Command.Expire.Create.{IsUsed, create_lem}
use pxbee_open_close.App.Console.{
  xbee_cmd_callback, console_callbacks, asked_command, ask, read_console_commands,
}

-- the request that the menu fills in
abbrev asked : ℕ → ℕ → ℕ → Request → Request
asked now xdev command r = record (new_request now xdev command r) {
  callback = some xbee_cmd_callback;
  context = none;
}

set_callback-split :
    {W : Type 0} (before rest : List Request) (r : Request) (s : State W)
    → s.table ≡ before ++ (r ∷ rest)
    → r.sequence < 256
    → length before < 2
    → set_callback (pos (length before * 256 + r.sequence)) (some xbee_cmd_callback) none s ≡ (
      pos 0,
      record s {
        table = before ++ (record r { callback = some xbee_cmd_callback; context = none } ∷ rest);
      },
    )
unfolding set_callback
set_callback-split before rest r s split small inside =
    with_request-split before rest r
      (λ q. record q { callback = some xbee_cmd_callback; context = none }) s split small inside

module _ {W : Type 0} (init : ℕ → State W → State W) (run_tick : State W → ℕ × State W) where
  -- With a free entry, the request is created, filled in and sent.
  ask_lem :
      (now xdev command : ℕ) (before rest : List Request) (r : Request) (s : State W)
      → s.table ≡ before ++ (r ∷ rest)
      → All IsUsed before
      → is_free r ≡ true
      → has (s.devices xdev).flags dev_flag_cmd_init ≡ true
      → r.sequence < 256
      → length before < 2
      → ask init run_tick now xdev command s
        ≡ (send now
            (pos (length before * 256 + r.sequence))
            (record s { table = before ++ (asked now xdev command r ∷ rest) })).1
  unfolding ask new_request
  ask_lem now xdev command before rest r s split used free set_up small inside =
      let h = length before * 256 + r.sequence in
      let opened_state = record s { table = before ++ (new_request now xdev command r ∷ rest) } in
      let made = create_lem init run_tick now xdev command before rest r s split used free set_up in
      let filled =
        set_callback-split before rest (new_request now xdev command r) opened_state refl small
          inside in
      rw (ask, made) (ap (λ p. (send now (pos h) p.1).1) filled)

  asked_small : (option command : ℕ) → asked_command option ≡ some command → command < 65536
  asked_small option command chosen = ground arith

  read-ask :
      (now xdev option command : ℕ) (s : State W)
      → asked_command option ≡ some command
      → read_console_commands init run_tick now xdev (some option) s
        ≡ ask init run_tick now xdev command s
  unfolding read_console_commands
  read-ask now xdev option command s chosen = rw (read_console_commands, chosen) refl

  -- A key of the menu that asks for a parameter, on a device whose command table was set up before,
  -- with a free entry in the table of requests and a radio that is ready: one API frame with the command and the next frame identifier is sent. The radio's answer
  -- to it, whatever its status and value, releases the request and changes nothing else, if no
  -- request in front waits for the same identifier.
  pub console_asks :
      (now later xdev option command status : ℕ) (before rest : List Request) (r : Request)
      (reply : Bytes) (l : Line) (s : State W)
      → asked_command option ≡ some command
      → s.table ≡ before ++ (r ∷ rest)
      → All IsUsed before
      → is_free r ≡ true
      → has (s.devices xdev).flags dev_flag_cmd_init ≡ true
      → r.sequence < 256
      → length before < 2
      → (s.devices xdev).radio.line ≡ some l
      → l.valid ≡ true
      → (l.use_flowcontrol ≡ false) ⊎ (l.cts ≡ true)
      → length reply < 256
      → All
          (λ q.
            (q.device ≢ some xdev) ⊎ (q.frame_id ≢ next_frame_id (s.devices xdev).radio.frame_id))
          before
      → let after = read_console_commands init run_tick now xdev (some option) s in
        let id = next_frame_id (s.devices xdev).radio.frame_id in
        ((after.devices xdev).radio ≡ record {
          line = some (record l { sent = l.sent ++ encode (0x08 ∷ id ∷ be_bytes 2 command []) });
          frame_id = id;
        })
        × (handle_response console_callbacks later xdev
              (some (local_response id command status reply))
              after
            ≡ (pos 0, change_entry (length before) released after))
  unfolding new_request
  console_asks now later xdev option command status before rest r reply l s chosen split used free
        set_up small inside line valid ready short others =
      let h = length before * 256 + r.sequence in
      let r1 = asked now xdev command r in
      let s1 = record s { table = before ++ (r1 ∷ rest) } in
      let asks =
        read-ask now xdev option command s chosen
        ∙ ask_lem now xdev command before rest r s split used free set_up small inside in
      let (fine, radio, answered) =
        send_answered console_callbacks now later xdev xbee_cmd_callback status before rest r1 []
          (replicate max_param_length 0) reply l s1 refl inside small refl refl refl refl
          (omega arith) line valid ready refl (asked_small option command chosen) short others in
      (ap (λ x. (x.devices xdev).radio) asks ∙ radio, rw asks answered)
