-- ===== src/Command/Exchange.antt =====
-- A request and its response together.
use pxbee_open_close.Prelude.{
  refl, ◌∙◌, if◌then◌else◌, ℕ, ◌+◌, ◌*◌, ◌<◌, ◌≡◌, ◌≢◌, ◌⊎◌, pos, true, false, some, List, ◌∷◌,
  ◌++◌, none, length, All, ap,
}
use pxbee_open_close.Prelude.Bits.{Bytes, has}
use pxbee_open_close.Device.{next_frame_id}
use pxbee_open_close.Device.Radio.{be_bytes}
use pxbee_open_close.Device.Write.{Line}
use pxbee_open_close.Device.Write.Laws.{encode}
use pxbee_open_close.Command.{Request, State, Callbacks, flag_remote, flag_queue_change}
use pxbee_open_close.Command.Build.{with_request}
use pxbee_open_close.Command.Slots.{modify-split}
use pxbee_open_close.Command.Send.{request_header, local_header, send}
use pxbee_open_close.Command.Send.Laws.{send_lem, waiting, handle_to_address-split}
use pxbee_open_close.Command.Respond.{handle_response, value_of}
use pxbee_open_close.Command.Respond.Laws.{local_response, concluded, response_lem}

-- the frame of a request to the local radio, as the documentation of the radio lays it out
abbrev pub local_request : Request → ℕ → Bytes → Bytes
local_request r id value =
    (if has r.flags flag_queue_change then 0x09 else 0x08) ∷ id ∷ be_bytes 2 r.command value

header-local :
    (r : Request) (id : ℕ) (value : Bytes)
    → has r.flags flag_remote ≡ false
    → request_header r id ++ value ≡ local_request r id value
unfolding request_header local_header be_bytes
header-local r id value local = rw (request_header, local) refl

-- A request to the local radio with a callback, for a device that is ready, goes on the line as one
-- API frame with the next frame identifier, the command and the parameter. The frame that the radio
-- answers it with, if no request in front waits for that identifier on that device, reaches the
-- callback with the handle, the context and the command of the request and the status and the value
-- of the frame. Behind it the request is released, or kept for five seconds if the callback says so.
pub send_answered :
    {W : Type 0} (callbacks : Callbacks W) (now later d c status : ℕ) (before rest : List Request)
    (r : Request) (value more reply : Bytes) (l : Line) (s : State W)
    → s.table ≡ before ++ (r ∷ rest)
    → length before < 2
    → r.sequence < 256
    → r.device ≡ some d
    → r.callback ≡ some c
    → r.param ≡ value ++ more
    → r.param_length ≡ length value
    → length value < 256
    → (s.devices d).radio.line ≡ some l
    → l.valid ≡ true
    → (l.use_flowcontrol ≡ false) ⊎ (l.cts ≡ true)
    → has r.flags flag_remote ≡ false
    → r.command < 65536
    → length reply < 256
    → All
        (λ q. (q.device ≢ some d) ⊎ (q.frame_id ≢ next_frame_id (s.devices d).radio.frame_id))
        before
    → let after = send now (pos (length before * 256 + r.sequence)) s in
      let id = next_frame_id (s.devices d).radio.frame_id in
      (after.0 ≡ pos 0)
      × ((after.1.devices d).radio ≡ record {
        line = some (record l { sent = l.sent ++ encode (local_request r id value) });
        frame_id = id;
      })
      × (handle_response callbacks later d (some (local_response id r.command status reply)) after.1
          ≡ (
            pos 0,
            concluded later (length before) (
                callbacks c
                  (record {
                    device = some d;
                    context = r.context;
                    handle = length before * 256 + r.sequence;
                    command = r.command;
                    flags = status;
                    value_length = length reply;
                    value_bytes = reply;
                    value = value_of (length reply) reply;
                    source = none;
                  })
                  after.1),
          ))
send_answered callbacks now later d c status before rest r value more reply l s split inside small
      dev called param count short line valid ready remote word reply_short others =
    let id = next_frame_id (s.devices d).radio.frame_id in
    let (fine, radio, table) =
      send_lem now d c before rest r value more l s split inside small dev called param count short
        line valid ready in
    (
      fine,
      radio
          ∙ ap (λ b. record { line = some (record l { sent = l.sent ++ encode b }); frame_id = id })
              (header-local r id value remote),
      response_lem callbacks later d c status reply before rest (waiting now id r)
          (send now (pos (length before * 256 + r.sequence)) s).1 table others dev called remote
          word reply_short,
    )

-- A change through the handle of a request changes this request.
pub with_request-split :
    {W : Type 0} (before rest : List Request) (r : Request) (f : Request → Request) (s : State W)
    → s.table ≡ before ++ (r ∷ rest)
    → r.sequence < 256
    → length before < 2
    → with_request (pos (length before * 256 + r.sequence)) f s
      ≡ (pos 0, record s { table = before ++ (f r ∷ rest) })
unfolding with_request
with_request-split before rest r f s split small inside =
    rw (with_request, handle_to_address-split before rest r s split small inside)
      (rw split (ap (λ t. (pos 0, record s { table = t })) (modify-split before rest r f)))
