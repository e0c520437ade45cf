-- ===== src/Command/Send.antt =====
-- Sending requests: xbee_cmd_send, xbee_cmd_simple, xbee_cmd_execute and xbee_identify of
-- pxbee/pan/xbee/xbee_atcmd.c, with the headers of pxbee/headers/xbee/atcmd.h.
pub mod Laws
pub mod Keeps
use pxbee_open_close.Prelude.{
  ℕ, ◌+◌, ◌%◌, ℤ, pos, einval, is_zero, Bool, not, Option, none, some, [], ◌∷◌, ◌==◌, if◌then◌else◌,
  get_elem?, length,
}
use pxbee_open_close.Prelude.Bits.{Bytes, has}
use pxbee_open_close.Device.{next_frame_id}
use pxbee_open_close.Device.Write.{frame_write}
use pxbee_open_close.Device.Radio.{Radio, be_bytes}
use pxbee_open_close.Command.{
  Request, Dev, State, change_entry, released, handle_to_address, flag_remote, flag_queue_change,
  flag_reuse_handle,
}
use pxbee_open_close.Command.Build.{encode_param}

-- XBEE_CMD_REMOTE_TIMEOUT and XBEE_CMD_LOCAL_TIMEOUT
abbrev pub remote_timeout : ℕ
remote_timeout = 180

abbrev pub local_timeout : ℕ
local_timeout = 2

-- XBEE_FRAME_LOCAL_AT_CMD, XBEE_FRAME_LOCAL_AT_CMD_Q and XBEE_FRAME_REMOTE_AT_CMD
abbrev pub frame_local_at_cmd : ℕ
frame_local_at_cmd = 0x08

abbrev pub frame_local_at_cmd_q : ℕ
frame_local_at_cmd_q = 0x09

abbrev pub frame_remote_at_cmd : ℕ
frame_remote_at_cmd = 0x17

-- XBEE_SET_TIMEOUT_SEC, where xbee_seconds_timer() is `now` in its low half
abbrev pub timeout_after : ℕ → ℕ → ℕ
timeout_after delay now = (now + delay) % 65536

-- `xbee_header_local_at_req_t` and `xbee_header_remote_at_req_t`, filled in
unfoldable pub local_header : ℕ → ℕ → ℕ → Bytes
local_header frame_type frame_id command = frame_type ∷ frame_id ∷ be_bytes 2 command []

unfoldable pub request_header : Request → ℕ → Bytes
unfolding local_header
request_header r frame_id =
    let queued = has r.flags flag_queue_change in
    if has r.flags flag_remote
    then frame_remote_at_cmd
      ∷ frame_id
      ∷ be_bytes 8 r.address.ieee
          (be_bytes 2 r.address.network ((if queued then 0 else 2) ∷ be_bytes 2 r.command []))
    else local_header (if queued then frame_local_at_cmd_q else frame_local_at_cmd) frame_id
        r.command

module _ {W : Type 0} where
  -- a change of one device
  abbrev pub with_device : ℕ → (Dev → Dev) → State W → State W
  with_device d f s = record s { devices = λ j. if j == d then f (s.devices j) else s.devices j }

  -- `xbee_next_frame_id`
  unfoldable pub take_frame_id : Option ℕ → State W → ℕ × State W
  take_frame_id none s = (0, s)
  take_frame_id (some d) s =
      let id = next_frame_id ((s.devices d).radio.frame_id) in
      (
        id,
        with_device d
            (λ dev. record dev { radio = record { line = dev.radio.line; frame_id = id } }) s,
      )

  -- `xbee_frame_write` on a device
  unfoldable pub write_frame : Option ℕ → Bytes → Option Bytes → ℕ → State W → ℤ × State W
  write_frame none header bytes size s = (einval, s)
  write_frame (some d) header bytes size s =
      let radio = (s.devices d).radio in
      let (error, line') = frame_write radio.line (some header) (length header) bytes size in
      (
        error,
        with_device d
            (λ dev. record dev { radio = record { line = line'; frame_id = radio.frame_id } }) s,
      )

  -- the frame identifier of a request: 0 where nothing waits for the response
  request_id : Request → State W → ℕ × State W
  request_id r s = elim r.callback [ none ↦ (0, s) | some _ ↦ take_frame_id r.device s ]

  -- what a request that was sent becomes
  record_sent : ℕ → ℕ → ℕ → State W → State W
  record_sent now i frame_id s =
      if frame_id == 0
      then change_entry i (λ r. if has r.flags flag_reuse_handle then r else released r) s
      else change_entry i
          (λ r. record r {
            timeout =
                timeout_after (if has r.flags flag_remote then remote_timeout else local_timeout)
                  now;
          })
          s

  -- the entry `i`, with the request `r` in it, sent in a frame with this identifier
  send_as : ℕ → ℕ → Request → ℕ × State W → ℤ × State W
  send_as now i r (id, s) =
      let s1 = change_entry i (λ q. record q { frame_id = id }) s in
      let (error, s2) =
        write_frame r.device (request_header r id) (some r.param) r.param_length s1 in
      (error, if is_zero error then record_sent now i id s2 else s2)

  -- `now` is the low half of xbee_seconds_timer().
  unfoldable pub send : ℕ → ℤ → State W → ℤ × State W
  unfolding send_as request_id record_sent
  send now handle s = elim (handle_to_address handle s) [
    | none ↦ (einval, s)
    | some i ↦ elim (get_elem? s.table i) [
      | none ↦ (einval, s)
      | some r ↦ send_as now i r (request_id r s)
    ]
  ]

  unfoldable pub simple : Option ℕ → ℕ → ℕ → State W → ℤ × State W
  unfolding local_header
  simple xbee command value s =
      let request = frame_local_at_cmd ∷ 0 ∷ be_bytes 2 command (encode_param value) in
      write_frame xbee request none 0 s

  -- `bytes` is `none` for NULL
  unfoldable pub execute : Option ℕ → ℕ → Option Bytes → ℕ → State W → ℤ × State W
  execute xbee command bytes size s =
      let (id, s1) = take_frame_id xbee s in
      write_frame xbee (local_header frame_local_at_cmd id command) bytes size s1

  -- The last argument but one is the static `last_id`, and the result has its new value.
  unfoldable pub identify : Option ℕ → Bool → Bool → State W → Bool × State W
  identify xbee on last_id s =
      if (if on then not last_id else last_id)
      then (on, (simple xbee 0x4c54 (if on then 10 else 0) s).1)
      else (last_id, s)
