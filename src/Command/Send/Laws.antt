-- ===== src/Command/Send/Laws.antt =====
-- What a sent request puts on the serial line, and what becomes of its entry.
use pxbee_open_close.Prelude.{
  ==_refl, ℕ, ◌+◌, ◌*◌, ◌<◌, ◌≡◌, ◌⊎◌, refl, ap, sym, ◌∙◌, ℤ, pos, true, false, Option, some, List,
  [], ◌∷◌, ◌++◌, append-nil, if_ind, ◌==◌, length, get_elem?, arith, if◌then◌else◌,
}
use pxbee_open_close.Prelude.Bits.{Bytes, has}
use pxbee_open_close.Device.{next_frame_id}
use pxbee_open_close.Device.Write.{Line, frame_write}
use pxbee_open_close.Device.Write.Laws.{encode, frame_write_lem}
use pxbee_open_close.Device.Radio.{Radio, be_bytes}
use pxbee_open_close.Command.{Request, State, change_entry, modify, handle_to_address, flag_remote}
use pxbee_open_close.Command.Slots.{modify-split, get_elem?-split, entry_of-split}
use pxbee_open_close.Command.Send.{
  local_header, request_header, write_frame, take_frame_id, request_id, record_sent, send_as, send,
  local_timeout, remote_timeout, timeout_after,
}

-- a handle of a split table names the entry
pub handle_to_address-split :
    {W : Type 0} (before rest : List Request) (r : Request) (s : State W)
    → s.table ≡ before ++ (r ∷ rest)
    → r.sequence < 256
    → length before < 2
    → handle_to_address (pos (length before * 256 + r.sequence)) s ≡ some (length before)
unfolding handle_to_address
handle_to_address-split before rest r s split small inside =
    rw split (ground (arith, entry_of-split before rest r small))

send-at :
    {W : Type 0} (now : ℕ) (handle : ℤ) (i : ℕ) (r : Request) (s : State W)
    → handle_to_address handle s ≡ some i
    → get_elem? s.table i ≡ some r
    → send now handle s ≡ send_as now i r (request_id r s)
unfolding send
send-at now handle i r s named there = rw (send, named, there) refl

header_length :
    (r : Request) (id : ℕ)
    → (0 < length (request_header r id)) × (length (request_header r id) < 256)
unfolding request_header local_header be_bytes
header_length r id = ground arith

-- What is written for a device that is ready.
write_frame_lem :
    {W : Type 0} (dev : Option ℕ) (d n : ℕ) (header param value more : Bytes) (l : Line)
    (s : State W)
    → dev ≡ some d
    → param ≡ value ++ more
    → n ≡ length value
    → (s.devices d).radio.line ≡ some l
    → l.valid ≡ true
    → (l.use_flowcontrol ≡ false) ⊎ (l.cts ≡ true)
    → length header < 256
    → length value < 256
    → 0 < length header
    → let after = write_frame dev header (some param) n s in
      (after.0 ≡ pos 0)
      × ((after.1.devices d).radio ≡ record {
        line = some (record l { sent = l.sent ++ encode (header ++ value) });
        frame_id = (s.devices d).radio.frame_id;
      })
      × (after.1.table ≡ s.table)
unfolding write_frame
write_frame_lem dev d n header param value more l s is_d is_value count there valid ready h v
      some_header =
    let radio_of : ℤ × Option Line → Radio =
      λ p. record { line = p.1; frame_id = (s.devices d).radio.frame_id } in
    let write = λ (line : Option Line) (x p : Bytes) (m : ℕ).
      frame_write line (some x) (length header) (some p) m in
    let wrote : write (s.devices d).radio.line header param n
        ≡ (pos 0, some (record l { sent = l.sent ++ encode (header ++ value) })) =
      rw (there, is_value, count)
        (ap (λ x. write (some l) x (value ++ more) (length value)) (sym (append-nil header))
          ∙ frame_write_lem l header value [] more valid ready h v (omega arith)) in
    rw is_d (ap (λ p. p.0) wrote, rw (==_refl d) (ap radio_of wrote), refl)

take_frame_id_radio :
    {W : Type 0} (d : ℕ) (s : State W)
    → ((take_frame_id (some d) s).1.devices d).radio ≡ record {
      line = (s.devices d).radio.line;
      frame_id = next_frame_id (s.devices d).radio.frame_id;
    }
unfolding take_frame_id
take_frame_id_radio d s = rw (==_refl d) refl

-- the entry of a request that waits for a response to the frame `id`
abbrev pub waiting : ℕ → ℕ → Request → Request
waiting now id r = record r {
  frame_id = id;
  timeout = timeout_after (if has r.flags flag_remote then remote_timeout else local_timeout) now;
}

next_frame_id_positive : (id : ℕ) → (next_frame_id id == 0) ≡ false
unfolding next_frame_id
next_frame_id_positive id = ground arith

-- the state in which the frame of a request is written
abbrev numbered : {W : Type 0} → ℕ → ℕ → State W → State W
numbered i d s =
    let (id, s1) = take_frame_id (some d) s in change_entry i (λ q. record q { frame_id = id }) s1

request_id-callback :
    {W : Type 0} (d c : ℕ) (r : Request) (s : State W)
    → r.callback ≡ some c
    → r.device ≡ some d
    → request_id r s ≡ take_frame_id (some d) s
unfolding request_id
request_id-callback d c r s called dev = rw called (ap (λ x. take_frame_id x s) dev)

send_as_lem :
    {W : Type 0} (now i id : ℕ) (r : Request) (s : State W)
    → let s1 = change_entry i (λ q. record q { frame_id = id }) s in
      let wrote = write_frame r.device (request_header r id) (some r.param) r.param_length s1 in
      wrote.0 ≡ pos 0 → send_as now i r (id, s) ≡ (pos 0, record_sent now i id wrote.1)
unfolding send_as
send_as_lem now i id r s fine = rw fine refl

abbrev timed : ℕ → Request → Request
timed now r = record r {
  timeout = timeout_after (if has r.flags flag_remote then remote_timeout else local_timeout) now;
}

sent_table :
    {W : Type 0} (now i id : ℕ) (s : State W)
    → (id == 0) ≡ false
    → (record_sent now i id s).table ≡ modify i (timed now) s.table
unfolding record_sent
sent_table now i id s positive = rw positive refl

sent_devices :
    {W : Type 0} (now i id : ℕ) (s : State W) → (record_sent now i id s).devices ≡ s.devices
unfolding record_sent
sent_devices now i id s = if_ind (λ (x : State _). x.devices ≡ s.devices) (id == 0) refl refl

-- A request with a callback, for a device that is ready, is sent as one API frame: the header for
-- the local or the remote radio with the next frame identifier, and the parameter. The entry waits
-- for the response from then on, and the others are as they were.
pub send_lem :
    {W : Type 0} (now d c : ℕ) (before rest : List Request) (r : Request) (value more : Bytes)
    (l : Line) (s : State W)
    → s.table ≡ before ++ (r ∷ rest)
    → length before < 2
    → r.sequence < 256
    → r.device ≡ some d
    → r.callback ≡ some c
    → r.param ≡ value ++ more
    → r.param_length ≡ length value
    → length value < 256
    → (s.devices d).radio.line ≡ some l
    → l.valid ≡ true
    → (l.use_flowcontrol ≡ false) ⊎ (l.cts ≡ true)
    → let after = send now (pos (length before * 256 + r.sequence)) s in
      let id = next_frame_id (s.devices d).radio.frame_id in
      (after.0 ≡ pos 0)
      × ((after.1.devices d).radio ≡ record {
        line = some (record l { sent = l.sent ++ encode (request_header r id ++ value) });
        frame_id = id;
      })
      × (after.1.table ≡ before ++ (waiting now id r ∷ rest))
unfolding take_frame_id
send_lem now d c before rest r value more l s split inside small dev cb param count short line valid
      ready =
    let i = length before in
    let id = next_frame_id (s.devices d).radio.frame_id in
    let s1 = numbered i d s in
    let (positive, below) = header_length r id in
    let took = take_frame_id_radio d s in
    let (fine, radio, table) =
      write_frame_lem r.device d r.param_length (request_header r id) r.param value more l s1 dev
        param count (ap (λ x. x.line) took ∙ line) valid ready below short positive in
    let with_id : Radio → Radio = λ x. record {
      line = some (record l { sent = l.sent ++ encode (request_header r id ++ value) });
      frame_id = x.frame_id;
    } in
    let s2 = (write_frame r.device (request_header r id) (some r.param) r.param_length s1).1 in
    let done : send now (pos (i * 256 + r.sequence)) s ≡ (pos 0, record_sent now i id s2) =
      send-at now (pos (i * 256 + r.sequence)) i r s
        (handle_to_address-split before rest r s split small inside)
        (ap (λ t. get_elem? t i) split ∙ get_elem?-split before rest r)
      ∙ ap (send_as now i r) (request_id-callback d c r s cb dev)
      ∙ send_as_lem now i id r (take_frame_id (some d) s).1 fine in
    (
      ap (λ p. p.0) done,
      ap (λ p. (p.1.devices d).radio) done
          ∙ ap (λ f. (f d).radio) (sent_devices now i id s2)
          ∙ radio
          ∙ ap with_id took,
      ap (λ p. p.1.table) done
          ∙ sent_table now i id s2 (next_frame_id_positive (s.devices d).radio.frame_id)
          ∙ ap (modify i (timed now)) table
          ∙ ap (modify i (timed now)) (ap (modify i (λ q. record q { frame_id = id })) split)
          ∙ ap (modify i (timed now)) (modify-split before rest r (λ q. record q { frame_id = id }))
          ∙ modify-split before rest (record r { frame_id = id }) (timed now),
    )
