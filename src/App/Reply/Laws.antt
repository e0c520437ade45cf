-- ===== src/App/Reply/Laws.antt =====
-- What an answer to a general command is on the network.
use pxbee_open_close.Prelude.{
  ℕ, ◌≤◌, ◌-◌, some, ◌∷◌, ◌≡◌, refl, arith, if◌then◌else◌, true, false, not, ◌||◌, length, take,
  drop, replicate, ap,
}
use pxbee_open_close.Prelude.Bits.{Bytes, IsByte, has, tested_below, tested_below_lem}
use pxbee_open_close.Wpan.{Envelope, Devices, EndpointSend, envelope_rx_aps_encrypt}
use pxbee_open_close.Zcl.{Command, frame_mfg_specific}
use pxbee_open_close.Zcl.Parse.{memory}
use pxbee_open_close.Zcl.Response.{Cursor}
use pxbee_open_close.Zcl.Response.Header.{answer, reply_control, send_response_lem}
use pxbee_open_close.App.Reply.{is_profile_request, open_response, close_response}

request_table :
    tested_below (λ fc. not (is_profile_request fc) || not (has fc frame_mfg_specific)) 256 ≡ true
unfolding tested_below
request_table = refl

-- a general request has no manufacturer code
pub no_mfg : (fc : ℕ) → IsByte fc → is_profile_request fc ≡ true → has fc frame_mfg_specific ≡ false
no_mfg fc h r = ground (arith, tested_below_lem _ 256 fc request_table h)

-- `sent` answers `e`: it goes back to where `e` came from, and its message is `bytes`, all of them
-- in memory that the response holds.
pub record Answers (e sent : Envelope) (bytes : Bytes) : Type 0 where
  pub addressed : sent ≡ answer e (memory sent.payload) sent.length
  pub message : take sent.length (memory sent.payload) ≡ bytes
  pub whole : sent.length ≤ length (memory sent.payload)

-- the envelope that the cursor makes of a response to `e`
abbrev pub sent_by : Envelope → ℕ × Cursor → Envelope
sent_by e (start, c) = answer e (drop start c.mem) (c.end - start)

-- the structure of a response to a general request, before the buffer is filled
pub opened :
    (code : ℕ) (c : Command)
    → has c.frame_control frame_mfg_specific ≡ false
    → open_response code c ≡ (
      2,
      record {
        mem = 0 ∷ 0 ∷ reply_control c.frame_control ∷ c.sequence ∷ code ∷ replicate 20 0;
        end = 5;
      },
    )
unfolding open_response
opened code c h = ground arith

-- the flags that go with an answer
abbrev pub flags_for : Envelope → ℕ
flags_for e = if has e.options envelope_rx_aps_encrypt then 1 else 0

pub closed :
    {W : Type 0} (devices : Devices W) (zcl : Command) (d : ℕ) (send : EndpointSend W) (start : ℕ)
    (c : Cursor) (w : W)
    → zcl.envelope.dev ≡ some d
    → devices d ≡ some send
    → close_response devices zcl start c w
      ≡ (send (sent_by zcl.envelope (start, c)) (flags_for zcl.envelope) w).1
unfolding close_response
closed devices zcl d send start c w dev device =
    ap (λ r. r.1)
      (send_response_lem devices zcl d send (drop start c.mem) (c.end - start) w dev device)
