-- ===== src/Zcl/Response/Header.antt =====
-- What zcl_build_header writes, and what zcl_send_response then puts on the network.
use pxbee_open_close.Prelude.{
  [], ℕ, ◌+◌, ◌-◌, some, ◌∷◌, ◌≡◌, ◌==◌, refl, inl, inr, arith, if◌then◌else◌, Bool, true, ◌&&◌,
  Bool-cases, length, drop, bit_and, bit_or,
}
use pxbee_open_close.Prelude.Bits.{Bytes, IsByte, has, tested_below, tested_below_lem}
use pxbee_open_close.Wpan.{
  Envelope, Devices, EndpointSend, envelope_rx_aps_encrypt, clust_flag_encrypt,
}
use pxbee_open_close.Wpan.Addressing.{envelope_send, envelope_reply}
use pxbee_open_close.Zcl.{Command, frame_mfg_specific}
use pxbee_open_close.Zcl.Parse.Laws.{Frame, frame_of, print}
use pxbee_open_close.Zcl.Response.{response_control, build_header, send_response}

-- the frame control that goes out: with the bit of the manufacturer code where the request has it
abbrev pub reply_control : ℕ → ℕ
reply_control fc =
    if has fc frame_mfg_specific
    then bit_or (response_control fc) frame_mfg_specific
    else response_control fc

abbrev same_bit : ℕ → ℕ → ℕ → Bool
same_bit mask a b = bit_and a mask == bit_and b mask

abbrev control_ok : ℕ → Bool
control_ok fc =
    (bit_and (reply_control fc) 0xf7 == bit_and fc 0x07 + 0x10)
    && (bit_and (reply_control fc) 0x08 + bit_and fc 0x08 == 0x08)
    && same_bit 0x04 (reply_control fc) fc

control_table : tested_below control_ok 256 ≡ true
unfolding tested_below
control_table = refl

control_ok-true : (fc : ℕ) → IsByte fc → control_ok fc ≡ true
control_ok-true fc h = tested_below_lem control_ok 256 fc control_table h

-- the type and the bit of the manufacturer code are kept, the direction is turned round, and no
-- default response is wanted
abbrev pub turned : ℕ → ℕ
turned control = bit_and control 0x07 + 0x10 + (0x08 - bit_and control 0x08)

turned_table : tested_below (λ fc. reply_control fc == turned fc) 256 ≡ true
unfolding tested_below
turned_table = refl

pub reply_control-turned : (fc : ℕ) → IsByte fc → reply_control fc ≡ turned fc
reply_control-turned fc h =
    let same = tested_below_lem (λ k. reply_control k == turned k) 256 fc turned_table h in
    ground (arith, same)

-- Of the request's frame control the reply keeps the type and the bit of the manufacturer code,
-- toggles the direction, sets the bit that disables a default response, and clears the rest.
reply_control_lem :
    (fc : ℕ)
    → IsByte fc
    → (bit_and (reply_control fc) 0xf7 ≡ bit_and fc 0x07 + 0x10)
      × (bit_and (reply_control fc) 0x08 + bit_and fc 0x08 ≡ 0x08)
reply_control_lem fc h = ground (arith, control_ok-true fc h)

pub has-reply_control :
    (fc : ℕ) → IsByte fc → has (reply_control fc) frame_mfg_specific ≡ has fc frame_mfg_specific
has-reply_control fc h = ground (arith, control_ok-true fc h)

-- the frame that answers a request with a command code and a payload
abbrev pub reply_to : Frame → ℕ → Bytes → Frame
reply_to f code out = record {
  frame_control = reply_control f.frame_control;
  mfg_code = f.mfg_code;
  sequence = f.sequence;
  command = code;
  payload = out;
}

-- Whatever the first bytes of the structure held before, the bytes from the offset on that
-- zcl_build_header returns are the printed reply frame: for the sequence number, manufacturer code
-- and reply frame control of the request, the command code in the structure and what stands behind.
pub build_header_lem :
    (c : Command) (x y z u code : ℕ) (out : Bytes)
    → IsByte c.frame_control
    → drop
        (build_header (x ∷ y ∷ z ∷ u ∷ code ∷ out) c).0
        (build_header (x ∷ y ∷ z ∷ u ∷ code ∷ out) c).1
      ≡ print (reply_to (frame_of c []) code out)
unfolding build_header
build_header_lem c x y z u code out h = elim (Bool-cases (has c.frame_control frame_mfg_specific)) [
  | inl with_mfg ↦ ground (arith, has-reply_control c.frame_control h)
  | inr no_mfg ↦ ground (arith, has-reply_control c.frame_control h)
]

-- the envelope that answers `e` with `length` bytes of `response`
abbrev pub answer : Envelope → Bytes → ℕ → Envelope
answer e response length = record e {
  source_endpoint = e.dest_endpoint;
  dest_endpoint = e.source_endpoint;
  options = if has e.options envelope_rx_aps_encrypt then clust_flag_encrypt else 0;
  payload = some response;
  length = length;
}

-- A response goes out once, on the device that the request came in on, to the address, profile and
-- cluster that it came from with the endpoints exchanged, encrypted exactly if the request was.
pub send_response_lem :
    {W : Type 0} (devices : Devices W) (c : Command) (d : ℕ) (send : EndpointSend W)
    (response : Bytes) (length : ℕ) (w : W)
    → c.envelope.dev ≡ some d
    → devices d ≡ some send
    → send_response devices (some c) response length w
      ≡ send
          (answer c.envelope response length)
          (if has c.envelope.options envelope_rx_aps_encrypt then 1 else 0)
          w
unfolding send_response envelope_send envelope_reply
send_response_lem devices c d send response length w hd hs =
    elim (Bool-cases (has c.envelope.options envelope_rx_aps_encrypt)) [
      | inl e ↦ ground arith
      | inr e ↦ ground arith
    ]
