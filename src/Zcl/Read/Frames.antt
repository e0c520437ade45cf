-- ===== src/Zcl/Read/Frames.antt =====
-- The frame that answers a general request.
use pxbee_open_close.Prelude.{
  ℕ, ◌+◌, ◌-◌, ◌≡◌, arith, some, [], ◌∷◌, ◌++◌, length, Bool-cases, inl, inr, if◌then◌else◌, drop,
}
use pxbee_open_close.Prelude.Bits.{Bytes, IsByte, has}
use pxbee_open_close.Wpan.{Devices, EndpointSend, envelope_rx_aps_encrypt}
use pxbee_open_close.Zcl.{Command, frame_mfg_specific}
use pxbee_open_close.Zcl.Parse.Laws.{Frame, frame_of, print}
use pxbee_open_close.Zcl.Response.{build_header}
use pxbee_open_close.Zcl.Response.Header.{reply_to, has-reply_control, answer, send_response_lem}
use pxbee_open_close.Zcl.Read.{respond}

-- the frame of a response to a command
abbrev pub reply_frame : Command → ℕ → Bytes → Frame
reply_frame c code body = reply_to (frame_of c []) code body

header_print :
    (c : Command) (code : ℕ) (body : Bytes)
    → IsByte c.frame_control
    → drop
          (build_header (0 ∷ 0 ∷ 0 ∷ 0 ∷ code ∷ []) c).0
          (build_header (0 ∷ 0 ∷ 0 ∷ 0 ∷ code ∷ []) c).1
        ++ body
      ≡ print (reply_frame c code body)
unfolding build_header
header_print c code body byte = elim (Bool-cases (has c.frame_control frame_mfg_specific)) [
  | inl with_mfg ↦ ground (arith, has-reply_control c.frame_control byte)
  | inr no_mfg ↦ ground (arith, has-reply_control c.frame_control byte)
]

header_length :
    (c : Command) (code : ℕ) (body : Bytes)
    → IsByte c.frame_control
    → 5 - (build_header (0 ∷ 0 ∷ 0 ∷ 0 ∷ code ∷ []) c).0 + length body
      ≡ length (print (reply_frame c code body))
unfolding build_header
header_length c code body byte = elim (Bool-cases (has c.frame_control frame_mfg_specific)) [
  | inl with_mfg ↦ ground (arith, has-reply_control c.frame_control byte)
  | inr no_mfg ↦ ground (arith, has-reply_control c.frame_control byte)
]

-- A response is sent as one message whose bytes, all of which its length counts, are the printed
-- reply frame to the request with the command and the body.
pub respond_lem :
    {W : Type 0} (devices : Devices W) (c : Command) (d : ℕ) (send : EndpointSend W) (code : ℕ)
    (body : Bytes) (w : W)
    → IsByte c.frame_control
    → c.envelope.dev ≡ some d
    → devices d ≡ some send
    → respond devices c code body w
      ≡ send
          (answer c.envelope
            (print (reply_frame c code body))
            (length (print (reply_frame c code body))))
          (if has c.envelope.options envelope_rx_aps_encrypt then 1 else 0)
          w
unfolding respond
respond_lem devices c d send code body w byte at_device is_send =
    rw (header_print c code body byte, header_length c code body byte)
      (send_response_lem devices c d send (print (reply_frame c code body))
        (length (print (reply_frame c code body))) w at_device is_send)
