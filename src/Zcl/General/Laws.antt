-- ===== src/Zcl/General/Laws.antt =====
-- What zcl_general_command does with the frames of requests.
use pxbee_open_close.Prelude.{
  ◌==◌, true, ℕ, ℤ, ◌≡◌, refl, Option, some, List, ◌++◌, length, if◌then◌else◌, leb, take, min, ◌∷◌,
  ◌+◌, ◌*◌, arith, bit_and,
}
use pxbee_open_close.Prelude.Bits.{Bytes, IsByte, has}
use pxbee_open_close.Wpan.{Envelope, Devices, EndpointSend, envelope_rx_aps_encrypt}
use pxbee_open_close.Zcl.{Attribute, AttributeTree, Command, frame_type_mask}
use pxbee_open_close.Zcl.Parse.Laws.{
  Frame, IsFrame, Carries, print, command_of, command_build-print,
}
use pxbee_open_close.Zcl.Response.Header.{answer, turned, reply_control-turned}
use pxbee_open_close.Zcl.Attributes.Sorted.{IsTable, listed}
use pxbee_open_close.Zcl.Parse.{find_attributes}
use pxbee_open_close.Zcl.Discover.Laws.{discover_body_lem, reports, from_id}
use pxbee_open_close.Zcl.Read.Frames.{reply_frame, respond_lem}
use pxbee_open_close.Zcl.Discover.{discover_body, discover_attributes}
use pxbee_open_close.Zcl.General.{World, general_command, on_command}

-- whether they are all, as a byte, and the first `limit` of the attributes from `start` on
abbrev pub found_from : ℕ → ℕ → List Attribute → Bytes
found_from start limit es =
    (if leb (length (from_id start (listed es))) limit then 1 else 0)
    ∷ reports (take limit (from_id start (listed es)))

-- the frame that answers a request to discover attributes
abbrev pub discovered : Frame → Bytes → Frame
discovered f body = record f {
  frame_control = turned f.frame_control;
  command = 0x0d;
  payload = body;
}

module _ {W : Type 0} where
  -- what sending a response to a command comes to
  abbrev pub sent : EndpointSend W → Command → ℕ → Bytes → W → ℤ × W
  sent send c code body w =
      send
        (answer c.envelope (print (reply_frame c code body))
          (length (print (reply_frame c code body))))
        (if has c.envelope.options envelope_rx_aps_encrypt then 1 else 0) w

  -- A general frame with a command code, carried by an envelope from a device that can send.
  pub record IsRequest (devices : Devices W) (e : Envelope) (f : Frame) (code d : ℕ)
      (send : EndpointSend W) : Type 0 where
    pub frame : IsFrame f
    pub carries : Carries e (print f)
    pub byte : IsByte f.frame_control
    pub general : bit_and f.frame_control frame_type_mask ≡ 0
    pub asks : f.command ≡ code
    pub at_device : e.dev ≡ some d
    pub is_send : devices d ≡ some send

  -- A general Discover Attributes request, in a message that holds its frame and came in on a device
  -- that can send, for a cluster with a table in the order of the ids, is answered by one message,
  -- back to the sender and encrypted if the request was: a frame of command 13 with the request's
  -- sequence number, manufacturer code and type, in the opposite direction. Its payload reports the
  -- attributes from the id asked for on, in order, up to the number asked for and 20 at most, behind
  -- a byte that is 1 if these are all and 0 if there are more. What sending the message gives is
  -- returned, and neither the attributes nor the conversations change.
  pub general_discover :
      (depth : ℕ) (devices : Devices W) (e : Envelope) (f : Frame) (d : ℕ) (send : EndpointSend W)
      (tree : Option (List AttributeTree)) (g : World W) (low lo hi limit : ℕ) (more : Bytes)
      (es : List Attribute)
      → (r : IsRequest devices e f 0x0c d send) → f.payload ≡ lo ∷ hi ∷ limit ∷ more
      → IsByte lo
      → IsByte hi
      → find_attributes f.mfg_code f.frame_control tree ≡ some es
      → IsTable low es
      → let bytes = print (discovered f (found_from (lo + 256 * hi) (min 20 limit) es)) in
        let (error, outside) =
          send (answer e bytes (length bytes)) (if has e.options 0x0400 then 1 else 0) g.outside in
        general_command devices depth e tree g ≡ some (error, record g { outside = outside })
  unfolding general_command on_command discover_attributes
  general_discover depth devices e f d send tree g low lo hi limit more es r asked l h found table =
      let c = command_of e f tree r.carries.rest in
      let body = found_from (lo + 256 * hi) (min 20 limit) es in
      let built = command_build-print e f tree r.frame r.carries in
      let is_code : (f.command == 0x0c) ≡ true = rw r.asks refl in
      let made : discover_body c.attributes (f.payload ++ r.carries.rest) ≡ body =
        rw (found, asked)
          (discover_body_lem low es (lo ∷ hi ∷ limit ∷ (more ++ r.carries.rest)) table
            (omega arith)) in
      let answered =
        respond_lem devices c d send 0x0d body g.outside r.byte r.at_device r.is_send in
      let control = reply_control-turned f.frame_control r.byte in
      rw (general_command, built, r.general, is_code)
        (rw (discover_attributes, made, answered, control) refl)
