-- ===== src/App/RxCluster/Laws.antt =====
-- What the handler of the on/off cluster sends, and when it sends nothing.
use pxbee_open_close.Prelude.{
  ℕ, ◌⊎◌, ◌<◌, pos, Option, some, List, [], ◌∷◌, ◌≡◌, refl, arith, true, false, replicate, ◌≢◌,
}
use pxbee_open_close.Prelude.Bits.{IsByte}
use pxbee_open_close.Wpan.{Envelope, Devices, EndpointSend}
use pxbee_open_close.Zcl.{AttributeTree, Command}
use pxbee_open_close.Zcl.Parse.Laws.{
  Frame, IsFrame, Carries, print, command_of, command_build-print, header_length,
  command_build_short,
}
use pxbee_open_close.Zcl.Response.Header.{reply_to, reply_control, has-reply_control}
use pxbee_open_close.App.{Sensor}
use pxbee_open_close.App.Reply.{is_profile_request, level, open_response}
use pxbee_open_close.App.Reply.Laws.{no_mfg, Answers, sent_by, opened, flags_for, closed}
use pxbee_open_close.App.RxCluster.{read_response, configure_response, rx_cluster_callback}

module _ {W : Type 0} (devices : Devices W) (gpio_get : Sensor W) (e : Envelope) (f : Frame)
    (tree : Option (List AttributeTree)) (d : ℕ) (send : EndpointSend W) (w : W)
    (dev : e.dev ≡ some d) (device : devices d ≡ some send) (frame : IsFrame f)
    (carried : Carries e (print f)) (control : IsByte f.frame_control) where
  abbrev zcl : Command
  zcl = command_of e f tree carried.rest

  -- A general request of a client to read attributes, in a message that holds its frame and came in
  -- on a device that can send, is answered by one message, and nothing else is sent: it says with
  -- status success that the Boolean attribute 0 is the level that the sensor had when it was read,
  -- under the sequence number of the request, and goes back to where the request came from.
  pub rx_read :
      is_profile_request f.frame_control ≡ true
      → f.command ≡ 0x00
      → (sent : Envelope) × (rx_cluster_callback devices gpio_get (some e) tree w
          ≡ (pos 0, (send sent (flags_for e) (gpio_get w).1).1))
        × Answers e sent
            (print (reply_to f 0x01 (0x00 ∷ 0x00 ∷ 0x00 ∷ 0x10 ∷ level (gpio_get w).0 ∷ [])))
  unfolding rx_cluster_callback
  rx_read r k = (
    sent_by e (
      2,
      record {
        mem =
            0
            ∷ 0
            ∷ reply_control f.frame_control
            ∷ f.sequence
            ∷ 1
            ∷ 0
            ∷ 0
            ∷ 0
            ∷ 16
            ∷ level (gpio_get w).0
            ∷ replicate 15 0;
        end = 10;
      },
    ),
    ground (
      arith,
      command_build-print e f tree frame carried,
      opened 1 zcl (no_mfg f.frame_control control r),
      closed devices zcl d send 2 (read_response (gpio_get w).0 (open_response 1 zcl).1)
          (gpio_get w).1 dev device,
    ),
    record {
      addressed = refl;
      message =
          ground
            (arith, no_mfg f.frame_control control r, has-reply_control f.frame_control control);
      whole = omega arith;
    },
  )

  -- A general request of a client to configure reporting, in a message that holds its frame and came
  -- in on a device that can send, is answered by one message, and nothing else is sent: its payload
  -- is four bytes 0, whatever the request asks for, and it goes back under the sequence number of the
  -- request to where the request came from.
  pub rx_configure :
      is_profile_request f.frame_control ≡ true
      → f.command ≡ 0x06
      → (sent : Envelope) × (rx_cluster_callback devices gpio_get (some e) tree w
          ≡ (pos 0, (send sent (flags_for e) w).1))
        × Answers e sent (print (reply_to f 0x07 (0x00 ∷ 0x00 ∷ 0x00 ∷ 0x00 ∷ [])))
  unfolding rx_cluster_callback
  rx_configure r k = (
    sent_by e (
      2,
      record {
        mem = 0 ∷ 0 ∷ reply_control f.frame_control ∷ f.sequence ∷ 7 ∷ replicate 20 0;
        end = 9;
      },
    ),
    ground (
      arith,
      command_build-print e f tree frame carried,
      opened 7 zcl (no_mfg f.frame_control control r),
      closed devices zcl d send 2 (configure_response (open_response 7 zcl).1) w dev device,
    ),
    record {
      addressed = refl;
      message =
          ground
            (arith, no_mfg f.frame_control control r, has-reply_control f.frame_control control);
      whole = omega arith;
    },
  )

  -- Every other message that holds its frame is ignored: a manufacturer-specific one, one for a cluster
  -- command, one that comes from a server, and any command but these two.
  pub rx_ignores :
      (is_profile_request f.frame_control ≡ false) ⊎ ((f.command ≢ 0x00) × (f.command ≢ 0x06))
      → rx_cluster_callback devices gpio_get (some e) tree w ≡ (pos 0, w)
  unfolding rx_cluster_callback
  rx_ignores r = ground (arith, command_build-print e f tree frame carried)

-- A message that is shorter than its header is ignored too.
pub rx_short :
    {W : Type 0} (devices : Devices W) (gpio_get : Sensor W) (e : Envelope)
    (tree : Option (List AttributeTree)) (w : W)
    → e.length < header_length e
    → rx_cluster_callback devices gpio_get (some e) tree w ≡ (pos 0, w)
unfolding rx_cluster_callback
rx_short devices gpio_get e tree w h = ground (arith, command_build_short e tree h)
