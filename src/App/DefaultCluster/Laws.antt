-- ===== src/App/DefaultCluster/Laws.antt =====
-- What the handler of the basic cluster sends, and when it sends nothing.
use pxbee_open_close.Prelude.{
  ℕ, ◌⊎◌, pos, ok, Option, none, some, List, [], ◌∷◌, ◌≡◌, ◌==◌, ◌≢◌, refl, arith, if◌then◌else◌,
  true, false, length, set, replicate, set_behind,
}
use pxbee_open_close.Prelude.Bits.{Bytes, IsByte}
use pxbee_open_close.Wpan.{Envelope, Devices, EndpointSend}
use pxbee_open_close.Zcl.{AttributeTree, Command}
use pxbee_open_close.Zcl.Parse.{command_build}
use pxbee_open_close.Zcl.Parse.Laws.{
  Frame, IsFrame, Carries, print, command_of, command_build-print,
}
use pxbee_open_close.Zcl.Response.{Cursor}
use pxbee_open_close.Zcl.Response.Header.{reply_to, reply_control, has-reply_control}
use pxbee_open_close.App.Reply.{is_profile_request, open_response, close_response}
use pxbee_open_close.App.Reply.Laws.{no_mfg, Answers, sent_by, opened, flags_for, closed}
use pxbee_open_close.App.DefaultCluster.{
  manufacturer, model, version_record, name_record, terminate, default_cluster_callback,
}

-- The attributes of the basic cluster that the device has, with type and value: the application
-- version 0, the manufacturer "Root" and the model "Occupied".
abbrev pub basic_value : ℕ → Option Bytes
basic_value id =
    if id == 1
    then some (0x20 ∷ 0 ∷ [])
    else if id == 4
    then some (0x42 ∷ 4 ∷ 0x52 ∷ 0x6f ∷ 0x6f ∷ 0x74 ∷ [])
    else if id == 5
    then some (0x42 ∷ 8 ∷ 0x4f ∷ 0x63 ∷ 0x63 ∷ 0x75 ∷ 0x70 ∷ 0x69 ∷ 0x65 ∷ 0x64 ∷ [])
    else none

-- The terminator goes behind the message, so the message is still carried.
terminate-Carries : (e : Envelope) (p : Bytes) → Carries e p → Carries (terminate e) p
unfolding terminate
terminate-Carries e p k = record {
  rest = set k.rest 0 0;
  held = ground (arith, set_behind p k.rest e.length 0 0);
  counted = k.counted;
  short = k.short;
}

-- the structure with the header, before and after the record is filled in
abbrev before : ℕ → ℕ → Cursor
before control seq = record { mem = 0 ∷ 0 ∷ control ∷ seq ∷ 1 ∷ replicate 20 0; end = 5 }

abbrev after : ℕ → ℕ → Bytes → ℕ → Cursor
after control seq rec end = record { mem = 0 ∷ 0 ∷ control ∷ seq ∷ 1 ∷ rec; end = end }

abbrev version_bytes : Bytes
version_bytes = 1 ∷ 0 ∷ 0 ∷ 0x20 ∷ 0 ∷ replicate 15 0

abbrev manufacturer_bytes : Bytes
manufacturer_bytes = 4 ∷ 0 ∷ 0 ∷ 0x42 ∷ 4 ∷ 0x52 ∷ 0x6f ∷ 0x6f ∷ 0x74 ∷ replicate 11 0

abbrev model_bytes : Bytes
model_bytes =
    5 ∷ 0 ∷ 0 ∷ 0x42 ∷ 8 ∷ 0x4f ∷ 0x63 ∷ 0x63 ∷ 0x75 ∷ 0x70 ∷ 0x69 ∷ 0x65 ∷ 0x64 ∷ replicate 7 0

version_fill : (c q : ℕ) → version_record (before c q) ≡ after c q version_bytes 10
unfolding version_record
version_fill c q = refl

manufacturer_fill :
    (c q : ℕ) → name_record 4 manufacturer (before c q) ≡ after c q manufacturer_bytes 14
unfolding name_record
manufacturer_fill c q = refl

model_fill : (c q : ℕ) → name_record 5 model (before c q) ≡ after c q model_bytes 18
unfolding name_record
model_fill c q = refl

module _ {W : Type 0} (devices : Devices W) (e : Envelope) (f : Frame)
    (tree : Option (List AttributeTree)) (d : ℕ) (send : EndpointSend W) (w : W)
    (dev : e.dev ≡ some d) (device : devices d ≡ some send) (frame : IsFrame f)
    (carried : Carries e (print f)) (control : IsByte f.frame_control) where
  zcl : Command
  zcl = command_of (terminate e) f tree (terminate-Carries e (print f) carried).rest

  -- the answer with a record that ends at `end`
  abbrev reply : Bytes → ℕ → Envelope
  reply rec end = sent_by e (2, after (reply_control f.frame_control) f.sequence rec end)

  sends :
      (rec : Bytes) (end : ℕ)
      → close_response devices zcl 2 (after (reply_control f.frame_control) f.sequence rec end) w
        ≡ (send (reply rec end) (flags_for e) w).1
  unfolding zcl terminate
  sends rec end =
      closed devices zcl d send 2 (after (reply_control f.frame_control) f.sequence rec end) w dev
        device

  opens :
      is_profile_request f.frame_control ≡ true
      → open_response 1 zcl ≡ (2, before (reply_control f.frame_control) f.sequence)
  unfolding zcl
  opens r = opened 1 zcl (no_mfg f.frame_control control r)

  builds : command_build (some (terminate e)) tree ≡ ok zcl
  unfolding zcl
  builds = command_build-print (terminate e) f tree frame (terminate-Carries e (print f) carried)

  default_version :
      is_profile_request f.frame_control ≡ true
      → f.command ≡ 0x00
      → f.payload ≡ 1 ∷ 0 ∷ []
      → default_cluster_callback devices e tree w
        ≡ (pos 0, (send (reply version_bytes 10) (flags_for e) w).1)
  unfolding default_cluster_callback zcl
  default_version r k p = ground (
    arith,
    builds,
    opens r,
    version_fill (reply_control f.frame_control) f.sequence,
    sends version_bytes 10,
  )

  default_manufacturer :
      is_profile_request f.frame_control ≡ true
      → f.command ≡ 0x00
      → f.payload ≡ 4 ∷ 0 ∷ []
      → default_cluster_callback devices e tree w
        ≡ (pos 0, (send (reply manufacturer_bytes 14) (flags_for e) w).1)
  unfolding default_cluster_callback zcl
  default_manufacturer r k p = ground (
    arith,
    builds,
    opens r,
    manufacturer_fill (reply_control f.frame_control) f.sequence,
    sends manufacturer_bytes 14,
  )

  default_model :
      is_profile_request f.frame_control ≡ true
      → f.command ≡ 0x00
      → f.payload ≡ 5 ∷ 0 ∷ []
      → default_cluster_callback devices e tree w
        ≡ (pos 0, (send (reply model_bytes 18) (flags_for e) w).1)
  unfolding default_cluster_callback zcl
  default_model r k p = ground (
    arith,
    builds,
    opens r,
    model_fill (reply_control f.frame_control) f.sequence,
    sends model_bytes 18,
  )

  basic_reply : ℕ → Envelope
  basic_reply id =
      if id == 1
      then reply version_bytes 10
      else if id == 4
      then reply manufacturer_bytes 14
      else reply model_bytes 18

  basic_reply-Answers :
      (id : ℕ) (v : Bytes)
      → is_profile_request f.frame_control ≡ true
      → basic_value id ≡ some v
      → Answers e (basic_reply id) (print (reply_to f 0x01 (id ∷ 0 ∷ 0 ∷ v)))
  unfolding basic_reply
  basic_reply-Answers id v r h = record {
    addressed = ground arith;
    message =
        ground (arith, no_mfg f.frame_control control r, has-reply_control f.frame_control control);
    whole = ground arith;
  }

  -- A general request of a client to read the one attribute `id`, which the device has with type and
  -- value `v`, in a message that holds its frame and came in on a device that can send, is answered
  -- by one message, and nothing else is sent: it says with status success that the
  -- attribute has this type and value, under the sequence number of the request, and goes back to
  -- where the request came from. The context that the callback is given has no influence.
  pub default_read :
      (id : ℕ) (v : Bytes)
      → is_profile_request f.frame_control ≡ true
      → f.command ≡ 0x00
      → f.payload ≡ id ∷ 0 ∷ []
      → basic_value id ≡ some v
      → (sent : Envelope) × (default_cluster_callback devices e tree w
          ≡ (pos 0, (send sent (flags_for e) w).1))
        × Answers e sent (print (reply_to f 0x01 (id ∷ 0 ∷ 0 ∷ v)))
  unfolding basic_reply
  default_read id v r k p h = (
    basic_reply id,
    ground (arith, default_version r k, default_manufacturer r k, default_model r k),
    basic_reply-Answers id v r h,
  )

  -- Every other message that holds its frame is ignored: a manufacturer-specific one, one for a cluster
  -- command, one that comes from a server, any command but reading attributes, and a request for an
  -- attribute that the device does not have, for none, or for more than one.
  pub default_ignores :
      (is_profile_request f.frame_control ≡ false)
        ⊎ ((f.command ≢ 0x00)
            ⊎ ((length f.payload ≢ 2)
                ⊎ ((id hi : ℕ) × (f.payload ≡ id ∷ hi ∷ [])
                    × ((hi ≢ 0) ⊎ (basic_value id ≡ none)))))
      → default_cluster_callback devices e tree w ≡ (pos 0, w)
  unfolding default_cluster_callback zcl
  default_ignores h = ground (arith, builds)
