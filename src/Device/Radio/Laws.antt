-- ===== src/Device/Radio/Laws.antt =====
-- From frames to envelopes and from envelopes to frames.
use mathlib.Core.Path.{subst}
use pxbee_open_close.Prelude.{
  append-nil, Bool, ℕ, ℤ, zero, suc, ◌+◌, ◌-◌, ◌*◌, ◌/◌, ◌%◌, ◌<◌, ◌≡◌, refl, ◌⊎◌, inl, inr, pos,
  ok, arith, some, [], ◌∷◌, ◌++◌, length, if◌then◌else◌, take, drop, false, true, ap, ◌∙◌,
  Bool-cases, ltb,
}
use pxbee_open_close.Prelude.Bits.{Bytes, has}
use pxbee_open_close.Wpan.{Envelope}
use pxbee_open_close.Device.{next_frame_id}
use pxbee_open_close.Device.Write.{Line, frame_write}
use pxbee_open_close.Device.Write.Laws.{encode, frame_write_lem}
use pxbee_open_close.Device.Radio.{
  Radio, be_value, be_bytes, receive_explicit, received_options, transmit_header, endpoint_send,
  frame_receive_explicit,
}

-- 256 ^ n
abbrev limit : ℕ → ℕ
limit zero = 1
limit (suc n) = 256 * limit n

pub be_value-be_bytes :
    (n x : ℕ) (rest : Bytes) → x < limit n → be_value 0 (be_bytes n x rest) ≡ be_value x rest
unfolding be_bytes be_value
be_value-be_bytes zero x rest small = ap (λ v. be_value v rest) (omega arith)
be_value-be_bytes (suc n) x rest small =
    be_value-be_bytes n (x / 256) (x % 256 ∷ rest) (omega arith)
    ∙ ap (λ v. be_value v rest) (omega arith)

-- what a receive frame says of a message: who sent it, for whom, and how
pub record Reception : Type 0 where
  pub ieee_address : ℕ
  pub network_address : ℕ
  pub source_endpoint : ℕ
  pub dest_endpoint : ℕ
  pub cluster_id : ℕ
  pub profile_id : ℕ
  pub options : ℕ
  pub payload : Bytes

pub record IsReception (r : Reception) : Type 0 where
  pub ieee_range : r.ieee_address < 18446744073709551616
  pub network_range : r.network_address < 65536
  pub cluster_range : r.cluster_id < 65536
  pub profile_range : r.profile_id < 65536

-- the frame as the documentation of the radio lays it out, its numbers big-endian
abbrev pub receive_frame : Reception → Bytes
receive_frame r =
    frame_receive_explicit
    ∷ be_bytes 8 r.ieee_address (
        be_bytes 2 r.network_address (
          r.source_endpoint
          ∷ r.dest_endpoint
          ∷ be_bytes 2 r.cluster_id (be_bytes 2 r.profile_id (r.options ∷ r.payload))))

-- the envelope of such a message for a device
abbrev pub envelope_of : ℕ → Reception → Envelope
envelope_of dev r = record {
  dev = some dev;
  ieee_address = r.ieee_address;
  network_address = r.network_address;
  profile_id = r.profile_id;
  cluster_id = r.cluster_id;
  source_endpoint = r.source_endpoint;
  dest_endpoint = r.dest_endpoint;
  options = (if has r.options 0x02 then 0x0100 else 0) + (if has r.options 0x20 then 0x0400 else 0);
  payload = some r.payload;
  length = length r.payload;
}

ieee_back :
    (r : Reception)
    → IsReception r
    → be_value 0 (take 8 (drop 1 (receive_frame r))) ≡ r.ieee_address
unfolding be_bytes be_value
ieee_back r h = be_value-be_bytes 8 r.ieee_address [] h.ieee_range

pub word_back : (x : ℕ) → x < 65536 → be_value 0 (x / 256 % 256 ∷ x % 256 ∷ []) ≡ x
unfolding be_bytes be_value
word_back x small = be_value-be_bytes 2 x [] small

options_back :
    (o : ℕ)
    → received_options o ≡ (if has o 0x02 then 0x0100 else 0) + (if has o 0x20 then 0x0400 else 0)
unfolding received_options
options_back o = elim (Bool-cases (has o 0x02)) [
  | inl b ↦ elim (Bool-cases (has o 0x20)) [
    | inl e ↦ rw (received_options, b, e) refl
    | inr e ↦ rw (received_options, b, e) refl
  ]
  | inr b ↦ elim (Bool-cases (has o 0x20)) [
    | inl e ↦ rw (received_options, b, e) refl
    | inr e ↦ rw (received_options, b, e) refl
  ]
]

long_enough : (r : Reception) → ltb (length (receive_frame r)) 18 ≡ false
unfolding be_bytes
long_enough r = ground arith

length_back : (r : Reception) → length (receive_frame r) - 18 ≡ length r.payload
unfolding be_bytes
length_back r = omega arith

-- The frame of a reception becomes the envelope with its numbers, its payload and its options.
pub receive_lem :
    (dev : ℕ) (r : Reception)
    → IsReception r
    → receive_explicit dev (some (receive_frame r)) ≡ ok (envelope_of dev r)
unfolding receive_explicit be_bytes
receive_lem dev r h =
    rw (receive_explicit, long_enough r)
      (rw (ieee_back r h, options_back r.options)
        (rw
          (
            word_back r.network_address h.network_range,
            word_back r.profile_id h.profile_range,
            word_back r.cluster_id h.cluster_range,
          )
          (ap (λ l. ok (record (envelope_of dev r) { length = l })) (length_back r))))

header_length : (id : ℕ) (e : Envelope) (flags : ℕ) → length (transmit_header id e flags) ≡ 20
unfolding transmit_header be_bytes
header_length id e flags = refl

-- the transmit frame as the documentation of the radio lays it out, its numbers big-endian
abbrev pub transmit_frame : ℕ → Envelope → Bool → Bytes → Bytes
transmit_frame id e encrypted payload =
    0x11
    ∷ id
    ∷ be_bytes 8 e.ieee_address (
        be_bytes 2 e.network_address (
          e.source_endpoint
          ∷ e.dest_endpoint
          ∷ be_bytes 2 e.cluster_id
              (be_bytes 2 e.profile_id (0 ∷ (if encrypted then 0x20 else 0) ∷ payload))))

transmit_header_lem :
    (id : ℕ) (e : Envelope) (flags : ℕ) (d : Bytes)
    → transmit_header id e flags ++ d ≡ transmit_frame id e (has flags 0x0001) d
unfolding transmit_header be_bytes
transmit_header_lem id e flags d = refl

-- An envelope with a payload of less than 256 bytes is sent, on a valid port whose radio is ready or
-- not asked, as one API frame: the frame type 0x11, the next frame identifier, the addresses,
-- endpoints, cluster and profile of the envelope, a radius of 0, the bit for encryption if the flag
-- for it is given, and then the payload.
pub endpoint_send_lem :
    (e : Envelope) (flags id : ℕ) (l : Line) (d more : Bytes)
    → e.payload ≡ some (d ++ more)
    → e.length ≡ length d
    → length d < 256
    → l.valid ≡ true
    → (l.use_flowcontrol ≡ false) ⊎ (l.cts ≡ true)
    → endpoint_send e flags (record { line = some l; frame_id = id }) ≡ (
      pos 0,
      record {
        line = some (record l {
          sent = l.sent ++ encode (transmit_frame (next_frame_id id) e (has flags 0x0001) d);
        });
        frame_id = next_frame_id id;
      },
    )
unfolding endpoint_send frame_write next_frame_id transmit_header
endpoint_send_lem e flags id l d more held counted short valid ready =
    let header = transmit_header (next_frame_id id) e flags in
    let twenty = header_length (next_frame_id id) e flags in
    let written =
      frame_write_lem l header d [] more valid ready (omega (arith, twenty)) short
        (omega (arith, twenty)) in
    let whole =
      subst
        (λ h.
          frame_write (some l) (some h) (length header) (some (d ++ more)) (length d)
          ≡ (pos 0, some (record l { sent = l.sent ++ encode (header ++ d) })))
        (append-nil header) written in
    let sent : Bytes → ℤ × Radio = λ frame. (
      pos 0,
      record {
        line = some (record l { sent = l.sent ++ encode frame });
        frame_id = next_frame_id id;
      },
    ) in
    rw (endpoint_send, held, counted, whole) refl
    ∙ ap sent (transmit_header_lem (next_frame_id id) e flags d)
