-- ===== src/Device/Radio.antt =====
-- Envelopes and the frames of the radio: _xbee_handle_receive_explicit and _xbee_endpoint_send of
-- pxbee/pan/xbee/xbee_wpan.c, with the frames of pxbee/headers/xbee/wpan.h.
pub mod Laws
pub mod Arrival
use pxbee_open_close.Prelude.{
  ℕ, zero, suc, ◌+◌, ◌-◌, ◌*◌, ◌/◌, ◌%◌, ℤ, einval, ebadmsg, Result, ok, err, Option, none, some,
  List, [], ◌∷◌, ◌++◌, ltb, if◌then◌else◌, take, drop, length, bit_or,
}
use pxbee_open_close.Prelude.Bits.{Bytes, has}
use pxbee_open_close.Wpan.{
  Envelope, Devices, envelope_broadcast_addr, envelope_rx_aps_encrypt, send_flag_encrypted,
}
use pxbee_open_close.Wpan.Tables.{Endpoint}
use pxbee_open_close.Wpan.Dispatch.{envelope_dispatch}
use pxbee_open_close.Zcl.Parse.{byte}
use pxbee_open_close.Device.{next_frame_id}
use pxbee_open_close.Device.Dispatch.{Node, Entry}
use pxbee_open_close.Device.Write.{Line, frame_write}

-- XBEE_FRAME_RECEIVE_EXPLICIT, XBEE_FRAME_TRANSMIT_EXPLICIT, XBEE_RX_OPT_BROADCAST,
-- XBEE_RX_OPT_APS_ENCRYPT and XBEE_TX_OPT_APS_ENCRYPT
abbrev pub frame_receive_explicit : ℕ
frame_receive_explicit = 0x91

abbrev pub frame_transmit_explicit : ℕ
frame_transmit_explicit = 0x11

abbrev pub rx_opt_broadcast : ℕ
rx_opt_broadcast = 0x02

abbrev pub rx_opt_aps_encrypt : ℕ
rx_opt_aps_encrypt = 0x20

abbrev pub tx_opt_aps_encrypt : ℕ
tx_opt_aps_encrypt = 0x20

-- the number whose big-endian bytes follow those of `acc`, and the `n` bytes of a number in front
-- of others
unfoldable pub be_value : ℕ → Bytes → ℕ
be_value acc [] = acc
be_value acc (b ∷ bs) = be_value (acc * 256 + b) bs

unfoldable pub be_bytes : ℕ → ℕ → Bytes → Bytes
be_bytes zero x rest = rest
be_bytes (suc n) x rest = be_bytes n (x / 256) (x % 256 ∷ rest)

-- `be16toh` of the two bytes at an offset
abbrev be16_at : Bytes → ℕ → ℕ
be16_at frame i = be_value 0 (byte frame i ∷ byte frame (i + 1) ∷ [])

-- the offset of `payload` in `xbee_frame_receive_explicit_t`
abbrev pub payload_offset : ℕ
payload_offset = 18

received_options : ℕ → ℕ
received_options options =
    let broadcast : ℕ = if has options rx_opt_broadcast then envelope_broadcast_addr else 0 in
    if has options rx_opt_aps_encrypt then bit_or broadcast envelope_rx_aps_encrypt else broadcast

-- the envelope of a frame, or the error; `dev` is the `wpan_dev` of the device
unfoldable pub receive_explicit : ℕ → Option Bytes → Result Envelope
unfolding received_options
receive_explicit dev none = err einval
receive_explicit dev (some frame) =
    if ltb (length frame) payload_offset
    then err ebadmsg
    else ok (record {
      dev = some dev;
      ieee_address = be_value 0 (take 8 (drop 1 frame));
      network_address = be16_at frame 9;
      profile_id = be16_at frame 15;
      cluster_id = be16_at frame 13;
      source_endpoint = byte frame 11;
      dest_endpoint = byte frame 12;
      options = received_options (byte frame 17);
      payload = some (drop payload_offset frame);
      length = length frame - payload_offset;
    })

-- `xbee_header_transmit_explicit_t`, filled in
unfoldable pub transmit_header : ℕ → Envelope → ℕ → Bytes
transmit_header frame_id e flags =
    frame_transmit_explicit
    ∷ frame_id
    ∷ be_bytes 8 e.ieee_address (
        be_bytes 2 e.network_address (
          e.source_endpoint
          ∷ e.dest_endpoint
          ∷ be_bytes 2 e.cluster_id (
              be_bytes 2 e.profile_id
                (0 ∷ (if has flags send_flag_encrypted then tx_opt_aps_encrypt else 0) ∷ []))))

-- the device as far as sending goes
pub record Radio : Type 0 where
  pub line : Option Line
  pub frame_id : ℕ

unfoldable pub endpoint_send : Envelope → ℕ → Radio → ℤ × Radio
endpoint_send e flags xbee =
    let id = next_frame_id xbee.frame_id in
    let header = transmit_header id e flags in
    let (error, line') = frame_write xbee.line (some header) (length header) e.payload e.length in
    (error, record { line = line'; frame_id = id })

module _ {W : Type 0} (devices : Devices W) where
  -- The frame handler for type 0x91. The first two arguments are the device and its endpoint table.
  unfoldable pub handle_receive_explicit :
      ℕ → Option (List (Endpoint W)) → Option Bytes → Node W → ℤ × Node W
  handle_receive_explicit dev table raw n = elim (receive_explicit dev raw) [
    | err error ↦ (error, n)
    | ok e ↦
        let (error, _, w') = envelope_dispatch devices table e n.world in
        (error, record n { world = w' })
  ]

  -- its entry in the table of frame handlers
  abbrev pub receive_entry : ℕ → Option (List (Endpoint W)) → Entry W
  receive_entry dev table = record {
    frame_type = frame_receive_explicit;
    frame_id = 0;
    handler = λ frame n. handle_receive_explicit dev table (some frame) n;
  }
