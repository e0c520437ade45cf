-- ===== src/Wpan/Addressing.antt =====
-- Addressing and sending an envelope: wpan_envelope_create, wpan_envelope_reply and
-- wpan_envelope_send of pxbee/pan/wpan/wpan_aps.c.
use pxbee_open_close.Prelude.{ℕ, ℤ, einval, Option, none, some, if◌then◌else◌}
use pxbee_open_close.Prelude.Bits.{has}
use pxbee_open_close.Wpan.{
  Envelope, Devices, envelope_rx_aps_encrypt, clust_flag_encrypt, send_flag_none,
  send_flag_encrypted,
}

-- The out-parameter is the result, so its NULL test has no counterpart.
unfoldable pub envelope_create : Option ℕ → ℕ → ℕ → Envelope
envelope_create dev ieee network_addr = record {
  dev = dev;
  ieee_address = ieee;
  network_address = network_addr;
  profile_id = 0;
  cluster_id = 0;
  source_endpoint = 0;
  dest_endpoint = 0;
  options = 0;
  payload = none;
  length = 0;
}

-- `none` is -EINVAL, for a NULL original. The reply is the result: it is never NULL, nor the
-- original itself.
unfoldable pub envelope_reply : Option Envelope → Option Envelope
envelope_reply none = none
envelope_reply (some original) = some (record original {
  source_endpoint = original.dest_endpoint;
  dest_endpoint = original.source_endpoint;
  options = if has original.options envelope_rx_aps_encrypt then clust_flag_encrypt else 0;
  payload = none;
  length = 0;
})

-- the flags that go with the envelope
abbrev pub send_flags : Envelope → ℕ
send_flags e = if has e.options clust_flag_encrypt then send_flag_encrypted else send_flag_none

module _ {W : Type 0} (devices : Devices W) where
  -- `envelope->dev->endpoint_send`, with the NULL tests on the way
  send_on : Option ℕ → Envelope → W → ℤ × W
  send_on none e w = (einval, w)
  send_on (some d) e w = elim (devices d) [
    | none ↦ (einval, w)
    | some endpoint_send ↦ endpoint_send e (send_flags e) w
  ]

  unfoldable pub envelope_send : Option Envelope → W → ℤ × W
  unfolding send_on
  envelope_send none w = (einval, w)
  envelope_send (some e) w = send_on e.dev e w
