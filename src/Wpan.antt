-- ===== src/Wpan.antt =====
-- The envelope of an APS message and the device that sends it: pxbee/headers/wpan/aps.h, and the
-- functions of pxbee/pan/wpan/wpan_aps.c that address and send an envelope.
pub mod Addressing
pub mod Tables
pub mod Dispatch
pub mod Conversations
pub mod Text
pub mod Tick
use pxbee_open_close.Prelude.{ℕ, ℤ, Option}
use pxbee_open_close.Prelude.Bits.{Bytes}

-- `wpan_envelope_t`. A device pointer is the number that names the device, `none` for NULL. The
-- payload is the memory from the payload pointer on, `none` for NULL; `length` bytes of it belong
-- to the message.
pub record Envelope : Type 0 where
  pub dev : Option ℕ
  pub ieee_address : ℕ
  pub network_address : ℕ
  pub profile_id : ℕ
  pub cluster_id : ℕ
  pub source_endpoint : ℕ
  pub dest_endpoint : ℕ
  pub options : ℕ
  pub payload : Option Bytes
  pub length : ℕ

-- `wpan_endpoint_send_fn`: it takes the envelope and the flags, returns a status, and changes the
-- world outside, `W`.
abbrev pub EndpointSend : Type 0 → Type 0
EndpointSend W = Envelope → ℕ → W → ℤ × W

-- what a device pointer leads to: the `endpoint_send` field of `wpan_dev_t`, `none` for NULL
abbrev pub Devices : Type 0 → Type 0
Devices W = ℕ → Option (EndpointSend W)

-- the WPAN_ENVELOPE_*, WPAN_CLUST_FLAG_ENCRYPT and WPAN_SEND_FLAG_* masks
abbrev pub envelope_cluster_flags : ℕ
envelope_cluster_flags = 0x00ff

abbrev pub envelope_broadcast_addr : ℕ
envelope_broadcast_addr = 0x0100

abbrev pub envelope_broadcast_ep : ℕ
envelope_broadcast_ep = 0x0200

abbrev pub envelope_rx_aps_encrypt : ℕ
envelope_rx_aps_encrypt = 0x0400

abbrev pub clust_flag_encrypt : ℕ
clust_flag_encrypt = 0x10

abbrev pub send_flag_none : ℕ
send_flag_none = 0

abbrev pub send_flag_encrypted : ℕ
send_flag_encrypted = 1
