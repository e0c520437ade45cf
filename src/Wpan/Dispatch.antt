-- ===== src/Wpan/Dispatch.antt =====
-- Handing a received message to its handler: _wpan_endpoint_dispatch and wpan_envelope_dispatch of
-- pxbee/pan/wpan/wpan_aps.c.
pub mod Delivery
pub mod Broadcast
use pxbee_open_close.Prelude.{
  ℕ, ℤ, pos, enoent, is_zero, Bool, not, Option, none, some, List, [], ◌∷◌, ◌==◌, ◌&&◌, ◌||◌,
  if◌then◌else◌, bit_and, bit_or,
}
use pxbee_open_close.Prelude.Bits.{has}
use pxbee_open_close.Wpan.{
  Envelope, Devices, envelope_broadcast_addr, envelope_broadcast_ep, envelope_rx_aps_encrypt,
  clust_flag_encrypt,
}
use pxbee_open_close.Wpan.Tables.{Handler, Cluster, Endpoint, cluster_match, visits, endpoint_match}
use pxbee_open_close.Zcl.Invalid.{invalid_cluster}

-- WPAN_CLUST_FLAG_INOUT, WPAN_CLUST_FLAG_ENCRYPT_UNICAST, WPAN_CLUST_FLAG_NOT_ZCL and
-- WPAN_ENDPOINT_BROADCAST
abbrev pub clust_flag_inout : ℕ
clust_flag_inout = 0x03

abbrev pub clust_flag_encrypt_unicast : ℕ
clust_flag_encrypt_unicast = 0x20

abbrev pub clust_flag_not_zcl : ℕ
clust_flag_not_zcl = 0x80

abbrev pub endpoint_broadcast : ℕ
endpoint_broadcast = 0xff

-- The message came without encryption, and the cluster wants it.
abbrev pub must_refuse : ℕ → ℕ → Bool
must_refuse options flags =
    not (has options envelope_rx_aps_encrypt)
    && not (has flags clust_flag_not_zcl)
    && (has flags clust_flag_encrypt
        || has flags clust_flag_encrypt_unicast && not (has options envelope_broadcast_addr))

module _ {W : Type 0} where
  -- `ep->handler( envelope, ep->ep_state)`, or -ENOENT without a handler
  unfoldable pub call_endpoint : Envelope → Option (Handler W) → W → ℤ × Envelope × W
  call_endpoint e none w = (enoent, e, w)
  call_endpoint e (some handler) w = let (r, w') = handler e w in (r, e, w')

  -- the cluster's handler, or else the one of the endpoint
  unfoldable pub call_cluster :
      Envelope → Option (Handler W) → Option (Handler W) → W → ℤ × Envelope × W
  unfolding call_endpoint
  call_cluster e none of_endpoint w = call_endpoint e of_endpoint w
  call_cluster e (some handler) of_endpoint w = let (r, w') = handler e w in (r, e, w')

module _ {W : Type 0} (devices : Devices W) where
  refuse : Envelope → W → ℤ × Envelope × W
  refuse e w = let (r, w') = invalid_cluster devices (some e) w in (r, e, w')

  on_cluster : Envelope → Endpoint W → Cluster W → W → ℤ × Envelope × W
  unfolding call_cluster refuse
  on_cluster e ep clust w =
      if must_refuse e.options clust.flags
      then refuse e w
      else call_cluster (record e { options = bit_or e.options clust.flags }) clust.handler
          ep.handler w

  -- The result has the envelope as it is left: the code changes the one that it is given.
  unfoldable pub endpoint_dispatch : Envelope → Endpoint W → W → ℤ × Envelope × W
  unfolding on_cluster
  endpoint_dispatch e ep w = elim (cluster_match e.cluster_id clust_flag_inout ep.cluster_table) [
    | none ↦ call_endpoint e ep.handler w
    | some clust ↦ on_cluster e ep clust w
  ]

  -- the envelope for one endpoint: without the cluster flags of the one before
  abbrev pub addressed_to : Envelope → Endpoint W → Envelope
  addressed_to e ep = record e { dest_endpoint = ep.endpoint; options = bit_and e.options 0xff00 }

  -- one round of the loop for the broadcast endpoint
  broadcast_round : Endpoint W → ℤ × Envelope × W → ℤ × Envelope × W
  broadcast_round ep (r, e, w) =
      if e.profile_id == ep.profile_id
      then (let (r', e', w') = endpoint_dispatch (addressed_to e ep) ep w in
          (if is_zero r' then pos 0 else r, e', w'))
      else (r, e, w)

  broadcast : List (Endpoint W) → ℤ × Envelope × W → ℤ × Envelope × W
  unfolding broadcast_round
  broadcast [] s = s
  broadcast (ep ∷ eps) s = broadcast eps (broadcast_round ep s)

  to_match : Envelope → Option (Endpoint W) → W → ℤ × Envelope × W
  to_match e none w = (enoent, e, w)
  to_match e (some ep) w = endpoint_dispatch e ep w

  -- The first argument is the endpoint table of `envelope->dev`.
  unfoldable pub envelope_dispatch : Option (List (Endpoint W)) → Envelope → W → ℤ × Envelope × W
  unfolding broadcast to_match
  envelope_dispatch table e w =
      if e.dest_endpoint == endpoint_broadcast
      then broadcast (visits table)
          (enoent, record e { options = bit_or e.options envelope_broadcast_ep }, w)
      else to_match e (endpoint_match table e.dest_endpoint e.profile_id) w
