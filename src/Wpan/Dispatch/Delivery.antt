-- ===== src/Wpan/Dispatch/Delivery.antt =====
-- Which handler gets a message.
use pxbee_open_close.Prelude.Bits.{has}
use pxbee_open_close.Prelude.{
  Bool-cases, true, refl, ap, ◌∙◌, All, ◌∷◌, ◌++◌, ℤ, Option-cases, inl, inr, enoent, false, Option,
  none, some, List, ◌≡◌, ◌≢◌, ◌⊎◌, arith, bit_or,
}
use pxbee_open_close.Wpan.{Envelope, Devices}
use pxbee_open_close.Wpan.Tables.{Handler, Cluster, Endpoint, cluster_match, endpoint_match}
use pxbee_open_close.Wpan.Tables.Lookup.{
  IsOther, IsFor, IsElse, unmarked, endpoint_match-at, cluster_match-at,
}
use pxbee_open_close.Zcl.Invalid.{invalid_cluster}
use pxbee_open_close.Wpan.Dispatch.{
  endpoint_dispatch, envelope_dispatch, must_refuse, clust_flag_inout, endpoint_broadcast,
  on_cluster, refuse, call_cluster, call_endpoint, to_match,
}

-- what the handler of an endpoint does, or -ENOENT where there is none
abbrev pub handled_by : {W : Type 0} → Option (Handler W) → Envelope → W → ℤ × Envelope × W
handled_by none e w = (enoent, e, w)
handled_by (some h) e w = ((h e w).0, e, (h e w).1)

-- the message is encrypted, or the cluster is no ZCL cluster, or takes messages without encryption
abbrev pub IsOpen : {W : Type 0} → Envelope → Cluster W → Type 0
IsOpen e clust =
    (has e.options 0x0400 ≡ true)
    ⊎ (has clust.flags 0x80 ≡ true)
    ⊎ ((has clust.flags 0x10 ≡ false)
        × ((has clust.flags 0x20 ≡ false) ⊎ (has e.options 0x0100 ≡ true)))

-- the message is not encrypted, and the cluster is a ZCL cluster that takes encrypted messages only,
-- or encrypted unicasts only where the message is a unicast
abbrev pub IsClosed : {W : Type 0} → Envelope → Cluster W → Type 0
IsClosed e clust =
    (has e.options 0x0400 ≡ false)
    × (has clust.flags 0x80 ≡ false)
    × ((has clust.flags 0x10 ≡ true)
        ⊎ ((has clust.flags 0x20 ≡ true) × (has e.options 0x0100 ≡ false)))

-- the handler of the cluster, or where it has none that of the endpoint
abbrev pub handler_of : {W : Type 0} → Cluster W → Endpoint W → Option (Handler W)
handler_of clust ep = elim clust.handler [ none ↦ ep.handler | some h ↦ some h ]

must_refuse-cases :
    {W : Type 0} (e : Envelope) (clust : Cluster W)
    → (IsOpen e clust × (must_refuse e.options clust.flags ≡ false))
      ⊎ (IsClosed e clust × (must_refuse e.options clust.flags ≡ true))
must_refuse-cases e clust = elim (Bool-cases (has e.options 0x0400)) [
  | inl encrypted ↦ inl (inl encrypted, ground (arith, encrypted))
  | inr plain ↦ elim (Bool-cases (has clust.flags 0x80)) [
    | inl other ↦ inl (inr (inl other), ground (arith, other, plain))
    | inr zcl ↦ elim (Bool-cases (has clust.flags 0x10)) [
      | inl always ↦ inr ((plain, zcl, inl always), ground (arith, always, plain, zcl))
      | inr seldom ↦ elim (Bool-cases (has clust.flags 0x20)) [
        | inr never ↦ inl (inr (inr (seldom, inl never)), ground (arith, seldom, never, plain, zcl))
        | inl unicast ↦ elim (Bool-cases (has e.options 0x0100)) [
          | inl broadcast ↦
              inl (inr (inr (seldom, inr broadcast)), ground (arith, seldom, broadcast, plain, zcl))
          | inr single ↦
              inr ((plain, zcl, inr (unicast, single)), ground (arith, unicast, single, plain, zcl))
        ]
      ]
    ]
  ]
]

-- If the endpoint that wpan_endpoint_match finds does not have the cluster, its own handler gets
-- the message unchanged, and where it has none, the result is -ENOENT and nothing is done.
pub dispatch_to_endpoint :
    {W : Type 0} (devices : Devices W) (table : Option (List (Endpoint W))) (e : Envelope)
    (ep : Endpoint W) (w : W)
    → e.dest_endpoint ≢ endpoint_broadcast
    → endpoint_match table e.dest_endpoint e.profile_id ≡ some ep
    → cluster_match e.cluster_id clust_flag_inout ep.cluster_table ≡ none
    → envelope_dispatch devices table e w ≡ handled_by ep.handler e w
unfolding envelope_dispatch endpoint_dispatch
dispatch_to_endpoint devices table e ep w ne m c = elim (Option-cases ep.handler) [
  | inl nobody ↦ ground arith
  | inr (h, present) ↦ ground arith
]

-- the envelope that a handler gets for a cluster
abbrev pub marked : {W : Type 0} → Envelope → Cluster W → Envelope
marked e clust = record e { options = bit_or e.options clust.flags }

on_cluster-cases :
    {W : Type 0} (devices : Devices W) (e : Envelope) (ep : Endpoint W) (clust : Cluster W) (w : W)
    → (IsOpen e clust
        × (on_cluster devices e ep clust w ≡ handled_by (handler_of clust ep) (marked e clust) w))
      ⊎ (IsClosed e clust
          × (on_cluster devices e ep clust w ≡ (
            (invalid_cluster devices (some e) w).0,
            e,
            (invalid_cluster devices (some e) w).1,
          )))
unfolding on_cluster refuse call_cluster call_endpoint
on_cluster-cases {W} devices e ep clust w = elim (must_refuse-cases e clust) [
  | inl (open_to, takes) ↦ inl (open_to, rw takes (called clust.handler))
  | inr (closed, refuses) ↦ inr (closed, rw refuses refl)
]
  where
    alone :
        (h : Option (Handler W))
        → call_endpoint (marked e clust) h w ≡ handled_by h (marked e clust) w
    alone none = refl
    alone (some x) = refl

    called :
        (h : Option (Handler W))
        → call_cluster (marked e clust) h ep.handler w
          ≡ handled_by
              (elim h as (λ _. Option (Handler W)) [ none ↦ ep.handler | some x ↦ some x ])
              (marked e clust)
              w
    called none = alone ep.handler
    called (some x) = refl

dispatch_to :
    {W : Type 0} (devices : Devices W) (table : Option (List (Endpoint W))) (e : Envelope)
    (ep : Endpoint W) (w : W)
    → e.dest_endpoint ≢ 0xff
    → endpoint_match table e.dest_endpoint e.profile_id ≡ some ep
    → envelope_dispatch devices table e w ≡ endpoint_dispatch devices e ep w
unfolding envelope_dispatch to_match
dispatch_to devices table e ep w single found =
    rw (unmarked e.dest_endpoint single) (ap (λ o. to_match devices e o w) found)

dispatch_cluster :
    {W : Type 0} (devices : Devices W) (e : Envelope) (ep : Endpoint W) (clust : Cluster W) (w : W)
    → cluster_match e.cluster_id clust_flag_inout ep.cluster_table ≡ some clust
    → endpoint_dispatch devices e ep w ≡ on_cluster devices e ep clust w
unfolding endpoint_dispatch
dispatch_cluster devices e ep clust w matches = rw (endpoint_dispatch, matches) refl

-- A message goes to the first endpoint of the table that has its number and its profile, where the
-- message may be for any profile, and there to the first entry of the cluster table with its
-- cluster, if this one has a direction. If it is encrypted, or the cluster takes it without, the
-- handler of the cluster gets it, or the one of the endpoint where the cluster has none, with the
-- flags of the cluster in its options; where both have none, the result is -ENOENT. Otherwise no
-- handler gets it: it is answered as a message for an invalid cluster, and is left unchanged.
pub dispatch_delivers :
    {W : Type 0} (devices : Devices W) (e : Envelope) (before after : List (Endpoint W))
    (ep : Endpoint W) (behind rest : List (Cluster W)) (clust : Cluster W) (w : W)
    → e.dest_endpoint ≢ 0xff
    → All (IsOther e.dest_endpoint e.profile_id) before
    → IsFor e.dest_endpoint e.profile_id ep
    → ep.cluster_table ≡ some (behind ++ (clust ∷ rest))
    → e.cluster_id ≢ 0xffff
    → All (IsElse e.cluster_id) behind
    → clust.cluster_id ≡ e.cluster_id
    → has 0x03 clust.flags ≡ true
    → let result = envelope_dispatch devices (some (before ++ (ep ∷ after))) e w in
      (IsOpen e clust × (result ≡ handled_by (handler_of clust ep) (marked e clust) w))
      ⊎ (IsClosed e clust
          × (result ≡ (
            (invalid_cluster devices (some e) w).0,
            e,
            (invalid_cluster devices (some e) w).1,
          )))
dispatch_delivers devices e before after ep behind rest clust w single others here has_table real
      elses cluster has_flag =
    let found = endpoint_match-at e.dest_endpoint e.profile_id before after ep single others here in
    let matches : cluster_match e.cluster_id clust_flag_inout ep.cluster_table ≡ some clust =
      ap (cluster_match e.cluster_id clust_flag_inout) has_table
      ∙ cluster_match-at e.cluster_id 0x03 behind rest clust real elses cluster has_flag in
    let goes =
      dispatch_to devices (some (before ++ (ep ∷ after))) e ep w single found
      ∙ dispatch_cluster devices e ep clust w matches in
    elim (on_cluster-cases devices e ep clust w) [
      | inl (open_to, served) ↦ inl (open_to, goes ∙ served)
      | inr (closed, refused) ↦ inr (closed, goes ∙ refused)
    ]
