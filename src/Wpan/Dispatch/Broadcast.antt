-- ===== src/Wpan/Dispatch/Broadcast.antt =====
-- What a message for the broadcast endpoint results in.
use pxbee_open_close.Prelude.{
  ℤ, pos, enoent, is_zero, Option, List, [], ◌∷◌, ◌≡◌, ◌==◌, ◌⊎◌, inl, inr, refl, Bool-cases,
}
use pxbee_open_close.Wpan.{Envelope, Devices}
use pxbee_open_close.Wpan.Tables.{Endpoint, visits}
use pxbee_open_close.Wpan.Dispatch.{
  endpoint_dispatch, addressed_to, broadcast_round, broadcast, envelope_dispatch,
  endpoint_broadcast,
}

abbrev Delivered : ℤ → Type 0
Delivered r = (r ≡ pos 0) ⊎ (r ≡ enoent)

module _ {W : Type 0} (devices : Devices W) where
  broadcast_round-Delivered :
      (ep : Endpoint W) (r : ℤ) (e : Envelope) (w : W)
      → Delivered r
      → Delivered (broadcast_round devices ep (r, e, w)).0
  unfolding broadcast_round
  broadcast_round-Delivered ep r e w d = elim (Bool-cases (e.profile_id == ep.profile_id)) [
    | inl same ↦
        elim (Bool-cases (is_zero (endpoint_dispatch devices (addressed_to devices e ep) ep w).0)) [
          | inl zero_result ↦ rw (same, zero_result) (inl refl)
          | inr error ↦ rw (same, error) d
        ]
    | inr other ↦ rw other d
  ]

  broadcast-Delivered :
      (eps : List (Endpoint W)) (r : ℤ) (e : Envelope) (w : W)
      → Delivered r
      → Delivered (broadcast devices eps (r, e, w)).0
  unfolding broadcast
  broadcast-Delivered [] r e w d = d
  broadcast-Delivered (ep ∷ eps) r e w d =
      let next = broadcast_round devices ep (r, e, w) in
      broadcast-Delivered eps next.0 next.1 next.2 (broadcast_round-Delivered ep r e w d)

-- Whatever the handlers of the endpoints return, a message for the broadcast endpoint results in 0
-- or in -ENOENT.
pub dispatch_broadcast :
    {W : Type 0} (devices : Devices W) (table : Option (List (Endpoint W))) (e : Envelope) (w : W)
    → e.dest_endpoint ≡ endpoint_broadcast
    → ((envelope_dispatch devices table e w).0 ≡ pos 0)
      ⊎ ((envelope_dispatch devices table e w).0 ≡ enoent)
unfolding envelope_dispatch
dispatch_broadcast devices table e w b =
    rw b (broadcast-Delivered devices (visits table) enoent _ w (inr refl))
