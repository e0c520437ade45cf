-- ===== src/Wpan/Tick/Laws.antt =====
-- After a tick no conversation of the device is overdue.
use pxbee_open_close.Prelude.{
  ==_refl, ℕ, Option, none, some, List, [], ◌∷◌, ◌==◌, All, Bool-cases, inl, inr,
}
use pxbee_open_close.Wpan.Tables.{Endpoint, visits}
use pxbee_open_close.Wpan.Conversations.Expiry.{Waits, expire_conversations-Waits}
use pxbee_open_close.Wpan.Tick.{
  States, Ticking, put_state, expire_state, expire_walk, run_tick, wpan_tick,
}

module _ {W : Type 0} where
  -- Every conversation of the state that an endpoint names, if it names one, is free or has time
  -- left.
  pub Settled : ℕ → States W → Option ℕ → Type 0
  Settled now states none = Unit
  Settled now states (some i) = All (Waits now) ((states i).conversations)

  expire_state-Settled :
      (now : ℕ) (i : Option ℕ) (states : States W) (w : W)
      → Settled now (expire_state now i states w).0 i
  unfolding expire_state Settled put_state
  expire_state-Settled now none states w = tt
  expire_state-Settled now (some i) states w =
      let (state, w', eq, settled) = expire_conversations-Waits now (states i) w in
      rw (eq, ==_refl i) settled

  -- Expiring one state keeps the others as they are, and the expired ones settled.
  expire_state-keeps :
      (now : ℕ) (i j : Option ℕ) (states : States W) (w : W)
      → Settled now states j
      → Settled now (expire_state now i states w).0 j
  unfolding expire_state Settled put_state
  expire_state-keeps now none j states w settled = settled
  expire_state-keeps now (some i) none states w settled = tt
  expire_state-keeps now (some i) (some j) states w settled =
      let (state, w', eq, waits) = expire_conversations-Waits now (states i) w in
      rw eq (elim (Bool-cases (j == i)) [ inl same ↦ rw same waits | inr other ↦ rw other settled ])

  expire_walk-keeps :
      (now : ℕ) (eps : List (Endpoint W)) (j : Option ℕ) (states : States W) (w : W)
      → Settled now states j
      → Settled now (expire_walk now eps states w).0 j
  unfolding expire_walk
  expire_walk-keeps now [] j states w settled = settled
  expire_walk-keeps now (ep ∷ eps) j states w settled =
      let (states', w') = expire_state now ep.ep_state states w in
      expire_walk-keeps now eps j states' w' (expire_state-keeps now ep.ep_state j states w settled)

  expire_walk-Settled :
      (now : ℕ) (eps : List (Endpoint W)) (states : States W) (w : W)
      → All (λ ep. Settled now (expire_walk now eps states w).0 ep.ep_state) eps
  unfolding expire_walk
  expire_walk-Settled now [] states w = tt
  expire_walk-Settled now (ep ∷ eps) states w =
      let (states', w') = expire_state now ep.ep_state states w in
      (
        expire_walk-keeps now eps ep.ep_state states' w'
            (expire_state-Settled now ep.ep_state states w),
        expire_walk-Settled now eps states' w',
      )

-- After a tick of a device in the second `now`, whatever the device below has done in it, every
-- conversation of every endpoint that the walk of the table visits is free or has time left; that
-- holds also where endpoints share a state.
pub wpan_tick-Settled :
    {W : Type 0} (now : ℕ) (dev : Ticking W) (states : States W) (w : W)
    → All
        (λ ep. Settled now (wpan_tick now (some dev) states w).1 ep.ep_state)
        (visits dev.endpoint_table)
unfolding wpan_tick
wpan_tick-Settled now dev states w =
    let (retval, states', w') = run_tick dev.tick states w in
    expire_walk-Settled now (visits dev.endpoint_table) states' w'
