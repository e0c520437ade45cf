-- ===== src/Wpan/Tick.antt =====
-- The periodic call for a device: wpan_tick of pxbee/pan/wpan/wpan_aps.c.
pub mod Laws
use pxbee_open_close.Prelude.{ℕ, ℤ, einval, Option, none, some, List, [], ◌∷◌, ◌==◌, if◌then◌else◌}
use pxbee_open_close.Wpan.Tables.{Endpoint, visits}
use pxbee_open_close.Wpan.Conversations.{EpState, expire_conversations}

-- The states of endpoints by the numbers that name them in the table: two endpoints may share one.
abbrev pub States : Type 0 → Type 0
States W = ℕ → EpState W

-- what wpan_tick uses of `wpan_dev_t`; `tick` is the function of the device below, which may answer
-- and register conversations
pub record Ticking (W : Type 0) : Type 0 where
  pub endpoint_table : Option (List (Endpoint W))
  pub tick : Option (States W → W → ℤ × States W × W)

module _ {W : Type 0} where
  put_state : States W → ℕ → Option (EpState W) → States W
  put_state states i none j = states j
  put_state states i (some state) j = if j == i then state else states j

  -- _wpan_endpoint_expire_conversations of the state that an endpoint names
  expire_state : ℕ → Option ℕ → States W → W → States W × W
  unfolding put_state
  expire_state now none states w = (states, w)
  expire_state now (some i) states w =
      let (state, w') = expire_conversations now (some (states i)) w in
      (put_state states i state, w')

  expire_walk : ℕ → List (Endpoint W) → States W → W → States W × W
  unfolding expire_state
  expire_walk now [] states w = (states, w)
  expire_walk now (ep ∷ eps) states w =
      let (states', w') = expire_state now ep.ep_state states w in expire_walk now eps states' w'

  run_tick : Option (States W → W → ℤ × States W × W) → States W → W → ℤ × States W × W
  run_tick none states w = (einval, states, w)
  run_tick (some tick) states w = tick states w

  -- `now` is the low half of xbee_seconds_timer(), the same in all of the walk; the device is NULL
  -- for `none`.
  unfoldable pub wpan_tick : ℕ → Option (Ticking W) → States W → W → ℤ × States W × W
  unfolding run_tick expire_walk
  wpan_tick now none states w = (einval, states, w)
  wpan_tick now (some dev) states w =
      let (retval, states', w') = run_tick dev.tick states w in
      let (states'', w'') = expire_walk now (visits dev.endpoint_table) states' w' in
      (retval, states'', w'')
