-- ===== src/Wpan/Conversations/Expiry.antt =====
-- What is left of a table of conversations after the expired ones were ended.
use pxbee_open_close.Prelude.{
  ℕ, false, Option, none, some, List, [], ◌∷◌, ◌≡◌, ◌⊎◌, inl, inr, refl, All, Bool-cases, ap,
}
use pxbee_open_close.Wpan.Conversations.{
  Conversation, EpState, ResponseFn, is_due, expire_one, expire_all, expire_conversations,
  conversation_delete,
}

module _ {W : Type 0} where
  -- it is free, or has time left
  abbrev pub Waits : ℕ → Conversation W → Type 0
  Waits now c = (c.handler ≡ none) ⊎ (is_due now c.timeout ≡ false)

  expire_one-Waits :
      (now : ℕ) (c : Conversation W) (h : Option (ResponseFn W)) (w : W)
      → c.handler ≡ h
      → Waits now (expire_one now c h w).0
  unfolding expire_one conversation_delete
  expire_one-Waits now c none w e = inl e
  expire_one-Waits now c (some x) w e = elim (Bool-cases (is_due now c.timeout)) [
    | inl due ↦ rw due (inl refl)
    | inr left ↦ rw left (inr left)
  ]

  expire_all-Waits :
      (now : ℕ) (cs : List (Conversation W)) (w : W) → All (Waits now) (expire_all now cs w).0
  unfolding expire_all
  expire_all-Waits now [] w = tt
  expire_all-Waits now (c ∷ cs) w = (
    expire_one-Waits now c c.handler w refl,
    expire_all-Waits now cs (expire_one now c c.handler w).1,
  )

  expire_one_idle :
      (now : ℕ) (c : Conversation W) (h : Option (ResponseFn W)) (w : W)
      → c.handler ≡ h
      → Waits now c
      → expire_one now c h w ≡ (c, w)
  unfolding expire_one
  expire_one_idle now c none w e a = refl
  expire_one_idle now c (some x) w e (inl free) = absurd (cc)
  expire_one_idle now c (some x) w e (inr left) = rw left refl

  expire_all_idle :
      (now : ℕ) (cs : List (Conversation W)) (w : W)
      → All (Waits now) cs
      → expire_all now cs w ≡ (cs, w)
  unfolding expire_all
  expire_all_idle now [] w a = refl
  expire_all_idle now (c ∷ cs) w a =
      rw (expire_one_idle now c c.handler w refl a.0, expire_all_idle now cs w a.1) refl

-- What a call makes of a state: all its conversations are free or have time left.
pub expire_conversations-Waits :
    {W : Type 0} (now : ℕ) (state : EpState W) (w : W)
    → (state' : EpState W) × (w' : W) × (expire_conversations now (some state) w
        ≡ (some state', w'))
      × All (Waits now) state'.conversations
unfolding expire_conversations
expire_conversations-Waits now state w =
    let (cs, w') = expire_all now state.conversations w in
    (record state { conversations = cs }, w', refl, expire_all-Waits now state.conversations w)

-- After a call, a second one in the same second changes nothing and calls no handler.
pub expire_settles :
    {W : Type 0} (now : ℕ) (state : EpState W) (w : W)
    → expire_conversations now
        (expire_conversations now (some state) w).0
        (expire_conversations now (some state) w).1
      ≡ expire_conversations now (some state) w
unfolding expire_conversations
expire_settles now state w =
    let (cs, w1) = expire_all now state.conversations w in
    ap (λ r. (some (record state { conversations = r.0 }), r.1))
      (expire_all_idle now cs w1 (expire_all-Waits now state.conversations w))
