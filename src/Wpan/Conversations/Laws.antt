-- ===== src/Wpan/Conversations/Laws.antt =====
-- A registered conversation gets its response, and only an expired one is ended.
use mathlib.Core.Path.{subst}
use mathlib.Core.Option.{some-injective}
use pxbee_open_close.Prelude.{
  ==_refl, sym, ◌∙◌, true, ap, ℕ, ℤ, pos, negsuc, Bool, false, ◌==◌, if◌then◌else◌, map, Bool-cases,
  enospc, Option, none, some, List, [], ◌∷◌, ◌≡◌, ◌≢◌, refl, arith, All, inl, inr, ◌⊎◌,
  Option-cases,
}
use pxbee_open_close.Wpan.{Envelope}
use pxbee_open_close.Wpan.Conversations.{
  Conversation, EpState, ResponseFn, conversation_register, conversation_response, next_transaction,
  expiry, occupy, respond_all, error_of, take_slot, finish, conversation_delete,
}

-- WPAN_CONVERSATION_END
abbrev pub is_end : ℤ → Bool
is_end (pos n) = n == 1
is_end (negsuc n) = false

other_id : (a b : ℕ) → a ≢ b → (a == b) ≡ false
other_id a b h = ground arith

module _ {W : Type 0} where
  -- the conversation waits for a response
  abbrev pub Active : Conversation W → Type 0
  Active c = c.handler ≢ none

  -- no active conversation has the transaction
  abbrev pub Unused : ℕ → List (Conversation W) → Type 0
  Unused id = All (λ c. (c.handler ≡ none) ⊎ (c.transaction_id ≢ id))

  -- the entry after the end of its conversation
  abbrev pub blank : Conversation W
  blank = record { transaction_id = 0; context = none; timeout = 0; handler = none }

  -- the end of the active conversation that has the transaction
  abbrev pub ended : ℕ → Conversation W → Conversation W
  ended id c = if c.transaction_id == id then elim c.handler [ none ↦ c | some _ ↦ blank ] else c

  finish_lem : (c : Conversation W) (r : ℤ) → finish c r ≡ (if is_end r then blank else c)
  unfolding finish conversation_delete
  finish_lem c (pos n) = refl
  finish_lem c (negsuc n) = refl

  stays :
      (c : Conversation W) (h : Option (ResponseFn W)) (b : Bool)
      → (h ≡ none) ⊎ (b ≡ false)
      → (if b then elim h as (λ _. Conversation W) [ none ↦ c | some _ ↦ blank ] else c) ≡ c
  stays c h false apart = refl
  stays c none true apart = refl
  stays c (some h) true (inl e) = absurd (cc)
  stays c (some h) true (inr e) = absurd (cc)

  ended-other :
      (id : ℕ) (c : Conversation W) → (c.handler ≡ none) ⊎ (c.transaction_id ≢ id) → ended id c ≡ c
  ended-other id c (inl idle) = stays c c.handler (c.transaction_id == id) (inl idle)
  ended-other id c (inr differs) =
      stays c c.handler (c.transaction_id == id) (inr (other_id c.transaction_id id differs))

  ended-Unused : (id : ℕ) (cs : List (Conversation W)) → Unused id cs → map (ended id) cs ≡ cs
  ended-Unused id [] u = refl
  ended-Unused id (c ∷ cs) (apart, u) =
      ap (λ l. l ∷ map (ended id) cs) (ended-other id c apart)
      ∙ ap (λ l. c ∷ l) (ended-Unused id cs u)

  -- the conversations behind a response with this transaction, where the handler returned `retval`
  abbrev pub responded : ℕ → ℤ → List (Conversation W) → List (Conversation W)
  responded id retval cs = if is_end retval then map (ended id) cs else cs

  responded-head :
      (new : Conversation W) (h : ResponseFn W) (retval : ℤ) (cs : List (Conversation W))
      → new.handler ≡ some h
      → Unused new.transaction_id cs
      → finish new retval ∷ cs ≡ responded new.transaction_id retval (new ∷ cs)
  responded-head new h retval cs has_h u =
      ap (λ c. c ∷ cs) (finish_lem new retval) ∙ elim (Bool-cases (is_end retval)) [
        | inl ends ↦ rw ends (
            ap (λ l. l ∷ cs) (sym cleared)
            ∙ ap (λ l. ended new.transaction_id new ∷ l)
                (sym (ended-Unused new.transaction_id cs u)))
        | inr stays ↦ rw stays refl
      ]
    where
      clear :
          (o : Option (ResponseFn W))
          → o ≡ some h
          → (elim o as (λ _. Conversation W) [ none ↦ new | some _ ↦ blank ]) ≡ blank
      clear none e = absurd (cc)
      clear (some x) e = refl

      cleared : ended new.transaction_id new ≡ blank
      cleared = rw (==_refl new.transaction_id) (clear new.handler has_h)

  responded-behind :
      (id : ℕ) (retval : ℤ) (c : Conversation W) (cs : List (Conversation W))
      → (c.handler ≡ none) ⊎ (c.transaction_id ≢ id)
      → c ∷ responded id retval cs ≡ responded id retval (c ∷ cs)
  responded-behind id retval c cs apart = elim (Bool-cases (is_end retval)) [
    | inl ends ↦ rw ends (ap (λ l. l ∷ map (ended id) cs) (sym (ended-other id c apart)))
    | inr stays ↦ rw stays refl
  ]

  respond_all-new :
      (new : Conversation W) (h : ResponseFn W) (cs : List (Conversation W)) (e : Envelope) (w : W)
      → new.handler ≡ some h
      → respond_all new.transaction_id e (new ∷ cs) w ≡ (
        error_of (h new.transaction_id new.context (some e) w).0,
        finish new (h new.transaction_id new.context (some e) w).0 ∷ cs,
        (h new.transaction_id new.context (some e) w).1,
      )
  unfolding respond_all
  respond_all-new new h cs e w has_h = ground arith

  respond_all-behind :
      (id : ℕ) (c : Conversation W) (cs : List (Conversation W)) (e : Envelope) (w : W)
      → c.transaction_id ≢ id
      → respond_all id e (c ∷ cs) w
        ≡ ((respond_all id e cs w).0, c ∷ (respond_all id e cs w).1, (respond_all id e cs w).2)
  unfolding respond_all
  respond_all-behind id c cs e w differs = rw (other_id c.transaction_id id differs) refl

  -- the one conversation that the response is for is `new`
  abbrev Responds : Conversation W → ResponseFn W → Envelope → W → List (Conversation W) → Type 0
  Responds new h e w cs =
      let r = h new.transaction_id new.context (some e) w in
      let after = respond_all new.transaction_id e cs w in
      (after.0 ≡ error_of r.0) × (after.1 ≡ responded new.transaction_id r.0 cs) × (after.2 ≡ r.1)

  Responds-new :
      (new : Conversation W) (h : ResponseFn W) (cs : List (Conversation W)) (e : Envelope) (w : W)
      → new.handler ≡ some h
      → Unused new.transaction_id cs
      → Responds new h e w (new ∷ cs)
  Responds-new new h cs e w has_h u =
      let run = respond_all-new new h cs e w has_h in
      let r = h new.transaction_id new.context (some e) w in
      (
        ap (λ p. p.0) run,
        ap (λ p. p.1) run ∙ responded-head new h r.0 cs has_h u,
        ap (λ p. p.2) run,
      )

  Responds-behind :
      (new c : Conversation W) (h : ResponseFn W) (cs : List (Conversation W)) (e : Envelope)
      (w : W)
      → c.transaction_id ≢ new.transaction_id
      → Responds new h e w cs
      → Responds new h e w (c ∷ cs)
  Responds-behind new c h cs e w differs (error, table, world) =
      let run = respond_all-behind new.transaction_id c cs e w differs in
      let r = h new.transaction_id new.context (some e) w in
      (
        ap (λ p. p.0) run ∙ error,
        ap (λ p. p.1) run
            ∙ ap (λ l. c ∷ l) table
            ∙ responded-behind new.transaction_id r.0 c cs (inr differs),
        ap (λ p. p.2) run ∙ world,
      )

  active_differs :
      (c : Conversation W) (id : ℕ) (x : ResponseFn W)
      → c.handler ≡ some x
      → (c.handler ≡ none) ⊎ (c.transaction_id ≢ id)
      → c.transaction_id ≢ id
  active_differs c id x taken (inl idle) = absurd (cc)
  active_differs c id x taken (inr differs) = differs

  -- what a response does to a table in which `new` was put
  occupy-respond :
      (new : Conversation W) (h : ResponseFn W) (cs cs' : List (Conversation W)) (e : Envelope)
      (w : W)
      → new.handler ≡ some h
      → Unused new.transaction_id cs
      → occupy new cs ≡ some cs'
      → Responds new h e w cs'
  unfolding occupy
  occupy-respond new h [] cs' e w hn u o = absurd (cc)
  occupy-respond new h (c ∷ cs) cs' e w hn u o = elim (Option-cases c.handler) [
    | inl free ↦
        subst (Responds new h e w) (some-injective _ _ (rw (occupy, free) at o))
          (Responds-new new h cs e w hn u.1)
    | inr (x, taken) ↦ elim (Option-cases (occupy new cs)) [
      | inl full ↦ absurd (ground arith)
      | inr (cs1, there) ↦
          subst (Responds new h e w) (some-injective _ _ (rw (occupy, taken, there) at o)) (
            Responds-behind new c h cs1 e w (active_differs c new.transaction_id x taken u.0)
              (occupy-respond new h cs cs1 e w hn u.1 there))
    ]
  ]

-- the conversation that is registered
abbrev requested : {W : Type 0} → EpState W → ResponseFn W → Option ℕ → ℕ → ℕ → Conversation W
requested state h context timeout now = record {
  transaction_id = next_transaction state.last_transaction;
  context = context;
  timeout = expiry timeout now;
  handler = some h;
}

number : ℤ → ℕ
number (pos n) = n
number (negsuc n) = n

-- what a response does to the state whose one conversation for it has this handler and context
abbrev pub Answers : {W : Type 0} → ResponseFn W → Option ℕ → Envelope → W → ℕ → EpState W → Type 0
Answers h context e w id state =
    let r = h id context (some e) w in
    let after = conversation_response state id e w in
    (after.0 ≡ error_of r.0)
    × (after.1 ≡ record state { conversations = responded id r.0 state.conversations })
    × (after.2 ≡ r.1)

-- When a conversation with a handler is registered in a table in which no other active one has the
-- next transaction, and a response with the transaction that was returned comes in, the handler is
-- called once, with the context that was registered and the envelope, and what it does to the world
-- is all that happens there. The result is what the handler returned if that is an error, and
-- otherwise 0. If it returned WPAN_CONVERSATION_END, this conversation is cleared, and the others
-- stay as they were; if it did not, all stay. The last transaction stays too.
pub register-response :
    {W : Type 0} (state state' : EpState W) (h : ResponseFn W) (context : Option ℕ)
    (timeout now id : ℕ) (e : Envelope) (w : W)
    → Unused (next_transaction state.last_transaction) state.conversations
    → conversation_register (some state) (some h) context timeout now ≡ (pos id, some state')
    → Answers h context e w id state'
unfolding conversation_register conversation_response take_slot number
register-response state state' h context timeout now id e w u r =
    let new = requested state h context timeout now in
    elim (Option-cases (occupy new state.conversations)) [
      | inl full ↦ absurd (ground arith)
      | inr (cs, there) ↦
          let (error, table, world) =
            occupy-respond new h state.conversations cs e w refl u there in
          let eq = sym (ap (take_slot state new) there) ∙ r in
          let is_id : new.transaction_id ≡ id = ap (λ p. number p.0) eq in
          let is_state : record { last_transaction = new.transaction_id; conversations = cs }
              ≡ state' =
            some-injective _ _ (ap (λ p. p.1) eq) in
          subst (Answers h context e w id) is_state (
            subst
              (λ n.
                Answers h context e w n
                  (record { last_transaction = new.transaction_id; conversations = cs }))
              is_id
              (
                error,
                ap (λ l. record { last_transaction = new.transaction_id; conversations = l }) table,
                world,
              ))
    ]

occupy_full :
    {W : Type 0} (new : Conversation W) (cs : List (Conversation W))
    → All Active cs
    → occupy new cs ≡ none
unfolding occupy
occupy_full new [] a = refl
occupy_full new (c ∷ cs) a = ground (arith, a.0, occupy_full new cs a.1)

-- Registering a handler in a table of active conversations only fails with -ENOSPC, and the state
-- is as before.
pub register_full :
    {W : Type 0} (state : EpState W) (h : ResponseFn W) (context : Option ℕ) (timeout now : ℕ)
    → All Active state.conversations
    → conversation_register (some state) (some h) context timeout now ≡ (enospc, some state)
unfolding conversation_register take_slot
register_full state h context timeout now a =
    let new = requested state h context timeout now in
    ap (take_slot state new) (occupy_full new state.conversations a)
