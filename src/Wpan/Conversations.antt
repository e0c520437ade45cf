-- ===== src/Wpan/Conversations.antt =====
-- Requests that wait for their responses: wpan_conversation_register, wpan_conversation_delete,
-- _wpan_endpoint_expire_conversations, wpan_conversation_response and wpan_endpoint_next_trans of
-- pxbee/pan/wpan/wpan_aps.c.
pub mod Timeout
pub mod Laws
pub mod Expiry
use pxbee_open_close.Prelude.{
  ℕ, ◌+◌, ◌%◌, ℤ, pos, einval, enospc, is_negative, Bool, true, false, not, Option, none, some,
  List, [], ◌∷◌, ◌==◌, ◌&&◌, if◌then◌else◌,
}
use pxbee_open_close.Prelude.Bits.{sub16, is_neg16}
use pxbee_open_close.Wpan.{Envelope}

-- `wpan_response_fn`: it gets the transaction and the context of its conversation, and the envelope
-- or NULL for a timeout. It changes no table of conversations.
abbrev pub ResponseFn : Type 0 → Type 0
ResponseFn W = ℕ → Option ℕ → Option Envelope → W → ℤ × W

-- `wpan_conversation_t`; a context is the number that names it
pub record Conversation (W : Type 0) : Type 0 where
  pub transaction_id : ℕ
  pub context : Option ℕ
  pub timeout : ℕ
  pub handler : Option (ResponseFn W)

-- `wpan_ep_state_t`, with WPAN_MAX_CONVERSATIONS, 3, conversations
pub record EpState (W : Type 0) : Type 0 where
  pub last_transaction : ℕ
  pub conversations : List (Conversation W)

-- WPAN_CONVERSATION_END
abbrev pub conversation_end : ℤ
conversation_end = pos 1

abbrev pub next_transaction : ℕ → ℕ
next_transaction last = (last + 1) % 256

-- the time at which a conversation expires, 0 for never
unfoldable pub expiry : ℕ → ℕ → ℕ
expiry timeout now =
    let t = (timeout + now) % 65536 in if timeout == 0 then 0 else if t == 0 then 1 else t

-- `(int16_t)(now - conversation->timeout) >= 0`, for a timeout that is not 0
unfoldable pub is_due : ℕ → ℕ → Bool
is_due now timeout = not (timeout == 0) && not (is_neg16 (sub16 now timeout))

-- `(retval < 0) ? retval : 0`
abbrev pub error_of : ℤ → ℤ
error_of retval = if is_negative retval then retval else pos 0

module _ {W : Type 0} where
  unfoldable pub conversation_delete : Conversation W → Conversation W
  conversation_delete c = record { transaction_id = 0; context = none; timeout = 0; handler = none }

  -- the loop over the conversations: the first free one is taken
  occupy : Conversation W → List (Conversation W) → Option (List (Conversation W))
  occupy new [] = none
  occupy new (c ∷ cs) = elim c.handler [
    | none ↦ some (new ∷ cs)
    | some _ ↦ elim (occupy new cs) [ none ↦ none | some cs' ↦ some (c ∷ cs') ]
  ]

  take_slot : EpState W → Conversation W → Option (List (Conversation W)) → ℤ × Option (EpState W)
  take_slot state new none = (enospc, some state)
  take_slot state new (some cs) = (
    pos new.transaction_id,
    some (record { last_transaction = new.transaction_id; conversations = cs }),
  )

  -- the last argument is the low half of xbee_seconds_timer()
  unfoldable pub conversation_register :
      Option (EpState W) → Option (ResponseFn W) → Option ℕ → ℕ → ℕ → ℤ × Option (EpState W)
  unfolding occupy take_slot expiry
  conversation_register none handler context timeout now = (einval, none)
  conversation_register (some state) none context timeout now =
      let id = next_transaction state.last_transaction in
      (pos id, some (record state { last_transaction = id }))
  conversation_register (some state) (some handler) context timeout now =
      let new : Conversation W = record {
        transaction_id = next_transaction state.last_transaction;
        context = context;
        timeout = expiry timeout now;
        handler = some handler;
      } in
      take_slot state new (occupy new state.conversations)

  -- one conversation of the walk, by its handler
  expire_one : ℕ → Conversation W → Option (ResponseFn W) → W → Conversation W × W
  unfolding conversation_delete is_due
  expire_one now c none w = (c, w)
  expire_one now c (some handler) w =
      if is_due now c.timeout
      then (conversation_delete c, (handler c.transaction_id c.context none w).1)
      else (c, w)

  expire_all : ℕ → List (Conversation W) → W → List (Conversation W) × W
  unfolding expire_one
  expire_all now [] w = ([], w)
  expire_all now (c ∷ cs) w =
      let (c', w') = expire_one now c c.handler w in
      let (cs', w'') = expire_all now cs w' in (c' ∷ cs', w'')

  unfoldable pub expire_conversations : ℕ → Option (EpState W) → W → Option (EpState W) × W
  unfolding expire_all
  expire_conversations now none w = (none, w)
  expire_conversations now (some state) w =
      let (cs, w') = expire_all now state.conversations w in
      (some (record state { conversations = cs }), w')

  -- the conversation behind a response to which its handler returned `retval`
  finish : Conversation W → ℤ → Conversation W
  unfolding conversation_delete
  finish c (pos n) = if n == 1 then conversation_delete c else c
  finish c retval = c

  respond_all : ℕ → Envelope → List (Conversation W) → W → ℤ × List (Conversation W) × W
  unfolding finish
  respond_all id e [] w = (einval, [], w)
  respond_all id e (c ∷ cs) w =
      let (error, cs', w') = respond_all id e cs w in
      let behind : ℤ × List (Conversation W) × W = (error, c ∷ cs', w') in
      if c.transaction_id == id
      then elim c.handler [
        | none ↦ behind
        | some handler ↦
            let (retval, w1) = handler c.transaction_id c.context (some e) w in
            (error_of retval, finish c retval ∷ cs, w1)
      ]
      else behind

  -- for an envelope and a state that are not NULL
  unfoldable pub conversation_response : EpState W → ℕ → Envelope → W → ℤ × EpState W × W
  unfolding respond_all
  conversation_response state id e w =
      let (error, cs, w') = respond_all id e state.conversations w in
      (error, record state { conversations = cs }, w')

  -- for an endpoint, none where it is NULL or has no state
  unfoldable pub endpoint_next_trans : Option (EpState W) → ℕ × Option (EpState W)
  endpoint_next_trans none = (0, none)
  endpoint_next_trans (some state) =
      let id = next_transaction state.last_transaction in
      (id, some (record state { last_transaction = id }))
