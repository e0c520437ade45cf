-- ===== src/Tests/Conversations.antt =====
-- Runs of the table of conversations.
use pxbee_open_close.Prelude.{
  ℕ, All, ◌+◌, ◌%◌, pos, none, some, [], ◌∷◌, ◌≡◌, true, inl, inr, refl, arith,
}
use pxbee_open_close.Wpan.Conversations.{
  Conversation, EpState, ResponseFn, conversation_register, expire_conversations, expiry, is_due,
}
use pxbee_open_close.Wpan.Conversations.Timeout.{expiry-is_due}
use pxbee_open_close.Wpan.Conversations.Laws.{Answers, register-response}
use pxbee_open_close.Wpan.Tables.{Endpoint, visits}
use pxbee_open_close.Wpan.Tick.{Ticking, wpan_tick}
use pxbee_open_close.Wpan.Tick.Laws.{Settled, wpan_tick-Settled}
use pxbee_open_close.Tests.Fixture.{Sent, message}

-- the handler keeps the envelope and ends the conversation
abbrev got : ResponseFn Sent
got id context none w = (pos 1, w)
got id context (some e) w = (pos 1, e ∷ w)

abbrev vacant : Conversation Sent
vacant = record { transaction_id = 0; context = none; timeout = 0; handler = none }

abbrev waiting : Conversation Sent
waiting = record { transaction_id = 7; context = some 2; timeout = 100; handler = some got }

-- the transaction 7 is waited for, two conversations are free
abbrev state : EpState Sent
state = record { last_transaction = 7; conversations = waiting ∷ vacant ∷ vacant ∷ [] }

abbrev registered : EpState Sent
registered = record {
  last_transaction = 8;
  conversations =
      waiting
      ∷ record { transaction_id = 8; context = some 3; timeout = 80; handler = some got }
      ∷ vacant
      ∷ [];
}

registers : conversation_register (some state) (some got) (some 3) 30 50 ≡ (pos 8, some registered)
unfolding conversation_register
registers = refl

register-response_example : Answers got (some 3) (message 6 []) [] 8 registered
register-response_example =
    register-response state registered got (some 3) 30 50 8 (message 6 []) []
      (inr (λ e. absurd (omega arith)), (inl refl, (inl refl, tt))) registers

-- no conversation is free
abbrev full : EpState Sent
full = record { last_transaction = 7; conversations = waiting ∷ waiting ∷ waiting ∷ [] }

expiry-is_due_example : is_due ((65530 + 40) % 65536) (expiry 30 65530) ≡ true
expiry-is_due_example =
    expiry-is_due 30 65530 40 (omega arith) (omega arith) (omega arith) (λ e. absurd (omega arith))
      (omega arith)

-- two endpoints that share the state 3, and the end of the table
abbrev endpoint_of : ℕ → Endpoint Sent
endpoint_of n = record {
  endpoint = n;
  profile_id = 0x0104;
  handler = none;
  ep_state = some 3;
  device_id = 0;
  device_version = 0;
  cluster_table = none;
}

abbrev ticking : Ticking Sent
ticking = record {
  endpoint_table = some (endpoint_of 0xea ∷ endpoint_of 1 ∷ endpoint_of 0xff ∷ []);
  tick = some (λ states w. (pos 2, states, w));
}

-- At 99 the conversation that waits until 100 goes on, at 100 it is ended.
not_yet : ((wpan_tick 99 (some ticking) (λ i. state) []).1 3).conversations ≡ state.conversations
unfolding visits expire_conversations wpan_tick
not_yet = refl

ended :
    ((wpan_tick 100 (some ticking) (λ i. state) []).1 3).conversations
    ≡ vacant ∷ vacant ∷ vacant ∷ []
unfolding visits expire_conversations wpan_tick
ended = refl

wpan_tick-Settled_example :
    All
      (λ ep. Settled 100 (wpan_tick 100 (some ticking) (λ i. state) []).1 ep.ep_state)
      (visits ticking.endpoint_table)
wpan_tick-Settled_example = wpan_tick-Settled 100 ticking (λ i. state) []
