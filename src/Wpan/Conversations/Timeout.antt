-- ===== src/Wpan/Conversations/Timeout.antt =====
-- When a conversation expires.
use pxbee_open_close.Prelude.{◌≢◌, ltb, ℕ, ◌+◌, ◌<◌, ◌≤◌, ◌%◌, ◌≡◌, arith}
use pxbee_open_close.Wpan.Conversations.{expiry, is_due}

-- A conversation with a timeout of less than 32768 seconds is not due in any of the seconds before
-- the timeout has passed, and is due from the second behind it on for 32767 seconds, across the
-- wrap-around of the 16-bit clock.
pub expiry-is_due :
    (timeout now passed : ℕ)
    → 1 ≤ timeout
    → timeout < 32768
    → now < 65536
    → passed ≢ timeout
    → passed ≤ timeout + 32767
    → is_due ((now + passed) % 65536) (expiry timeout now) ≡ ltb timeout passed
unfolding expiry is_due
expiry-is_due timeout now passed a b c d e = ground arith
