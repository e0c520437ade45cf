-- ===== src/Tests/Ring.antt =====
-- Runs of the ring of received bytes, of four places.
use pxbee_open_close.Prelude.{pos, [], ◌∷◌, ◌≡◌, refl, arith}
use pxbee_open_close.Ring.Driver.{
  Buffer, cbuf_append, cbuf_init, cbuf_get, cbuf_get_nocheck, data_in_buf, space_in_buf,
}
use pxbee_open_close.Ring.Xbee.{Cbuf, put}
use pxbee_open_close.Ring.Xbee.Fifo.{Holds}
use pxbee_open_close.Ring.Xbee.Blocks.{put_lem}

-- the head is in the last place, and two bytes are in the ring
abbrev ring : Cbuf
ring = record { head = 3; tail = 1; mask = 3; cells = 12 ∷ 9 ∷ 9 ∷ 11 ∷ [] }

ring-Holds : Holds ring (11 ∷ 12 ∷ [])
ring-Holds = record {
  masked = record { range = omega arith; accepted = refl };
  room = omega arith;
  inside = omega arith;
  bounded = omega arith;
  ends = refl;
  holds = (refl, (refl, tt));
}

put_lem_example :
    ((put ring (5 ∷ 6 ∷ [])).0 ≡ 1) × Holds (put ring (5 ∷ 6 ∷ [])).1 (11 ∷ 12 ∷ 5 ∷ [])
put_lem_example = put_lem ring (11 ∷ 12 ∷ []) (5 ∷ 6 ∷ []) ring-Holds

-- the ring of the drivers, of three places: a byte that is appended is the one that is got
abbrev appended : Buffer
appended = cbuf_append (cbuf_init (0 ∷ 0 ∷ 0 ∷ []) 3) 7

append_test : (cbuf_get appended).0 ≡ pos 7
unfolding cbuf_get cbuf_append cbuf_init cbuf_get_nocheck
append_test = refl

used_test : (data_in_buf appended ≡ 1) × (space_in_buf appended ≡ 1)
unfolding data_in_buf space_in_buf cbuf_append cbuf_init
used_test = (refl, refl)
