-- ===== src/Device/Load/Stream.antt =====
-- Frames that stand one behind the other in the serial port.
use pxbee_open_close.Prelude.{
  ℕ, zero, suc, ◌+◌, ◌<◌, ◌≤◌, ◌==◌, some, List, [], ◌∷◌, ◌++◌, ◌≡◌, refl, arith, ap, length,
  length-append, All, Bool-cases, inl, inr,
}
use pxbee_open_close.Prelude.Bits.{Bytes}
use pxbee_open_close.Device.Dispatch.{Node, Entry, frame_dispatch}
use pxbee_open_close.Device.Write.Laws.{encode}
use pxbee_open_close.Device.Load.{Receiver, wait_start, round, rounds, frame_load}
use pxbee_open_close.Device.Load.Frame.{IsApiFrame, behind, round_whole}

abbrev pub encode_all : List Bytes → Bytes
encode_all [] = []
encode_all (p ∷ ps) = encode p ++ encode_all ps

module _ {W : Type 0} (table : List (Entry W)) where
  -- every frame dispatched in its turn
  abbrev pub dispatch_all : List Bytes → Node W → Node W
  dispatch_all [] n = n
  dispatch_all (p ∷ ps) n = dispatch_all ps (frame_dispatch table p n).1

  abbrev pub behind_all : List Bytes → Receiver W → Receiver W
  behind_all [] r = record r { serial = [] }
  behind_all (p ∷ ps) r = behind_all ps (behind table p (encode_all ps) r)

  rounds_stream :
      (ps : List Bytes) (fuel d : ℕ) (r : Receiver W)
      → All IsApiFrame ps
      → r.state ≡ wait_start
      → r.serial ≡ encode_all ps
      → d + length ps ≤ 5
      → length ps < fuel
      → rounds table fuel d r ≡ some (d + length ps, behind_all ps r)
  unfolding rounds round
  rounds_stream ps zero d r a s e h k = absurd (omega arith)
  rounds_stream [] (suc fuel) d r a s e h k = ground arith
  rounds_stream (p ∷ []) (suc fuel) d r a s e h k =
      let r' = behind table p [] r in
      elim (Bool-cases (d + 1 == 5)) [
        | inl last ↦ ground (arith, round_whole table d p [] r a.0 s e)
        | inr more ↦ ground (
          arith,
          round_whole table d p [] r a.0 s e,
          rounds_stream [] fuel (d + 1) r' tt refl refl (omega arith) (omega arith),
        )
      ]
  rounds_stream (p ∷ q ∷ ps) (suc fuel) d r a s e h k =
      let rest = encode_all (q ∷ ps) in
      let r' = behind table p rest r in
      ground (
        arith,
        round_whole table d p rest r a.0 s e,
        rounds_stream (q ∷ ps) fuel (d + 1) r' a.1 refl refl (omega arith) (omega arith),
      )

  behind_all-node :
      (ps : List Bytes) (r : Receiver W)
      → ((behind_all ps r).node ≡ dispatch_all ps r.node) × ((behind_all ps r).serial ≡ [])
  behind_all-node [] r = (refl, refl)
  behind_all-node (p ∷ ps) r = behind_all-node ps (behind table p (encode_all ps) r)

length-encode_all : (ps : List Bytes) → length ps ≤ length (encode_all ps)
length-encode_all [] = omega arith
length-encode_all (p ∷ ps) =
    omega (arith, length-append (encode p) (encode_all ps), length-encode_all ps)

-- Where the serial port holds at most five API frames of 2 to 146 bytes, one behind the other, and
-- the device waits for a start byte, one call of _xbee_frame_load returns their number, has
-- dispatched each of them once, in their order, and has left nothing in the port.
pub frame_load-encode :
    {W : Type 0} (table : List (Entry W)) (ps : List Bytes) (r : Receiver W)
    → All IsApiFrame ps
    → r.state ≡ wait_start
    → r.serial ≡ encode_all ps
    → length ps ≤ 5
    → (r' : Receiver W) × (frame_load table r ≡ some (length ps, r'))
      × (r'.node ≡ dispatch_all table ps r.node)
      × (r'.serial ≡ [])
unfolding frame_load
frame_load-encode table ps r a s e h =
    let n = behind_all-node table ps r in
    let enough : length ps < length r.serial + 2 =
      omega (arith, length-encode_all ps, ap length e) in
    let run = rounds_stream table ps (length r.serial + 2) 0 r a s e (omega arith) enough in
    (behind_all table ps r, ground (arith, run), n.0, n.1)
