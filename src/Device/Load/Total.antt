-- ===== src/Device/Load/Total.antt =====
-- The loop of _xbee_frame_load ends.
use pxbee_open_close.Prelude.{ℕ, zero, suc, ◌+◌, ◌<◌, ◌≤◌, some, List, ◌≡◌, refl, arith, length}
use pxbee_open_close.Prelude.Bits.{Bytes}
use pxbee_open_close.Device.Dispatch.{Entry}
use pxbee_open_close.Device.Load.{
  Receiver, RxState, Round, back, again, wait_start, length_msb, length_lsb, rx_frame, invalid,
  round, rounds, frame_load,
}
use pxbee_open_close.Device.Load.Safety.{IsReceiver, IsFine, left, round-IsFine}

module _ {W : Type 0} (table : List (Entry W)) where
  -- what a call promises
  abbrev pub Loads : ℕ → ℕ → Receiver W → Type 0
  Loads fuel d r =
      (n : ℕ) × (r' : Receiver W) × (rounds table fuel d r ≡ some (n, r')) × (n ≤ 5) × IsReceiver r'

  rounds_fine :
      (fuel d : ℕ) (r : Receiver W)
      → IsReceiver r
      → d < 5
      → left r.state r.serial < fuel
      → Loads fuel d r
  unfolding rounds
  rounds_fine zero d r i h k = absurd (omega arith)
  rounds_fine (suc fuel) d r i h k =
      go (round table d r) refl (round-IsFine table d r i h) (λ n r'. rounds_fine fuel n r')
    where
      go :
          (o : Round W)
          → round table d r ≡ o
          → IsFine (left r.state r.serial) o
          → ((n : ℕ) (r' : Receiver W)
              → IsReceiver r'
              → n < 5
              → left r'.state r'.serial < fuel
              → Loads fuel n r')
          → Loads (suc fuel) d r
      go (back n r') e f ih = (n, r', rw (rounds, e) refl, f.1, f.0)
      go (again n r') e f ih =
          let later = ih n r' f.0 f.1 (omega (arith, f.2, k)) in
          (later.0, later.1, rw (rounds, e) later.2, later.3, later.4)

left_bound : (s : RxState) (serial : Bytes) → left s serial < length serial + 2
left_bound wait_start serial = omega arith
left_bound length_msb serial = omega arith
left_bound length_lsb serial = omega arith
left_bound rx_frame serial = omega arith
left_bound invalid serial = omega arith

-- From a buffer of 147 bytes, in a state in which the frame that comes in fits into it, whatever
-- bytes the serial port holds, a call of _xbee_frame_load returns: it has dispatched at most five
-- frames, the buffer has its 147 bytes as before, and what still comes in fits into it again.
pub frame_load-IsReceiver :
    {W : Type 0} (table : List (Entry W)) (r : Receiver W)
    → IsReceiver r
    → (n : ℕ) × (r' : Receiver W) × (frame_load table r ≡ some (n, r')) × (n ≤ 5) × IsReceiver r'
unfolding frame_load
frame_load-IsReceiver table r i =
    rounds_fine table (length r.serial + 2) 0 r i (omega arith) (left_bound r.state r.serial)
