-- ===== src/Device/Load/Safety.antt =====
-- The loop ends, and it stays inside the buffer of a frame.
use pxbee_open_close.Prelude.{
  ◌%◌, ◌*◌, ◌≢◌, ℕ, ◌+◌, ◌-◌, ◌<◌, ◌≤◌, ◌==◌, ltb, ◌||◌, List, [], ◌∷◌, ◌++◌, ◌≡◌, refl, arith, ◌∙◌,
  length, min, take, drop, length-append, length-take, length-drop, Bool-cases, inl, inr,
}
use pxbee_open_close.Prelude.Bits.{Bytes}
use pxbee_open_close.Device.{checksum, start_byte, max_frame_len}
use pxbee_open_close.Device.Dispatch.{Node, Entry, frame_dispatch}
use pxbee_open_close.Device.Load.{
  Receiver, RxState, Round, back, again, wait_start, length_msb, length_lsb, rx_frame, invalid,
  write_at, complete, receive, low_byte, high_byte, find_start, on_state, round,
}

-- The buffer has its 147 bytes, and while a frame comes in, it has room for what is left of it.
pub record IsReceiver {W : Type 0} (r : Receiver W) : Type 0 where
  pub buffer : length r.frame_data ≡ 147
  pub least : r.state ≡ rx_frame → 2 ≤ r.bytes_in_frame
  pub most : r.state ≡ rx_frame → r.bytes_in_frame ≤ 146
  pub read : r.state ≡ rx_frame → r.bytes_read ≤ r.bytes_in_frame

-- what further rounds can consume: bytes, or the invalid state
abbrev pub left : RxState → Bytes → ℕ
left invalid serial = 1 + length serial
left _ serial = length serial

-- A round is fine if it returns with at most five frames dispatched, or goes on with less than five
-- and with less to consume than `m`.
abbrev pub IsFine : {W : Type 0} → ℕ → Round W → Type 0
IsFine m (back d r) = IsReceiver r × (d ≤ 5)
IsFine m (again d r) = IsReceiver r × (d < 5) × (left r.state r.serial < m)

write_at-length :
    (mem : Bytes) (i : ℕ) (bytes : Bytes)
    → i + length bytes ≤ length mem
    → length (write_at mem i bytes) ≡ length mem
write_at-length mem i bytes h = omega (
  arith,
  length-append (take i mem ++ bytes) (drop (i + length bytes) mem),
  length-append (take i mem) bytes,
  length-take i mem,
  length-drop (i + length bytes) mem,
)

-- outside of a frame the size of the buffer is enough
idle-IsReceiver :
    {W : Type 0} (r : Receiver W) → length r.frame_data ≡ 147 → r.state ≢ rx_frame → IsReceiver r
idle-IsReceiver r b ne = record {
  buffer = b;
  least = λ e. absurd (ne e);
  most = λ e. absurd (ne e);
  read = λ e. absurd (ne e);
}

module _ {W : Type 0} (table : List (Entry W)) where
  complete-IsFine :
      (d m : ℕ) (r : Receiver W)
      → length r.frame_data ≡ 147
      → d < 5
      → length r.serial < m
      → IsFine m (complete table d r)
  unfolding complete
  complete-IsFine d m r b h k =
      let n = (frame_dispatch table (take r.bytes_in_frame r.frame_data) r.node).1 in
      let ready = λ (n : Node W).
        idle-IsReceiver (record r { state = wait_start; node = n }) b (λ e. absurd (cc)) in
      elim (Bool-cases (checksum (take (r.bytes_in_frame + 1) r.frame_data) 0xff == 0)) [
        | inl passed ↦ elim (Bool-cases (d + 1 == 5)) [
          | inl last ↦ rw (passed, last) (ready n, omega arith)
          | inr more ↦ rw (passed, more) (ready n, ground arith, k)
        ]
        | inr failed ↦ rw failed (ready r.node, h, k)
      ]

  receive-IsFine :
      (d m : ℕ) (r : Receiver W)
      → length r.frame_data ≡ 147
      → r.state ≡ rx_frame
      → 2 ≤ r.bytes_in_frame
      → r.bytes_in_frame ≤ 146
      → r.bytes_read ≤ r.bytes_in_frame
      → d < 5
      → length r.serial ≤ m
      → IsFine m (receive table d r)
  unfolding receive
  receive-IsFine d m r b s least most read h k =
      let size = min (r.bytes_in_frame - r.bytes_read + 1) 255 in
      let got = take size r.serial in
      let lg = length-take size r.serial in
      let ld = length-drop size r.serial in
      let fits : r.bytes_read + length got ≤ length r.frame_data = omega arith in
      let b' : length (write_at r.frame_data r.bytes_read got) ≡ 147 =
        write_at-length r.frame_data r.bytes_read got fits ∙ b in
      elim (Bool-cases (length got == r.bytes_in_frame - r.bytes_read + 1)) [
        | inl whole ↦ rw whole (
            complete-IsFine d m
              (record r {
                frame_data = write_at r.frame_data r.bytes_read got;
                serial = drop size r.serial;
              })
              b' h (ground arith))
        | inr part ↦ rw part (
          record { buffer = b'; least = λ e. least; most = λ e. most; read = λ e. ground arith },
          omega arith,
        )
      ]

  low_byte-IsFine :
      (d m : ℕ) (r : Receiver W) (serial : Bytes)
      → length r.frame_data ≡ 147
      → r.state ≡ length_lsb
      → d < 5
      → length serial ≤ m
      → IsFine m (low_byte table d r serial)
  unfolding low_byte
  low_byte-IsFine d m r [] b s h k = (idle-IsReceiver _ b (λ e. absurd (cc)), omega arith)
  low_byte-IsFine d m r (ch ∷ serial) b s h k =
      let size = (r.bytes_in_frame + ch) % 65536 in
      elim (Bool-cases (ltb max_frame_len size || ltb size 2)) [
        | inl bad ↦ elim (Bool-cases (ch == start_byte)) [
          | inl start ↦ rw (bad, start) (idle-IsReceiver _ b (λ e. absurd (cc)), h, omega arith)
          | inr other ↦ rw (bad, other) (idle-IsReceiver _ b (λ e. absurd (cc)), h, omega arith)
        ]
        | inr good ↦ rw good (
            receive-IsFine d m
              (record r {
                state = rx_frame;
                bytes_in_frame = size;
                bytes_read = 0;
                serial = serial;
              })
              b refl (ground arith) (ground arith) (omega arith) h (omega arith))
      ]

  high_byte-IsFine :
      (d m : ℕ) (r : Receiver W) (serial : Bytes)
      → length r.frame_data ≡ 147
      → r.state ≡ length_msb
      → d < 5
      → length serial ≤ m
      → IsFine m (high_byte table d r serial)
  unfolding high_byte
  high_byte-IsFine d m r [] b s h k = (idle-IsReceiver _ b (λ e. absurd (cc)), omega arith)
  high_byte-IsFine d m r (ch ∷ serial) b s h k = elim (Bool-cases (ch == start_byte)) [
    | inl start ↦ rw start (idle-IsReceiver _ b (λ e. absurd (cc)), h, rw s (omega arith))
    | inr other ↦ rw other (
        low_byte-IsFine d m (record r { bytes_in_frame = ch * 256; state = length_lsb }) serial b
          refl h (omega arith))
  ]

  find_start-IsFine :
      (d m : ℕ) (r : Receiver W) (serial : Bytes)
      → length r.frame_data ≡ 147
      → r.state ≡ wait_start
      → d < 5
      → length serial ≤ m
      → IsFine m (find_start table d r serial)
  unfolding find_start
  find_start-IsFine d m r [] b s h k = (idle-IsReceiver _ b (λ e. absurd (cc)), omega arith)
  find_start-IsFine d m r (ch ∷ serial) b s h k = elim (Bool-cases (ch == start_byte)) [
    | inl start ↦
        rw start
          (high_byte-IsFine d m (record r { state = length_msb }) serial b refl h (omega arith))
    | inr other ↦ rw other (find_start-IsFine d m r serial b s h (omega arith))
  ]

  on_state-IsFine :
      (s : RxState) (d : ℕ) (r : Receiver W)
      → r.state ≡ s
      → IsReceiver r
      → d < 5
      → IsFine (left s r.serial) (on_state table s d r)
  unfolding on_state
  on_state-IsFine wait_start d r e i h =
      find_start-IsFine d (length r.serial) r r.serial i.buffer e h (omega arith)
  on_state-IsFine length_msb d r e i h =
      high_byte-IsFine d (length r.serial) r r.serial i.buffer e h (omega arith)
  on_state-IsFine length_lsb d r e i h =
      low_byte-IsFine d (length r.serial) r r.serial i.buffer e h (omega arith)
  on_state-IsFine rx_frame d r e i h =
      receive-IsFine d (length r.serial) r i.buffer e (i.least e) (i.most e) (i.read e) h
        (omega arith)
  on_state-IsFine invalid d r e i h = (
    idle-IsReceiver (record r { state = wait_start }) i.buffer (λ e. absurd (cc)),
    h,
    omega arith,
  )

  pub round-IsFine :
      (d : ℕ) (r : Receiver W)
      → IsReceiver r
      → d < 5
      → IsFine (left r.state r.serial) (round table d r)
  unfolding round
  round-IsFine d r i h = on_state-IsFine r.state d r refl i h
