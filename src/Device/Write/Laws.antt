-- ===== src/Device/Write/Laws.antt =====
-- What xbee_frame_write puts on the line.
use pxbee_open_close.Prelude.{
  ℕ, ◌+◌, ◌<◌, ◌≤◌, ◌/◌, ◌%◌, pos, ebusy, true, false, some, [], ◌∷◌, ◌++◌, ◌≡◌, arith, ap, sym,
  ◌∙◌, length, take, take-append, append_assoc, length-append, ◌⊎◌,
}
use pxbee_open_close.Prelude.Bits.{Bytes}
use pxbee_open_close.Device.{checksum, start_byte}
use pxbee_open_close.Device.Checksum.{checksum-append}
use pxbee_open_close.Device.Write.{Line, frame_write, put_frame, ser_write}

-- an API frame as the radio takes it: start byte, length with the high byte first, the frame, and
-- its checksum
abbrev pub encode : Bytes → Bytes
encode p = start_byte ∷ (length p / 256) ∷ (length p % 256) ∷ (p ++ (checksum p 0xff ∷ []))

-- the write of a part of less than 256 bytes
ser_write_lem :
    (p more sent : Bytes) → length p < 256 → ser_write (p ++ more) (length p) sent ≡ sent ++ p
ser_write_lem p more sent h = ground (arith, take-append p more)

-- the part of less than 256 bytes that the checksum is taken of
summed_lem : (p more : Bytes) → length p < 256 → take (length p % 256) (p ++ more) ≡ p
summed_lem p more h = ap (λ n. take n (p ++ more)) (omega arith) ∙ take-append p more

append_four :
    (a b c d : Bytes) (x : ℕ)
    → (((a ++ b) ++ c) ++ d) ++ (x ∷ []) ≡ a ++ (b ++ ((c ++ d) ++ (x ∷ [])))
append_four a b c d x =
    ap (λ l. (l ++ d) ++ (x ∷ [])) (append_assoc a b c)
    ∙ ap (λ l. l ++ (x ∷ [])) (append_assoc a (b ++ c) d)
    ∙ append_assoc a ((b ++ c) ++ d) (x ∷ [])
    ∙ ap (λ l. a ++ (l ++ (x ∷ []))) (append_assoc b c d)
    ∙ ap (λ l. a ++ l) (append_assoc b (c ++ d) (x ∷ []))

put_frame_lem :
    (h d more1 more2 sent : Bytes)
    → length h < 256
    → length d < 256
    → put_frame (h ++ more1, length h) (d ++ more2, length d) sent ≡ sent ++ encode (h ++ d)
put_frame_lem h d more1 more2 sent h1 h2 =
    let size : (length h + length d) % 65536 ≡ length (h ++ d) = omega (arith, length-append h d) in
    let sum : checksum d (checksum h 0xff) ≡ checksum (h ++ d) 0xff =
      sym (checksum-append h d 0xff) in
    rw
      (
        size,
        summed_lem h more1 h1,
        summed_lem d more2 h2,
        ser_write_lem h more1 _ h1,
        ser_write_lem d more2 _ h2,
        sum,
      )
      (append_four sent _ h d (checksum (h ++ d) 0xff))

-- A header and data of less than 256 bytes each, not both empty, are sent on a valid port whose
-- radio is ready, or not asked: on the line comes one API frame, with the header and the data.
pub frame_write_lem :
    (l : Line) (h d more1 more2 : Bytes)
    → l.valid ≡ true
    → (l.use_flowcontrol ≡ false) ⊎ (l.cts ≡ true)
    → length h < 256
    → length d < 256
    → 1 ≤ length h + length d
    → frame_write (some l) (some (h ++ more1)) (length h) (some (d ++ more2)) (length d)
      ≡ (pos 0, some (record l { sent = l.sent ++ encode (h ++ d) }))
unfolding frame_write
frame_write_lem l h d more1 more2 v c h1 h2 n =
    ground (arith, put_frame_lem h d more1 more2 l.sent h1 h2)

-- While the radio is not ready and is asked, nothing of a message that has any bytes is sent, and
-- for less than 32764 bytes the error is -EBUSY.
pub frame_write_busy :
    (l : Line) (h d : Bytes)
    → l.valid ≡ true
    → l.use_flowcontrol ≡ true
    → l.cts ≡ false
    → 1 ≤ length h + length d
    → length h + length d < 32764
    → frame_write (some l) (some h) (length h) (some d) (length d) ≡ (ebusy, some l)
unfolding frame_write
frame_write_busy l h d v f c n m = ground arith
