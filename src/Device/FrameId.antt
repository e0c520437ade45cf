-- ===== src/Device/FrameId.antt =====
-- The identifiers of sent frames.
use pxbee_open_close.Prelude.{ℕ, zero, suc, ◌+◌, ◌%◌, ◌<◌, ◌≤◌, ◌≡◌, arith}
use pxbee_open_close.Device.{next_frame_id}

-- the identifier after `n` further frames
abbrev pub after_frames : ℕ → ℕ → ℕ
after_frames zero frame_id = frame_id
after_frames (suc n) frame_id = next_frame_id (after_frames n frame_id)

-- From any identifier of 1 to 255, the one of the `n`-th frame on is in this range again, goes
-- round in it, and so comes back after 255 frames and not before.
pub after_frames_lem :
    (n frame_id : ℕ)
    → 1 ≤ frame_id
    → frame_id < 256
    → after_frames n frame_id ≡ (frame_id + n + 254) % 255 + 1
unfolding next_frame_id
after_frames_lem zero frame_id h l = omega arith
after_frames_lem (suc n) frame_id h l = ground (arith, after_frames_lem n frame_id h l)
