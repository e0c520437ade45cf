-- ===== src/Tests/App.antt =====
-- Runs of the application.
use pxbee_open_close.Prelude.{ℕ, pos, true, false, none, some, [], ◌∷◌, ◌≡◌, refl, arith}
use pxbee_open_close.Wpan.{Envelope}
use pxbee_open_close.Zcl.Parse.Laws.{Carries, print}
use pxbee_open_close.Zcl.Response.Header.{reply_to}
use pxbee_open_close.App.Reply.Laws.{Answers}
use pxbee_open_close.App.RxCluster.{rx_cluster_callback}
use pxbee_open_close.App.RxCluster.Laws.{rx_read}
use pxbee_open_close.App.DefaultCluster.{default_cluster_callback}
use pxbee_open_close.App.DefaultCluster.Laws.{default_read}
use pxbee_open_close.App.Periodic.{Board}
use pxbee_open_close.App.Periodic.Pin.{run_task}
use pxbee_open_close.App.Periodic.Glitch.{run_tasks, glitched, misled, glitch_stays}
use pxbee_open_close.App.Periodic.Follow.{
  Reach, here, next, move, booted, Follows, Alternates, task-Follows,
}
use pxbee_open_close.Tests.Fixture.{
  Sent, devices, keep, closed_door, request, request-IsFrame, message,
}

-- a message that holds a request, and nothing behind it
abbrev asking : ℕ → ℕ → ℕ → ℕ → Envelope
asking cluster_id command x y = message cluster_id (print (request command (x ∷ y ∷ [])))

abbrev asking-Carries :
    (cluster_id command x y : ℕ)
    → Carries (asking cluster_id command x y) (print (request command (x ∷ y ∷ [])))
asking-Carries cluster_id command x y = record {
  rest = [];
  held = refl;
  counted = refl;
  short = omega arith;
}

rx_read_example :
    (sent : Envelope) × (rx_cluster_callback devices closed_door (some (asking 6 0 0 0)) none []
      ≡ (pos 0, sent ∷ []))
    × Answers
        (asking 6 0 0 0)
        sent
        (print (reply_to (request 0 (0 ∷ 0 ∷ [])) 0x01 (0x00 ∷ 0x00 ∷ 0x00 ∷ 0x10 ∷ 0x01 ∷ [])))
rx_read_example =
    rx_read devices closed_door (asking 6 0 0 0) (request 0 (0 ∷ 0 ∷ [])) none 0 keep [] refl refl
      (request-IsFrame 0 (0 ∷ 0 ∷ [])) (asking-Carries 6 0 0 0) (omega arith) refl refl

default_read_example :
    (sent : Envelope) × (default_cluster_callback devices (asking 0 0 4 0) none []
      ≡ (pos 0, sent ∷ []))
    × Answers (asking 0 0 4 0) sent (
        print (
          reply_to
            (request 0 (4 ∷ 0 ∷ []))
            0x01
            (4 ∷ 0 ∷ 0 ∷ 0x42 ∷ 4 ∷ 0x52 ∷ 0x6f ∷ 0x6f ∷ 0x74 ∷ [])))
default_read_example =
    default_read devices (asking 0 0 4 0) (request 0 (4 ∷ 0 ∷ [])) none 0 keep [] refl refl
      (request-IsFrame 0 (4 ∷ 0 ∷ [])) (asking-Carries 0 0 4 0) (omega arith) 4
      (0x42 ∷ 4 ∷ 0x52 ∷ 0x6f ∷ 0x6f ∷ 0x74 ∷ []) refl refl refl refl

-- the LED is on with the sensor high: a change
abbrev changed : Board Sent
changed = record { led = true; world = [] }

-- the LED is off with the sensor high
abbrev still : Board Sent
still = record { led = false; world = [] }

glitch_stays_example : run_tasks 3 (run_task (glitched true true [])) ≡ misled true []
glitch_stays_example = glitch_stays 3 true true []

-- the sensor moves once after the start
moved :
    Reach
      (booted false)
      (record (booted false) { world = record (booted false).world { rest = true } })
moved = next here (move (booted false) true)

task-Follows_example :
    let told =
      (run_task (record (booted false) {
        world = record (booted false).world { rest = true };
      })).world.told in
    Follows false told true × Alternates false told
task-Follows_example = task-Follows false moved
