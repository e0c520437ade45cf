-- ===== src/App/Periodic/Laws.antt =====
-- One run of the periodic task.
use pxbee_open_close.Prelude.{Bool-cases, inl, inr, ℕ, Bool, true, false, not, some, ◌≡◌, arith}
use pxbee_open_close.Wpan.{Devices, EndpointSend}
use pxbee_open_close.Wpan.Addressing.{envelope_send}
use pxbee_open_close.App.{Sensor}
use pxbee_open_close.App.Periodic.{Board, report, rtc_periodic_task}

-- Where the LED shows the inverse of what the first reading of the sensor gives, the task reads the
-- sensor no more, sends nothing and leaves the LED as it is.
pub task_quiet :
    {W : Type 0} (devices : Devices W) (gpio_get : Sensor W) (xdev : ℕ) (b : Board W)
    → b.led ≡ not (gpio_get b.world).0
    → rtc_periodic_task devices gpio_get xdev b
      ≡ record { led = b.led; world = (gpio_get b.world).1 }
unfolding rtc_periodic_task
task_quiet devices gpio_get xdev b h = elim (Bool-cases (gpio_get b.world).0) [
  | inl high ↦ ground arith
  | inr low ↦ ground arith
]

-- Where the LED shows what the first reading of the sensor gives, the LED takes the inverse of a
-- second reading, and a third reading is told to the coordinator in one message.
pub task_tells :
    {W : Type 0} (devices : Devices W) (gpio_get : Sensor W) (xdev : ℕ) (send : EndpointSend W)
    (b : Board W) (w1 w2 w3 : W) (first shown told : Bool)
    → devices xdev ≡ some send
    → gpio_get b.world ≡ (first, w1)
    → gpio_get w1 ≡ (shown, w2)
    → gpio_get w2 ≡ (told, w3)
    → b.led ≡ first
    → rtc_periodic_task devices gpio_get xdev b
      ≡ record { led = not shown; world = (send (report xdev told) 0 w3).1 }
unfolding rtc_periodic_task envelope_send report
task_tells devices gpio_get xdev send b w1 w2 w3 true shown told d r1 r2 r3 h = ground arith
task_tells devices gpio_get xdev send b w1 w2 w3 false shown told d r1 r2 r3 h = ground arith
