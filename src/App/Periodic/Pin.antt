-- ===== src/App/Periodic/Pin.antt =====
-- What stands round the periodic task: the pin of the sensor, whose level may move between two
-- readings, and the coordinator, which keeps what it is told. No source file describes them.
use pxbee_open_close.Prelude.{
  sym, pos, Bool, some, List, [], ◌∷◌, ◌==◌, ◌≡◌, true, false, not, refl, ap, ◌∙◌, arith,
}
use pxbee_open_close.Wpan.{Devices, EndpointSend}
use pxbee_open_close.Zcl.Parse.{memory, byte}
use pxbee_open_close.App.{Sensor}
use pxbee_open_close.App.Periodic.{Board, report, rtc_periodic_task}
use pxbee_open_close.App.Periodic.Laws.{task_quiet, task_tells}

-- The readings to come, the level that stays after them, and the levels told, the newest first.
pub record Pin : Type 0 where
  pub readings : List Bool
  pub rest : Bool
  pub told : List Bool

take_reading : List Bool → Pin → Bool × Pin
take_reading [] p = (p.rest, p)
take_reading (r ∷ rs) p = (r, record p { readings = rs })

unfoldable pub gpio_get : Sensor Pin
unfolding take_reading
gpio_get p = take_reading p.readings p

-- the coordinator notes the last byte of a report
unfoldable pub tell : EndpointSend Pin
tell e flags p = (pos 0, record p { told = (byte (memory e.payload) 4 == 1) ∷ p.told })

abbrev pub devices : Devices Pin
devices d = some tell

-- one run of the task
abbrev pub run_task : Board Pin → Board Pin
run_task = rtc_periodic_task devices gpio_get 0

-- one report reaches the coordinator
pub tell-report : (v : Bool) (p : Pin) → (tell (report 0 v) 0 p).1 ≡ record p { told = v ∷ p.told }
unfolding tell report
tell-report true p = refl
tell-report false p = refl

-- with no reading left but the level that stays
pub run_steady :
    (b : Board Pin)
    → b.world.readings ≡ []
    → (b.led ≡ not b.world.rest → run_task b ≡ b)
      × (b.led ≡ b.world.rest
          → run_task b ≡ record {
            led = not b.world.rest;
            world = record b.world { told = b.world.rest ∷ b.world.told };
          })
run_steady b r =
    let w = b.world in
    let reads : gpio_get w ≡ (w.rest, w) = unfold gpio_get in ground arith in
    (
      λ h.
          task_quiet devices gpio_get 0 b (h ∙ ap not (sym (ap (λ r. r.0) reads)))
          ∙ ap (λ p. record { led = b.led; world = p }) (ap (λ r. r.1) reads),
      λ h.
          task_tells devices gpio_get 0 tell b w w w w.rest w.rest w.rest refl reads reads reads h
          ∙ ap (λ p. record { led = not w.rest; world = p }) (tell-report w.rest w),
    )
