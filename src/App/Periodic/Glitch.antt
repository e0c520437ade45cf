-- ===== src/App/Periodic/Glitch.antt =====
-- The level that is shown and the level that is told come from two readings of the pin.
use pxbee_open_close.Prelude.{ℕ, zero, suc, Bool, not, List, [], ◌∷◌, ◌≡◌, refl, ap, ◌∙◌}
use pxbee_open_close.App.Periodic.{Board}
use pxbee_open_close.App.Periodic.Laws.{task_tells}
use pxbee_open_close.App.Periodic.Pin.{
  Pin, gpio_get, tell, devices, run_task, run_steady, tell-report,
}

-- `n` further runs of the task
abbrev pub run_tasks : ℕ → Board Pin → Board Pin
run_tasks zero b = b
run_tasks (suc n) b = run_tasks n (run_task b)

quiet_tasks :
    (n : ℕ) (b : Board Pin) → b.world.readings ≡ [] → b.led ≡ not b.world.rest → run_tasks n b ≡ b
quiet_tasks zero b r h = refl
quiet_tasks (suc n) b r h = ap (run_tasks n) ((run_steady b r).0 h) ∙ quiet_tasks n b r h

-- the pin of a run that starts with the LED at `led`: it has the level `led` at the first reading,
-- `shown` at the second, the opposite at the third, and stays at `shown`
abbrev pub glitched : Bool → Bool → List Bool → Board Pin
glitched led shown told = record {
  led = led;
  world = record { readings = led ∷ shown ∷ not shown ∷ []; rest = shown; told = told };
}

-- what the first run leaves
abbrev pub misled : Bool → List Bool → Board Pin
misled shown told = record {
  led = not shown;
  world = record { readings = []; rest = shown; told = not shown ∷ told };
}

glitch_once :
    (led shown : Bool) (told : List Bool) → run_task (glitched led shown told) ≡ misled shown told
unfolding gpio_get
glitch_once led shown told =
    task_tells devices gpio_get 0 tell (glitched led shown told) _ _ _ led shown (not shown) refl
      refl refl refl refl
    ∙ ap (λ p. record { led = not shown; world = p }) (tell-report (not shown) _)

-- Where a change of the sensor is noticed, but the third reading of that run differs from the
-- second one and the pin then stays at the level of the second one, the coordinator has been told
-- the opposite of that level, and is told nothing more, however often the task runs again.
pub glitch_stays :
    (n : ℕ) (led shown : Bool) (told : List Bool)
    → run_tasks n (run_task (glitched led shown told)) ≡ misled shown told
glitch_stays n led shown told =
    ap (run_tasks n) (glitch_once led shown told) ∙ quiet_tasks n (misled shown told) refl refl
