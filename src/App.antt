-- ===== src/App.antt =====
-- The application: src/main.c and the callbacks of src/lib/. What printf, puts and hex_dump write
-- to the console has no influence on the rest and is left out.
pub mod Strings
pub mod Reply
pub mod RxCluster
pub mod DefaultCluster
pub mod Periodic
pub mod Console
use pxbee_open_close.Prelude.{Bool}

-- One call of gpio_get(SENSOR): the level of the pin at that moment, and the world after it. Two
-- calls may give two levels.
abbrev pub Sensor : Type 0 → Type 0
Sensor W = W → Bool × W
