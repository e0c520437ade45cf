-- ===== src/App/Periodic.antt =====
-- rtc_periodic_task of src/main.c, which the clock interrupt runs every 125 ms, and the start of
-- main: the LED shows the inverse of the sensor, and a change is told to the coordinator.
pub mod Laws
pub mod Pin
pub mod Glitch
pub mod Follow
use pxbee_open_close.Prelude.{ℕ, ℤ, Bool, true, false, not, Option, some, [], ◌∷◌, if◌then◌else◌}
use pxbee_open_close.Prelude.Bits.{Bytes}
use pxbee_open_close.Wpan.{Envelope, Devices}
use pxbee_open_close.Wpan.Addressing.{envelope_create, envelope_send}
use pxbee_open_close.App.{Sensor}
use pxbee_open_close.App.Reply.{level, type_logical_boolean}
use pxbee_open_close.Zcl.{status_success}

-- the level that is put out on the LED pin, which gpio_get(LED) reads back, and all else
pub record Board (W : Type 0) : Type 0 where
  pub led : Bool
  pub world : W

-- `gpio_get(LED) == gpio_get(SENSOR)`
abbrev pub same : Bool → Bool → Bool
same true b = b
same false b = not b

-- WPAN_IEEE_ADDR_COORDINATOR, WPAN_NET_ADDR_UNDEFINED, CUSTOM_ENDPOINT, CUSTOM_EP_PROFILE and
-- CUSTOM_SENSOR_CLUSTER
abbrev pub ieee_addr_coordinator : ℕ
ieee_addr_coordinator = 0

abbrev pub net_addr_undefined : ℕ
net_addr_undefined = 0xfffe

abbrev pub custom_endpoint : ℕ
custom_endpoint = 0xea

abbrev pub custom_ep_profile : ℕ
custom_ep_profile = 0x0104

abbrev pub custom_sensor_cluster : ℕ
custom_sensor_cluster = 0x0006

-- `tx_buffer`
abbrev pub tx_buffer : Bool → Bytes
tx_buffer sensor = 0x00 ∷ 0x00 ∷ status_success ∷ type_logical_boolean ∷ level sensor ∷ []

-- the envelope as it is sent; `xdev` is the device `&xdev.wpan_dev`
unfoldable pub report : ℕ → Bool → Envelope
unfolding envelope_create
report xdev sensor = record (envelope_create (some xdev) ieee_addr_coordinator net_addr_undefined) {
  payload = some (tx_buffer sensor);
  options = 0x00;
  dest_endpoint = 0x01;
  source_endpoint = custom_endpoint;
  profile_id = custom_ep_profile;
  cluster_id = custom_sensor_cluster;
  length = 5;
}

module _ {W : Type 0} (devices : Devices W) (gpio_get : Sensor W) (xdev : ℕ) where
  -- The body of the `if`: the sensor is read once for the LED and once more for the report.
  tell_change : W → Board W
  unfolding report
  tell_change w =
      let (shown, w1) = gpio_get w in
      let (told, w2) = gpio_get w1 in
      record { led = not shown; world = (envelope_send devices (some (report xdev told)) w2).1 }

  unfoldable pub rtc_periodic_task : Board W → Board W
  unfolding tell_change
  rtc_periodic_task b =
      let (sensor, w) = gpio_get b.world in
      if same b.led sensor then tell_change w else record b { world = w }

-- `gpio_set(LED, !gpio_get(SENSOR))` in main, before its loop
unfoldable pub start : {W : Type 0} → Sensor W → W → Board W
start gpio_get w = let (sensor, w1) = gpio_get w in record { led = not sensor; world = w1 }
