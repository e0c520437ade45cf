-- ===== src/App/RxCluster.antt =====
-- rx_cluster_callback of src/lib/rx_cluster_callback.c, the handler of the on/off cluster: it tells
-- the state of the sensor to who reads attributes, and accepts every reporting configuration.
pub mod Laws
use pxbee_open_close.Prelude.{
  ℕ, ◌-◌, ℤ, pos, Result, ok, err, Bool, Option, some, List, ◌==◌, if◌then◌else◌, set, drop,
  bit_and,
}
use pxbee_open_close.Prelude.Bits.{Bytes}
use pxbee_open_close.Wpan.{Envelope, Devices}
use pxbee_open_close.Zcl.{AttributeTree, Command}
use pxbee_open_close.Zcl.Parse.{command_build}
use pxbee_open_close.Zcl.Response.{Cursor, put}
use pxbee_open_close.App.{Sensor}
use pxbee_open_close.App.Reply.{
  is_profile_request, cmd_read_attrib, cmd_read_attrib_resp, cmd_configure_report,
  cmd_configure_report_resp, type_logical_boolean, direction_send, level, open_response,
  close_response,
}
use pxbee_open_close.Zcl.{status_success}

-- what the two branches write into the buffer
abbrev pub read_response : Bool → Cursor → Cursor
read_response sensor c =
    put (put (put (put (put c 0x00) 0x00) status_success) type_logical_boolean) (level sensor)

abbrev pub configure_response : Cursor → Cursor
configure_response c = put (put (put (put c status_success) direction_send) 0x00) 0x00

module _ {W : Type 0} (devices : Devices W) (gpio_get : Sensor W) where
  answer_read : Command → W → W
  answer_read zcl w =
      let (start, c) = open_response cmd_read_attrib_resp zcl in
      let (sensor, w') = gpio_get w in close_response devices zcl start (read_response sensor c) w'

  answer_configure : Command → W → W
  answer_configure zcl w =
      let (start, c) = open_response cmd_configure_report_resp zcl in
      close_response devices zcl start (configure_response c) w

  handle : Command → W → W
  unfolding answer_read answer_configure
  handle zcl w =
      if is_profile_request zcl.frame_control
      then (if zcl.command == cmd_read_attrib
          then answer_read zcl w
          else if zcl.command == cmd_configure_report
          then answer_configure zcl w
          else w)
      else w

  -- It returns 0 whatever happens.
  unfoldable pub rx_cluster_callback : Option Envelope → Option (List AttributeTree) → W → ℤ × W
  unfolding handle
  rx_cluster_callback envelope context w = elim (command_build envelope context) [
    | ok zcl ↦ (pos 0, handle zcl w)
    | err _ ↦ (pos 0, w)
  ]
