-- ===== src/Zcl/Invalid.antt =====
-- Refusing a message: zcl_invalid_cluster and zcl_invalid_command of
-- pxbee/pan/zigbee/zigbee_zcl.c.
use pxbee_open_close.Prelude.{ℕ, ◌-◌, ℤ, ok, err, Option, none, some, ◌==◌, if◌then◌else◌, bit_and}
use pxbee_open_close.Prelude.Bits.{has}
use pxbee_open_close.Wpan.{Envelope, Devices}
use pxbee_open_close.Zcl.{Command, frame_type_mask, frame_mfg_specific}
use pxbee_open_close.Zcl.Parse.{command_build}
use pxbee_open_close.Zcl.Response.{default_response}

-- ZCL_STATUS_FAILURE
abbrev pub status_failure : ℕ
status_failure = 0x01

-- ZCL_STATUS_UNSUP_MANUF_GENERAL_COMMAND or ZCL_STATUS_UNSUP_GENERAL_COMMAND; those for the
-- command of a cluster are one less
abbrev pub unsupported_status : Command → ℕ
unsupported_status zcl =
    let status : ℕ = if has zcl.frame_control frame_mfg_specific then 0x84 else 0x82 in
    if bit_and zcl.frame_control frame_type_mask == 0x01 then status - 1 else status

module _ {W : Type 0} (devices : Devices W) where
  unfoldable pub invalid_cluster : Option Envelope → W → ℤ × W
  invalid_cluster envelope w = elim (command_build envelope none) [
    | ok zcl ↦ default_response devices (some zcl) status_failure w
    | err error ↦ (error, w)
  ]

  unfoldable pub invalid_command : Option Envelope → W → ℤ × W
  invalid_command envelope w = elim (command_build envelope none) [
    | ok zcl ↦ default_response devices (some zcl) (unsupported_status zcl) w
    | err error ↦ (error, w)
  ]
