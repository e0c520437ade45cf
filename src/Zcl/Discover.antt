-- ===== src/Zcl/Discover.antt =====
-- The handler of Discover Attributes requests: _zcl_discover_attributes of
-- pxbee/pan/zigbee/zigbee_zcl.c.
pub mod Laws
use pxbee_open_close.Prelude.{
  ℕ, zero, suc, ◌/◌, ◌%◌, ℤ, Option, none, some, List, [], ◌∷◌, ◌==◌, ltb, if◌then◌else◌, get_or,
}
use pxbee_open_close.Prelude.Bits.{Bytes, le16}
use pxbee_open_close.Wpan.{Devices}
use pxbee_open_close.Zcl.{Attribute, Command}
use pxbee_open_close.Zcl.Attributes.{attribute_end_of_list, skip_below}
use pxbee_open_close.Zcl.Read.{respond}

-- ZCL_DISCOVER_ATTRIB_MAX
abbrev pub discover_attrib_max : ℕ
discover_attrib_max = 20

-- The loop that writes the records, with `remaining`: the `complete` field and the records.
unfoldable pub discover_records : List Attribute → ℕ → ℕ × Bytes
discover_records [] remaining = (1, [])
discover_records (e ∷ es) zero = if e.id == attribute_end_of_list then (1, []) else (0, [])
discover_records (e ∷ es) (suc remaining) =
    let (complete, rest) = discover_records es remaining in
    if e.id == attribute_end_of_list
    then (1, [])
    else (complete, e.id % 256 ∷ e.id / 256 ∷ e.type ∷ rest)

-- what stands behind the header
unfoldable pub discover_body : Option (List Attribute) → Bytes → Bytes
discover_body none payload = 1 ∷ []
discover_body (some entries) payload =
    let start = le16 (get_or payload 0 0) (get_or payload 1 0) in
    let wanted = get_or payload 2 0 in
    let limit = if ltb discover_attrib_max wanted then discover_attrib_max else wanted in
    let (complete, records) = discover_records (skip_below start entries) limit in
    complete ∷ records

module _ {W : Type 0} (devices : Devices W) where
  -- The command is not NULL. The code writes the command of the response behind the call of
  -- zcl_build_header, which does not touch it.
  unfoldable pub discover_attributes : Command → W → ℤ × W
  discover_attributes cmd w =
      respond devices cmd 0x0d (discover_body cmd.attributes cmd.zcl_payload) w
