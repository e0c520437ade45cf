-- ===== src/Zcl/Read.antt =====
-- The handler of Read Attributes requests: _zcl_read_attributes of pxbee/pan/zigbee/zigbee_zcl.c.
-- A response is built as the list of the bytes up to `end_response`: what stands behind them in
-- the structure is not sent.
pub mod Laws
pub mod Frames
use pxbee_open_close.Prelude.{
  ℕ, zero, suc, ◌+◌, ◌-◌, ◌/◌, ◌%◌, ℤ, true, false, Option, none, some, List, [], ◌∷◌, ◌++◌, ◌==◌,
  ltb, if◌then◌else◌, get_or, set, drop, length,
}
use pxbee_open_close.Prelude.Bits.{Bytes, has, le16}
use pxbee_open_close.Wpan.{Devices}
use pxbee_open_close.Zcl.{Attribute, Command, Store, attrib_flag_writeonly}
use pxbee_open_close.Zcl.Response.{
  header_size, header_command, blank, build_header, send_response, default_response,
}
use pxbee_open_close.Zcl.Attributes.{find_attribute}
use pxbee_open_close.Zcl.Encode.{Encoded, written, failed, too_deep, encode_attribute_value}
use pxbee_open_close.Zcl.Decode.{status_malformed_command, status_unsupported_attribute}
use pxbee_open_close.Zcl.{status_success}

-- ZCL_STATUS_WRITE_ONLY
abbrev pub status_write_only : ℕ
status_write_only = 0x8f

-- the size of `response.buffer`
abbrev pub response_buffer : ℕ
response_buffer = 80

-- what the answer to one request adds to the response; `stops` ends the loop
pub data Step : Type 0 where
  adds : Bytes → Step
  stops : Bytes → Step
  deep : Step

encoded_step : ℕ → ℕ → ℕ → Encoded → Step
encoded_step lo hi type (written v) = adds (lo ∷ hi ∷ status_success ∷ type ∷ v)
encoded_step lo hi type (failed status) = stops (lo ∷ hi ∷ (status % 256) ∷ [])
encoded_step lo hi type too_deep = deep

-- one request; `bytesleft` is what is left behind the attribute id
unfoldable pub read_record : ℕ → Option Attribute → ℕ → ℕ → ℕ → Store → Step × Store
unfolding encoded_step
read_record depth none lo hi bytesleft s = (adds (lo ∷ hi ∷ status_unsupported_attribute ∷ []), s)
read_record depth (some entry) lo hi bytesleft s =
    if has entry.flags attrib_flag_writeonly
    then (adds (lo ∷ hi ∷ status_write_only ∷ []), s)
    else let (value, s') = encode_attribute_value depth (bytesleft - 2) entry s in
      (encoded_step lo hi entry.type value, s')

-- what follows a request: the rest of the loop, unless it ends
after_record :
    Bytes → (Bytes → Store → Option (Bytes × Store)) → Step × Store → Option (Bytes × Store)
after_record out continue (adds v, s) = continue (out ++ v) s
after_record out continue (stops v, s) = some (out ++ v, s)
after_record out continue (deep, s) = none

-- The loop over the requests; `out` is what stands in `response.buffer`. It ends with none if a
-- value is nested too deeply for the model.
unfoldable pub read_records :
    ℕ → Option (List Attribute) → ℕ → Bytes → Bytes → Store → Option (Bytes × Store)
unfolding after_record
read_records depth table zero ids out s = some (out, s)
read_records depth table (suc requests) ids out s = elim (ltb (response_buffer - length out) 3) [
  | true ↦ some (out, s)
  | false ↦
      let lo = get_or ids 0 0 in
      let hi = get_or ids 1 0 in
      let bytesleft = response_buffer - length out - 2 in
      after_record out (λ out' s'. read_records depth table requests (drop 2 ids) out' s')
        (read_record depth (find_attribute table (le16 lo hi)) lo hi bytesleft s)
]

module _ {W : Type 0} (devices : Devices W) where
  -- A response with a command and what stands behind the header.
  unfoldable pub respond : Command → ℕ → Bytes → W → ℤ × W
  respond cmd command body w =
      let (start, header) = build_header (set (blank header_size) header_command command) cmd in
      send_response devices (some cmd) (drop start header ++ body)
        (header_size - start + length body) w

  -- The command is not NULL. A result of none stands for values nested deeper than `depth`.
  unfoldable pub read_attributes : ℕ → Command → Store → W → Option (ℤ × Store × W)
  read_attributes depth cmd s w =
      if cmd.length % 2 == 1
      then (let (error, w') = default_response devices (some cmd) status_malformed_command w in
          some (error, s, w'))
      else elim (read_records depth cmd.attributes (cmd.length / 2) cmd.zcl_payload [] s) [
        | none ↦ none
        | some (out, s') ↦ let (error, w') = respond cmd 0x01 out w in some (error, s', w')
      ]
