-- ===== src/Zcl/Attributes.antt =====
-- Attribute tables: zcl_attribute_get_next and zcl_find_attribute of
-- pxbee/pan/zigbee/zigbee_zcl.c. A table is its entries with the end-of-list entry.
pub mod Sorted
pub mod Members
use pxbee_open_close.Prelude.{ℕ, Option, none, some, List, [], ◌∷◌, ◌==◌, ltb, if◌then◌else◌}
use pxbee_open_close.Zcl.{Attribute}

-- ZCL_ATTRIBUTE_END_OF_LIST
abbrev pub attribute_end_of_list : ℕ
attribute_end_of_list = 0xffff

-- The step over a base or a full entry is one step on the list. [] is the memory behind the table.
unfoldable pub attribute_get_next : Option (List Attribute) → Option (List Attribute)
attribute_get_next none = none
attribute_get_next (some []) = some []
attribute_get_next (some (e ∷ es)) =
    if e.id == attribute_end_of_list then some (e ∷ es) else some es

-- The loops that step while `id` is less than the one searched, which is a uint16_t. They do not
-- step at the end of the list, whose id no uint16_t exceeds, so the step is the plain one.
unfoldable pub skip_below : ℕ → List Attribute → List Attribute
skip_below search [] = []
skip_below search (e ∷ es) =
    let rest = skip_below search es in if ltb e.id search then rest else e ∷ es

with_id : ℕ → List Attribute → Option Attribute
with_id search [] = none
with_id search (e ∷ es) = if e.id == search then some e else none

unfoldable pub find_attribute : Option (List Attribute) → ℕ → Option Attribute
unfolding skip_below with_id
find_attribute none search = none
find_attribute (some entries) search = with_id search (skip_below search entries)
