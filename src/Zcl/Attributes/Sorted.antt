-- ===== src/Zcl/Attributes/Sorted.antt =====
-- Attribute tables in the order of their ids, and searchinging them.
use pxbee_open_close.Prelude.{
  ℕ, suc, Option, none, some, List, [], ◌∷◌, ◌==◌, ◌≡◌, ◌≤◌, ◌<◌, arith, if◌then◌else◌,
}
use pxbee_open_close.Zcl.{Attribute}
use pxbee_open_close.Zcl.Attributes.{attribute_end_of_list, skip_below, find_attribute, with_id}

-- The ids ascend from `low` on, up to an entry with the end-of-list id.
pub data IsTable : ℕ → List Attribute → Type 0 where
  ends :
      {low : ℕ} {e : Attribute} {es : List Attribute}
      → e.id ≡ attribute_end_of_list
      → IsTable low (e ∷ es)
  entry :
      {low : ℕ} {e : Attribute} {es : List Attribute}
      → low ≤ e.id
      → e.id < attribute_end_of_list
      → IsTable (suc e.id) es
      → IsTable low (e ∷ es)

-- the attributes in front of the end of the list
unfoldable pub listed : List Attribute → List Attribute
listed [] = []
listed (e ∷ es) = let rest = listed es in if e.id == attribute_end_of_list then [] else e ∷ rest

-- the first attribute of a list with an id, wherever it stands
unfoldable pub first_with : ℕ → List Attribute → Option Attribute
first_with wanted [] = none
first_with wanted (e ∷ es) =
    let rest = first_with wanted es in if e.id == wanted then some e else rest

first_with-above :
    (low wanted : ℕ) (es : List Attribute)
    → IsTable low es
    → wanted < low
    → first_with wanted (listed es) ≡ none
unfolding first_with listed
first_with-above low wanted [] table below = elim table [ ]
first_with-above low wanted (e ∷ es) (ends at_end) below = ground arith
first_with-above low wanted (e ∷ es) (entry above inside rest) below =
    ground (arith, first_with-above (suc e.id) wanted es rest)

-- In a table in the order of the ids, the search for any id but that of the end of the list finds
-- what a search of the whole list finds: the attribute with this id, or none if there is none.
pub find_attribute_lem :
    (low wanted : ℕ) (es : List Attribute)
    → IsTable low es
    → wanted < attribute_end_of_list
    → find_attribute (some es) wanted ≡ first_with wanted (listed es)
unfolding find_attribute skip_below with_id first_with listed
find_attribute_lem low wanted [] table inside = elim table [ ]
find_attribute_lem low wanted (e ∷ es) (ends at_end) inside = ground arith
find_attribute_lem low wanted (e ∷ es) (entry above below rest) inside = ground (
  arith,
  find_attribute_lem (suc e.id) wanted es rest inside,
  first_with-above (suc e.id) wanted es rest,
)

-- The wanted for the id of the end of the list finds the entry that ends the list.
pub find_attribute-end :
    (low : ℕ) (es : List Attribute)
    → IsTable low es
    → (e : Attribute) × (find_attribute (some es) attribute_end_of_list ≡ some e)
      × (e.id ≡ attribute_end_of_list)
unfolding find_attribute skip_below with_id
find_attribute-end low [] table = elim table [ ]
find_attribute-end low (e ∷ es) (ends at_end) = (e, ground arith, at_end)
find_attribute-end low (e ∷ es) (entry above below rest) =
    let (found, is_found, at_end) = find_attribute-end (suc e.id) es rest in
    (found, ground (arith), at_end)
