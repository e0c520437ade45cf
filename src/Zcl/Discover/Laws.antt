-- ===== src/Zcl/Discover/Laws.antt =====
-- What a Discover Attributes request is answered with.
use pxbee_open_close.Prelude.{
  inl, inr, Bool-cases, false, ℕ, zero, suc, ◌/◌, ◌%◌, List, [], ◌∷◌, ◌≡◌, refl, ◌≤◌, arith, ltb,
  leb, some, if◌then◌else◌, get_or, length, take, min,
}
use pxbee_open_close.Prelude.Bits.{Bytes, le16}
use pxbee_open_close.Zcl.{Attribute}
use pxbee_open_close.Zcl.Attributes.{attribute_end_of_list, skip_below}
use pxbee_open_close.Zcl.Attributes.Sorted.{IsTable, ends, entry, listed}
use pxbee_open_close.Zcl.Discover.{discover_records, discover_body, discover_attrib_max}

-- the report records of attributes: id and type
unfoldable pub reports : List Attribute → Bytes
reports [] = []
reports (e ∷ es) = e.id % 256 ∷ e.id / 256 ∷ e.type ∷ reports es

-- the attributes whose id is at least `start`
unfoldable pub from_id : ℕ → List Attribute → List Attribute
from_id start [] = []
from_id start (e ∷ es) = let rest = from_id start es in if leb start e.id then e ∷ rest else rest

discover_records_lem :
    (low n : ℕ) (es : List Attribute)
    → IsTable low es
    → discover_records es n
      ≡ ((if leb (length (listed es)) n then 1 else 0), reports (take n (listed es)))
unfolding discover_records listed reports
discover_records_lem low zero [] table = elim table [ ]
discover_records_lem low (suc n) [] table = elim table [ ]
discover_records_lem low zero (e ∷ es) (ends at_end) = ground arith
discover_records_lem low (suc n) (e ∷ es) (ends at_end) = ground arith
discover_records_lem low zero (e ∷ es) (entry above below rest) = ground arith
discover_records_lem low (suc n) (e ∷ es) (entry above below rest) =
    ground (arith, discover_records_lem (suc e.id) n es rest)

not_ltb : (a b : ℕ) → b ≤ a → ltb a b ≡ false
not_ltb a b h = ground arith

skip_below-IsTable :
    (low start : ℕ) (es : List Attribute)
    → IsTable low es
    → start ≤ attribute_end_of_list
    → (low' : ℕ) × IsTable low' (skip_below start es)
unfolding skip_below
skip_below-IsTable low start [] table fits = elim table [ ]
skip_below-IsTable low start (e ∷ es) (ends at_end) fits =
    (low, rw (not_ltb e.id start (omega arith)) (ends at_end))
skip_below-IsTable low start (e ∷ es) (entry above inside rest) fits =
    elim (Bool-cases (ltb e.id start)) [
      | inl under ↦ rw under (skip_below-IsTable (suc e.id) start es rest fits)
      | inr over ↦ rw over (low, entry above inside rest)
    ]

from_id-above :
    (low start : ℕ) (es : List Attribute)
    → IsTable low es
    → start ≤ low
    → from_id start (listed es) ≡ listed es
unfolding from_id listed
from_id-above low start [] table below = elim table [ ]
from_id-above low start (e ∷ es) (ends at_end) below = ground arith
from_id-above low start (e ∷ es) (entry above inside rest) below =
    ground (arith, from_id-above (suc e.id) start es rest)

listed-skip_below :
    (low start : ℕ) (es : List Attribute)
    → IsTable low es
    → start ≤ attribute_end_of_list
    → listed (skip_below start es) ≡ from_id start (listed es)
unfolding skip_below from_id listed
listed-skip_below low start [] table fits = elim table [ ]
listed-skip_below low start (e ∷ es) (ends at_end) fits = ground arith
listed-skip_below low start (e ∷ es) (entry above inside rest) fits =
    ground (
      arith,
      listed-skip_below (suc e.id) start es rest fits,
      from_id-above (suc e.id) start es rest,
    )

limit_is_min :
    (wanted : ℕ)
    → (if ltb discover_attrib_max wanted then discover_attrib_max else wanted)
      ≡ min discover_attrib_max wanted
limit_is_min wanted = ground arith

-- the first id and the number of attributes that a request asks for
abbrev pub asked_start : Bytes → ℕ
asked_start payload = le16 (get_or payload 0 0) (get_or payload 1 0)

abbrev pub asked_limit : Bytes → ℕ
asked_limit payload = min discover_attrib_max (get_or payload 2 0)

-- A cluster with a table in the order of the ids answers a request for a first id below 2 ^ 16 with
-- the reports of its attributes from this id on, in order, up to the number asked for and 20 at
-- most. The first byte is 1 if these are all, and 0 if there are more.
pub discover_body_lem :
    (low : ℕ) (es : List Attribute) (payload : Bytes)
    → IsTable low es
    → asked_start payload ≤ attribute_end_of_list
    → discover_body (some es) payload
      ≡ (if leb (length (from_id (asked_start payload) (listed es))) (asked_limit payload)
          then 1
          else 0)
        ∷ reports (take (asked_limit payload) (from_id (asked_start payload) (listed es)))
unfolding discover_body
discover_body_lem low es payload table fits =
    let start = asked_start payload in
    let (low', rest) = skip_below-IsTable low start es table fits in
    rw
      (
        limit_is_min (get_or payload 2 0),
        discover_records_lem low' (asked_limit payload) (skip_below start es) rest,
        listed-skip_below low start es table fits,
      )
      refl
