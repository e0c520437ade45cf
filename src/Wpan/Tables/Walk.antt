-- ===== src/Wpan/Tables/Walk.antt =====
-- The walk by wpan_endpoint_get_next visits the entries of `visits`, in order, and then ends.
use pxbee_open_close.Prelude.{
  ℕ, zero, suc, Option, none, some, List, [], ◌∷◌, ◌≡◌, ◌==◌, refl, ap, get_elem?, Bool-cases, inl,
  inr,
}
use pxbee_open_close.Wpan.Tables.{
  Endpoint, endpoint_get_next, endpoint_end_of_list, visits, visits_from,
}

module _ {W : Type 0} where
  -- the entry that a pointer is at
  abbrev pub entry_at : Option (List (Endpoint W)) → Option (Endpoint W)
  entry_at none = none
  entry_at (some []) = none
  entry_at (some (ep ∷ eps)) = some ep

module _ {W : Type 0} (table : Option (List (Endpoint W))) where
  -- the pointer after `n` further rounds of the loop, which ends at NULL
  abbrev pub rounds : ℕ → Option (List (Endpoint W)) → Option (List (Endpoint W))
  rounds zero p = p
  rounds (suc n) none = none
  rounds (suc n) (some p) = rounds n (endpoint_get_next table (some p))

  rounds-none : (n : ℕ) → rounds n none ≡ none
  rounds-none zero = refl
  rounds-none (suc n) = refl

  rounds_behind :
      (n : ℕ) (ep : Endpoint W) (eps : List (Endpoint W))
      → entry_at (rounds n (some (ep ∷ eps))) ≡ get_elem? (visits_from (ep ∷ eps)) n
  unfolding endpoint_get_next visits
  rounds_behind zero ep eps = refl
  rounds_behind (suc n) ep [] = ap entry_at (rounds-none n)
  rounds_behind (suc n) ep (x ∷ eps) = elim (Bool-cases (x.endpoint == endpoint_end_of_list)) [
    | inl e ↦ rw e (ap entry_at (rounds-none n))
    | inr e ↦ rw e (rounds_behind n x eps)
  ]

-- Round `n` of a loop over the table is at the `n`-th entry of `visits`, and behind the last one
-- it is at no entry.
pub walk_visits :
    {W : Type 0} (table : Option (List (Endpoint W))) (n : ℕ)
    → entry_at (rounds table n (endpoint_get_next table none)) ≡ get_elem? (visits table) n
unfolding endpoint_get_next visits
walk_visits none n = ap entry_at (rounds-none none n)
walk_visits (some []) zero = refl
walk_visits (some []) (suc n) = ap entry_at (rounds-none (some []) n)
walk_visits (some (ep ∷ eps)) n = rounds_behind (some (ep ∷ eps)) n ep eps
