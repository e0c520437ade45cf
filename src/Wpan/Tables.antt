-- ===== src/Wpan/Tables.antt =====
-- The tables of endpoints and clusters: pxbee/headers/wpan/aps.h, and the functions of
-- pxbee/pan/wpan/wpan_aps.c that search them. No device of the program has a function of its own
-- for walking its table (`endpoint_get_next` of `wpan_dev_t`), so the model has none.
pub mod Walk
pub mod Search
pub mod Lookup
use pxbee_open_close.Prelude.{
  ℕ, ℤ, Bool, false, true, Option, none, some, List, [], ◌∷◌, ◌==◌, ◌&&◌, ◌||◌, if◌then◌else◌,
  bit_and,
}
use pxbee_open_close.Prelude.Bits.{has}
use pxbee_open_close.Wpan.{Envelope}

-- a handler with the context that the table gives it
abbrev pub Handler : Type 0 → Type 0
Handler W = Envelope → W → ℤ × W

-- `wpan_cluster_table_entry_t`
pub record Cluster (W : Type 0) : Type 0 where
  pub cluster_id : ℕ
  pub handler : Option (Handler W)
  pub flags : ℕ

-- `wpan_endpoint_table_entry_t`; the state of an endpoint is the number that names it
pub record Endpoint (W : Type 0) : Type 0 where
  pub endpoint : ℕ
  pub profile_id : ℕ
  pub handler : Option (Handler W)
  pub ep_state : Option ℕ
  pub device_id : ℕ
  pub device_version : ℕ
  pub cluster_table : Option (List (Cluster W))

-- WPAN_CLUSTER_END_OF_LIST, WPAN_ENDPOINT_END_OF_LIST and WPAN_APS_PROFILE_ANY
abbrev pub cluster_end_of_list : ℕ
cluster_end_of_list = 0xffff

abbrev pub endpoint_end_of_list : ℕ
endpoint_end_of_list = 0xff

abbrev pub aps_profile_any : ℕ
aps_profile_any = 0xffff

module _ {W : Type 0} where
  -- A table ends at its marker; the end of the list is one more end.
  match_from : ℕ → ℕ → List (Cluster W) → Option (Cluster W)
  match_from match mask [] = none
  match_from match mask (c ∷ cs) =
      let rest = match_from match mask cs in
      if c.cluster_id == cluster_end_of_list
      then none
      else if (c.cluster_id == match) && has mask c.flags
      then some c
      else rest

  unfoldable pub cluster_match : ℕ → ℕ → Option (List (Cluster W)) → Option (Cluster W)
  unfolding match_from
  cluster_match match mask none = none
  cluster_match match mask (some table) = match_from match mask table

  -- A pointer into the table is the list of entries from there on, `none` for NULL.
  advance : List (Endpoint W) → Option (List (Endpoint W))
  advance [] = none
  advance (ep ∷ eps) = if ep.endpoint == endpoint_end_of_list then none else some (ep ∷ eps)

  -- The first argument is `dev->endpoint_table`. The first entry is not compared with the marker.
  unfoldable pub endpoint_get_next :
      Option (List (Endpoint W)) → Option (List (Endpoint W)) → Option (List (Endpoint W))
  unfolding advance
  endpoint_get_next table none = table
  endpoint_get_next table (some []) = none
  endpoint_get_next table (some (ep ∷ eps)) = advance eps

  -- The loop `while ((ep = wpan_endpoint_get_next(dev, ep)) != NULL)`: the entries that it visits,
  -- from the one that a pointer is at, and from the first one.
  visits_behind : List (Endpoint W) → List (Endpoint W)
  visits_behind [] = []
  visits_behind (ep ∷ eps) =
      let rest = visits_behind eps in if ep.endpoint == endpoint_end_of_list then [] else ep ∷ rest

  visits_from : List (Endpoint W) → List (Endpoint W)
  visits_from [] = []
  visits_from (ep ∷ eps) = ep ∷ visits_behind eps

  unfoldable pub visits : Option (List (Endpoint W)) → List (Endpoint W)
  unfolding visits_behind visits_from
  visits none = []
  visits (some table) = visits_from table

  abbrev pub is_match : ℕ → ℕ → Endpoint W → Bool
  is_match endpoint profile_id ep =
      (endpoint == ep.endpoint)
      && ((profile_id == aps_profile_any) || (profile_id == ep.profile_id))

  abbrev pub has_cluster : ℕ → ℕ → ℕ → Endpoint W → Bool
  has_cluster profile_id cluster_id mask ep =
      ((profile_id == aps_profile_any) || (profile_id == ep.profile_id))
      && elim (cluster_match cluster_id mask ep.cluster_table) [ none ↦ false | some _ ↦ true ]

  -- the body of the loops: return the first entry that passes the test
  unfoldable pub first : (Endpoint W → Bool) → List (Endpoint W) → Option (Endpoint W)
  first test [] = none
  first test (ep ∷ eps) = let rest = first test eps in if test ep then some ep else rest

  unfoldable pub endpoint_match : Option (List (Endpoint W)) → ℕ → ℕ → Option (Endpoint W)
  endpoint_match table endpoint profile_id = first (is_match endpoint profile_id) (visits table)

  unfoldable pub endpoint_of_cluster : Option (List (Endpoint W)) → ℕ → ℕ → ℕ → Option (Endpoint W)
  endpoint_of_cluster table profile_id cluster_id mask =
      first (has_cluster profile_id cluster_id mask) (visits table)
