-- ===== src/Wpan/Tables/Lookup.antt =====
-- Which entries the searches of the tables find.
use pxbee_open_close.Prelude.{
  ℕ, true, false, some, List, [], ◌∷◌, ◌++◌, ◌==◌, ◌≡◌, ◌≢◌, ◌⊎◌, refl, sym, ◌∙◌, All, arith,
}
use pxbee_open_close.Prelude.Bits.{has}
use pxbee_open_close.Wpan.Tables.{
  Cluster, Endpoint, cluster_match, match_from, visits, visits_from, visits_behind, first, is_match,
  endpoint_match,
}

pub unmarked : (n : ℕ) → n ≢ 0xff → (n == 0xff) ≡ false
unmarked n h = ground arith

same_cluster : (c id : ℕ) → c ≢ id → (c == id) ≡ false
same_cluster c id h = ground arith

module _ {W : Type 0} where
  -- the endpoint is not the end of the table and not for this number and profile
  abbrev pub IsOther : ℕ → ℕ → Endpoint W → Type 0
  IsOther endpoint profile_id ep =
      (ep.endpoint ≢ 0xff)
      × ((ep.endpoint ≢ endpoint) ⊎ ((profile_id ≢ 0xffff) × (ep.profile_id ≢ profile_id)))

  -- the endpoint has the number, and the profile, or any profile will do
  abbrev pub IsFor : ℕ → ℕ → Endpoint W → Type 0
  IsFor endpoint profile_id ep =
      (ep.endpoint ≡ endpoint) × ((profile_id ≡ 0xffff) ⊎ (profile_id ≡ ep.profile_id))

  -- the cluster is not the end of the table and has another number
  abbrev pub IsElse : ℕ → Cluster W → Type 0
  IsElse cluster_id c = (c.cluster_id ≢ 0xffff) × (c.cluster_id ≢ cluster_id)

  is_match-other : (n p : ℕ) (ep : Endpoint W) → IsOther n p ep → is_match n p ep ≡ false
  is_match-other n p ep (_, apart) = ground arith

  is_match-for : (n p : ℕ) (ep : Endpoint W) → IsFor n p ep → is_match n p ep ≡ true
  is_match-for n p ep h = ground arith

  first-behind :
      (n p : ℕ) (before after : List (Endpoint W)) (ep : Endpoint W)
      → n ≢ 0xff
      → All (IsOther n p) before
      → IsFor n p ep
      → first (is_match n p) (visits_behind (before ++ (ep ∷ after))) ≡ some ep
  unfolding visits_behind first
  first-behind n p [] after ep real others here =
      rw (unmarked ep.endpoint (λ e. real (sym here.0 ∙ e))) (rw (is_match-for n p ep here) refl)
  first-behind n p (q ∷ before) after ep real (other, others) here =
      rw (unmarked q.endpoint other.0)
        (rw (is_match-other n p q other) (first-behind n p before after ep real others here))

  -- The endpoint is found that comes first.
  pub endpoint_match-at :
      (n p : ℕ) (before after : List (Endpoint W)) (ep : Endpoint W)
      → n ≢ 0xff
      → All (IsOther n p) before
      → IsFor n p ep
      → endpoint_match (some (before ++ (ep ∷ after))) n p ≡ some ep
  unfolding endpoint_match visits visits_from first
  endpoint_match-at n p [] after ep real others here = rw (is_match-for n p ep here) refl
  endpoint_match-at n p (q ∷ before) after ep real (other, others) here =
      rw (is_match-other n p q other) (first-behind n p before after ep real others here)

  match_from-at :
      (id mask : ℕ) (before after : List (Cluster W)) (c : Cluster W)
      → id ≢ 0xffff
      → All (IsElse id) before
      → c.cluster_id ≡ id
      → has mask c.flags ≡ true
      → match_from id mask (before ++ (c ∷ after)) ≡ some c
  unfolding match_from
  match_from-at id mask [] after c real others here has_flag = ground (arith, here, has_flag, real)
  match_from-at id mask (q ∷ before) after c real (other, others) here has_flag =
      rw (same_cluster q.cluster_id 0xffff other.0, same_cluster q.cluster_id id other.1)
        (match_from-at id mask before after c real others here has_flag)

  -- The cluster is found that comes first.
  pub cluster_match-at :
      (id mask : ℕ) (before after : List (Cluster W)) (c : Cluster W)
      → id ≢ 0xffff
      → All (IsElse id) before
      → c.cluster_id ≡ id
      → has mask c.flags ≡ true
      → cluster_match id mask (some (before ++ (c ∷ after))) ≡ some c
  unfolding cluster_match
  cluster_match-at id mask before after c real others here has_flag =
      match_from-at id mask before after c real others here has_flag
