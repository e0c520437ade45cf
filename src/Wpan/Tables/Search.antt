-- ===== src/Wpan/Tables/Search.antt =====
-- wpan_endpoint_match and wpan_endpoint_of_cluster find the first entry of the table that fits.
use pxbee_open_close.Prelude.{
  Option-cases, ℕ, Bool, true, false, Option, none, some, List, [], ◌∷◌, ◌++◌, ◌≡◌, arith, All, ap,
  Bool-cases, inl, inr,
}
use pxbee_open_close.Wpan.Tables.{Endpoint, first, visits, is_match, endpoint_match}

module _ {W : Type 0} where
  abbrev pub Fails : (Endpoint W → Bool) → Endpoint W → Type 0
  Fails test ep = test ep ≡ false

  -- `ep` is the first entry of `eps` that passes the test
  pub record IsFirst (test : Endpoint W → Bool) (eps : List (Endpoint W)) (ep : Endpoint W)
      : Type 0 where
    pub before : List (Endpoint W)
    pub behind : List (Endpoint W)
    pub splits : eps ≡ before ++ (ep ∷ behind)
    pub passed_over : All (Fails test) before
    pub passes : test ep ≡ true

  first-IsFirst :
      (test : Endpoint W → Bool) (eps : List (Endpoint W)) {ep : Endpoint W}
      → first test eps ≡ some ep
      → IsFirst test eps ep
  unfolding first
  first-IsFirst test [] h = absurd (cc)
  first-IsFirst test (x ∷ eps) {ep} h = elim (Bool-cases (test x)) [
    | inl e ↦
        let same : x ≡ ep = ground arith in
        record {
          before = [];
          behind = eps;
          splits = rw same;
          passed_over = tt;
          passes = rw same at e;
        }
    | inr e ↦
        let later = first-IsFirst test eps (rw e at h) in
        record {
          before = x ∷ later.before;
          behind = later.behind;
          splits = ap (◌∷◌ x) later.splits;
          passed_over = (e, later.passed_over);
          passes = later.passes;
        }
  ]

  first-none :
      (test : Endpoint W → Bool) (eps : List (Endpoint W))
      → first test eps ≡ none
      → All (Fails test) eps
  unfolding first
  first-none test [] h = tt
  first-none test (x ∷ eps) h = elim (Bool-cases (test x)) [
    | inl e ↦ absurd (ground arith)
    | inr e ↦ (e, first-none test eps (rw e at h))
  ]

  -- what a search may return: the first entry that passes, or NULL where none does
  abbrev pub IsFound : (Endpoint W → Bool) → List (Endpoint W) → Option (Endpoint W) → Type 0
  IsFound test eps none = All (Fails test) eps
  IsFound test eps (some ep) = IsFirst test eps ep

  first-IsFound :
      (test : Endpoint W → Bool) (eps : List (Endpoint W)) → IsFound test eps (first test eps)
  first-IsFound test eps = elim (Option-cases (first test eps)) [
    | inl e ↦ rw e (first-none test eps e)
    | inr (ep, e) ↦ rw e (first-IsFirst test eps e)
  ]

  -- Whatever wpan_endpoint_match returns is the first entry of the walk with the endpoint and, unless
  -- any profile is asked for, with the profile; where it returns NULL no entry has them.
  pub endpoint_match_lem :
      (table : Option (List (Endpoint W))) (endpoint profile_id : ℕ)
      → IsFound
          (is_match endpoint profile_id)
          (visits table)
          (endpoint_match table endpoint profile_id)
  unfolding endpoint_match
  endpoint_match_lem table endpoint profile_id =
      first-IsFound (is_match endpoint profile_id) (visits table)
