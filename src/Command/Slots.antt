-- ===== src/Command/Slots.antt =====
-- Entries of the table of requests, where the table is split around one of them.
use pxbee_open_close.Prelude.{
  ℕ, zero, suc, ◌+◌, ◌*◌, ◌/◌, ◌%◌, ◌<◌, ◌≡◌, ◌≢◌, refl, ap, ◌∙◌, true, false, Bool, none, some,
  List, [], ◌∷◌, ◌++◌, length, get_elem?, All, arith,
}
use pxbee_open_close.Command.{Request, modify, entry_of}
use pxbee_open_close.Command.Respond.{find_request}

module _ {ℓ} {A : Type ℓ} where
  pub modify-split :
      (before rest : List A) (x : A) (f : A → A)
      → modify (length before) f (before ++ (x ∷ rest)) ≡ before ++ (f x ∷ rest)
  unfolding modify
  modify-split [] rest x f = refl
  modify-split (y ∷ before) rest x f = ap (◌∷◌ y) (modify-split before rest x f)

  pub get_elem?-split :
      (before rest : List A) (x : A) → get_elem? (before ++ (x ∷ rest)) (length before) ≡ some x
  get_elem?-split [] rest x = refl
  get_elem?-split (y ∷ before) rest x = get_elem?-split before rest x

  pub get_elem?-modify_self :
      (xs : List A) (i : ℕ) (f : A → A) (x : A)
      → get_elem? xs i ≡ some x
      → get_elem? (modify i f xs) i ≡ some (f x)
  unfolding modify
  get_elem?-modify_self [] i f x there = absurd (ground arith)
  get_elem?-modify_self (y ∷ xs) zero f x there = cc
  get_elem?-modify_self (y ∷ xs) (suc i) f x there = get_elem?-modify_self xs i f x there

  pub get_elem?-modify_ne :
      (xs : List A) (i j : ℕ) (f : A → A) → i ≢ j → get_elem? (modify i f xs) j ≡ get_elem? xs j
  unfolding modify
  get_elem?-modify_ne [] i j f other = refl
  get_elem?-modify_ne (y ∷ xs) zero zero f other = absurd (other refl)
  get_elem?-modify_ne (y ∷ xs) zero (suc j) f other = refl
  get_elem?-modify_ne (y ∷ xs) (suc i) zero f other = refl
  get_elem?-modify_ne (y ∷ xs) (suc i) (suc j) f other =
      get_elem?-modify_ne xs i j f λ e. other (ap suc e)

  pub modify-modify :
      (xs : List A) (i : ℕ) (f g : A → A) → modify i g (modify i f xs) ≡ modify i (λ x. g (f x)) xs
  unfolding modify
  modify-modify [] i f g = refl
  modify-modify (y ∷ xs) zero f g = refl
  modify-modify (y ∷ xs) (suc i) f g = ap (◌∷◌ y) (modify-modify xs i f g)

-- The search finds the request behind others that do not match.
pub find_request-split :
    (test : Request → Bool) (k : ℕ) (before rest : List Request) (r : Request)
    → All (λ q. test q ≡ false) before
    → test r ≡ true
    → find_request test k (before ++ (r ∷ rest)) ≡ some (k + length before, r)
unfolding find_request
find_request-split test k [] rest r others there = rw there (ap (λ n. some (n, r)) (omega arith))
find_request-split test k (q ∷ before) rest r (other, others) there = rw other (
    find_request-split test (suc k) before rest r others there
    ∙ ap (λ n. some (n, r)) (omega arith))

-- A handle is good if the request at its place has its sequence.
pub entry_of-good :
    (handle : ℕ) (table : List Request) (r : Request)
    → get_elem? table (handle / 256) ≡ some r
    → r.sequence ≡ handle % 256
    → entry_of handle table ≡ some (handle / 256)
unfolding entry_of
entry_of-good handle table r there same = rw (entry_of, there) (ground arith)

pub entry_of-stale :
    (handle : ℕ) (table : List Request) (r : Request)
    → get_elem? table (handle / 256) ≡ some r
    → r.sequence ≢ handle % 256
    → entry_of handle table ≡ none
unfolding entry_of
entry_of-stale handle table r there other = rw (entry_of, there) (ground arith)

-- A handle made of the place and the sequence of a request names it.
pub entry_of-split :
    (before rest : List Request) (r : Request)
    → r.sequence < 256
    → entry_of (length before * 256 + r.sequence) (before ++ (r ∷ rest)) ≡ some (length before)
entry_of-split before rest r small =
    let handle = length before * 256 + r.sequence in
    let place : handle / 256 ≡ length before = omega arith in
    entry_of-good handle (before ++ (r ∷ rest)) r
      (ap (get_elem? (before ++ (r ∷ rest))) place ∙ get_elem?-split before rest r) (omega arith)
    ∙ ap some place
