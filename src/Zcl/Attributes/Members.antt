-- ===== src/Zcl/Attributes/Members.antt =====
-- What holds of every entry of a table holds of the one that is found.
use mathlib.Core.Path.{subst}
use mathlib.Core.Option.{some-injective}
use pxbee_open_close.Prelude.{
  ℕ, none, some, List, [], ◌∷◌, ◌==◌, ◌≡◌, ◌≢◌, ltb, Bool-cases, inl, inr, All,
}
use pxbee_open_close.Zcl.{Attribute}
use pxbee_open_close.Zcl.Attributes.{skip_below, with_id, find_attribute}

skip_below-All {κ} :
    (P : Attribute → Type κ) (id : ℕ) (es : List Attribute) → All P es → All P (skip_below id es)
unfolding skip_below
skip_below-All P id [] h = h
skip_below-All P id (e ∷ es) (p, h) = elim (Bool-cases (ltb e.id id)) [
  | inl less ↦ rw less (skip_below-All P id es h)
  | inr other ↦ rw other (p, h)
]

with_id-All {κ} :
    (P : Attribute → Type κ) (id : ℕ) (es : List Attribute) (e : Attribute)
    → All P es
    → with_id id es ≡ some e
    → P e
unfolding with_id
with_id-All P id [] e h found = absurd (cc)
with_id-All P id (x ∷ es) e (p, h) found = elim (Bool-cases (x.id == id)) [
  | inl same ↦ subst P (some-injective x e (rw (with_id, same) at found)) p
  | inr other ↦ absurd (cc (rw (with_id, other) at found))
]

pub find_attribute-All {κ} :
    (P : Attribute → Type κ) (id : ℕ) (es : List Attribute) (e : Attribute)
    → All P es
    → find_attribute (some es) id ≡ some e
    → P e
unfolding find_attribute
find_attribute-All P id es e h found =
    with_id-All P id (skip_below id es) e (skip_below-All P id es h) found

pub find_attribute-none : (id : ℕ) (e : Attribute) → find_attribute none id ≢ some e
unfolding find_attribute
find_attribute-none id e found = cc
