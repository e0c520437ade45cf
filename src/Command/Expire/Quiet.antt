-- ===== src/Command/Expire/Quiet.antt =====
-- A tick at a time at which no request is due.
use mathlib.Core.Path.{subst}
use mathlib.Core.Option.{some-injective}
use pxbee_open_close.Prelude.{
  ◌%◌, ℕ, zero, suc, ◌≡◌, refl, false, none, some, List, [], ◌∷◌, ◌==◌, All, get_elem?, Bool-cases,
  Option-cases, inl, inr, if_ind,
}
use pxbee_open_close.Command.{request_tablesize, Request, State, Callbacks}
use pxbee_open_close.Command.Respond.{find_request}
use pxbee_open_close.Command.Expire.{is_free, expire_request, tick_walk, cmd_tick}
use pxbee_open_close.Command.Expire.Create.{IsUsed}
use pxbee_open_close.Command.Expire.Tick.{is_over, has_expired_lem}

-- no request of the table is due
abbrev pub IsQuiet : ℕ → List Request → Type 0
IsQuiet now = All (λ r. is_over now r ≡ false)

All-get :
    (P : Request → Type 0) (table : List Request) (i : ℕ) (r : Request)
    → All P table
    → get_elem? table i ≡ some r
    → P r
All-get P [] i r all found = absurd (cc)
All-get P (x ∷ table) zero r (here, all) found = subst P (some-injective _ _ found) here
All-get P (x ∷ table) (suc i) r (here, all) found = All-get P table i r all found

pub none-IsUsed :
    (k : ℕ) (table : List Request) → find_request is_free k table ≡ none → All IsUsed table
unfolding find_request
none-IsUsed k [] h = tt
none-IsUsed k (r ∷ table) h = elim (Bool-cases (is_free r)) [
  | inl free ↦ absurd (cc (rw (find_request, free) at h))
  | inr used ↦ (used, none-IsUsed (suc k) table (rw (find_request, used) at h))
]

module _ {W : Type 0} (callbacks : Callbacks W) (refresh : ℕ → State W → State W) where
  expire_request-quiet :
      (now i : ℕ) (r : Request) (s : State W)
      → is_over now r ≡ false
      → expire_request callbacks refresh now i r s ≡ (0, s)
  unfolding expire_request
  expire_request-quiet now i r s not_due = rw (has_expired_lem now r.timeout, not_due) refl

  tick_walk-quiet :
      (now n i : ℕ) (s : State W)
      → IsQuiet now s.table
      → tick_walk callbacks refresh now n i s ≡ (0, s)
  unfolding tick_walk
  tick_walk-quiet now zero i s quiet = refl
  tick_walk-quiet now (suc n) i s quiet = elim (Option-cases (get_elem? s.table i)) [
    | inl missing ↦ rw (tick_walk, missing) refl
    | inr (r, there) ↦
        rw (tick_walk, there)
          (rw
            (expire_request-quiet now i r s
              (All-get (λ r. is_over now r ≡ false) s.table i r quiet there))
            (rw (tick_walk-quiet now n (suc i) s quiet) refl))
  ]

  -- Nothing happens but that the second is noted.
  pub cmd_tick-quiet :
      (now : ℕ) (s : State W)
      → IsQuiet now s.table
      → (cmd_tick callbacks refresh now s).1.devices ≡ s.devices
  unfolding cmd_tick
  cmd_tick-quiet now s quiet =
      if_ind (λ (x : ℕ × State W). x.1.devices ≡ s.devices) (s.last_time == now % 256) refl
        (rw (tick_walk-quiet now request_tablesize 0 (record s { last_time = now % 256 }) quiet)
          refl)
