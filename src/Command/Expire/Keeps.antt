-- ===== src/Command/Expire/Keeps.antt =====
-- Creating a request leaves what does not depend on the table of requests as it is.
use pxbee_open_close.Prelude.{ℕ, ℤ, List, ◌≡◌, ◌∙◌, none, some, inl, inr, Option-cases, enospc}
use pxbee_open_close.Command.{Request, State}
use pxbee_open_close.Command.Respond.{find_request}
use pxbee_open_close.Command.Expire.{create, create_in_tick, take_free, initialized, is_free}

module _ {W A : Type 0} (observe : State W → A)
    (table_apart : (t : List Request) (s : State W) → observe (record s { table = t }) ≡ observe s)
    (init : ℕ → State W → State W) (run_tick : State W → ℕ × State W) (d : ℕ) (seen : A)
    (init_apart : (s : State W) → observe s ≡ seen → observe (initialized init d s) ≡ seen) where
  take_free-keeps :
      (full : State W → ℤ × State W) (now command : ℕ) (s : State W)
      → (find_request is_free 0 s.table ≡ none → observe (full s).1 ≡ seen)
      → observe s ≡ seen
      → observe (take_free full now d command s).1 ≡ seen
  unfolding take_free
  take_free-keeps full now command s fine h = elim (Option-cases (find_request is_free 0 s.table)) [
    | inl nothing ↦ rw (take_free, nothing) (fine nothing)
    | inr ((i, r), found) ↦ rw (take_free, found) (table_apart _ s ∙ h)
  ]

  create_in_tick-keeps :
      (now command : ℕ) (s : State W)
      → observe s ≡ seen
      → observe (create_in_tick init now (some d) (some command) s).1 ≡ seen
  unfolding create_in_tick
  create_in_tick-keeps now command s h =
      take_free-keeps (λ s1. (enospc, s1)) now command (initialized init d s)
        (λ nothing. init_apart s h) (init_apart s h)

  -- where the tick runs, in a full table, it leaves it too
  pub create-keeps :
      (now command : ℕ) (s : State W)
      → observe s ≡ seen
      → (find_request is_free 0 (initialized init d s).table ≡ none
          → observe (run_tick (initialized init d s)).1 ≡ seen)
      → observe (create init run_tick now (some d) (some command) s).1 ≡ seen
  unfolding create
  create-keeps now command s h ticks =
      take_free-keeps (λ s1. create_in_tick init now (some d) (some command) (run_tick s1).1) now
        command (initialized init d s)
        (λ nothing.
          create_in_tick-keeps now command (run_tick (initialized init d s)).1 (ticks nothing))
        (init_apart s h)
