-- ===== src/Command/Handles.antt =====
-- Handles: what a released handle names, and what a new one names.
use mathlib.Core.Path.{subst}
use pxbee_open_close.Prelude.Bits.{has}
use pxbee_open_close.Command.Build.Filling.{
  HasSequence, modify-HasSequence, Filling, fill_in, fill_in-HasSequence,
}
use pxbee_open_close.Command.Respond.{find_request}
use pxbee_open_close.Command.Expire.{
  is_free, dev_flag_cmd_init, create, create_in_tick, take_free, new_request,
}
use pxbee_open_close.Command.Expire.Create.{set_up-done, found_free}
use pxbee_open_close.Prelude.{
  ℤ, true, refl, ◌≢◌, inl, inr, Option-cases, Bool-cases, ◌==◌, ==_iff, if◌then◌else◌, ℕ, suc, ◌+◌,
  ◌/◌, ◌%◌, ◌<◌, ◌≤◌, ◌≡◌, ap, sym, ◌∙◌, pos, none, some, List, get_elem?, arith, leb,
}
use pxbee_open_close.Command.{
  Request, State, released, entry_of, handle_to_address, release_request,
}
use pxbee_open_close.Command.Slots.{
  get_elem?-modify_self, get_elem?-modify_ne, entry_of-good, entry_of-stale,
}

-- What it means that a handle names an entry.
entry_of-named :
    (handle i : ℕ) (table : List Request)
    → entry_of handle table ≡ some i
    → (r : Request) × (get_elem? table i ≡ some r)
      × (r.sequence ≡ handle % 256)
      × (i ≡ handle / 256)
unfolding entry_of
entry_of-named handle i table named = elim (Option-cases (get_elem? table (handle / 256))) [
  | inl missing ↦ absurd (ground arith)
  | inr (r, found) ↦ elim (Bool-cases (r.sequence == handle % 256)) [
    | inl same ↦
        let place : i ≡ handle / 256 = grind arith in
        (r, ap (get_elem? table) place ∙ found, (==_iff r.sequence (handle % 256)).0 same, place)
    | inr other ↦ absurd (ground arith)
  ]
]

-- What happens to the table while the entry `i` is released `n` times: requests are created, filled
-- in and released in any order.
pub data Life {W : Type 0} (i : ℕ) (s : State W) : ℕ → State W → Type 0 where
  begins : Life i s 0 s
  released_here :
      {n : ℕ} {t : State W} → Life i s n t → Life i s (suc n) (release_request (some i) t).1
  released_elsewhere :
      {n : ℕ} {t : State W} (j : ℕ)
      → j ≢ i
      → Life i s n t
      → Life i s n (release_request (some j) t).1
  filled :
      {n : ℕ} {t : State W} (filling : Filling) (handle : ℤ)
      → Life i s n t
      → Life i s n (fill_in filling handle t)
  created :
      {n : ℕ} {t : State W} (init : ℕ → State W → State W) (run_tick : State W → ℕ × State W)
      (now d command j : ℕ) (r : Request)
      → has (t.devices d).flags dev_flag_cmd_init ≡ true
      → find_request is_free 0 t.table ≡ some (j, r)
      → Life i s n t
      → Life i s n (create init run_tick now (some d) (some command) t).1

created_lem :
    {W : Type 0} (init : ℕ → State W → State W) (run_tick : State W → ℕ × State W)
    (now d command i j n : ℕ) (r : Request) (t : State W)
    → has (t.devices d).flags dev_flag_cmd_init ≡ true
    → find_request is_free 0 t.table ≡ some (j, r)
    → HasSequence i n t.table
    → HasSequence i n (create init run_tick now (some d) (some command) t).1.table
unfolding create new_request
created_lem {W} init run_tick now d command i j n r t set_up free has_it =
    let full = λ (s1 : State W). create_in_tick init now (some d) (some command) (run_tick s1).1 in
    let made =
      ap (take_free full now d command) (set_up-done init d t set_up)
      ∙ found_free full now d command j r t free in
    subst (HasSequence i n) (sym (ap (λ p. p.1.table) made))
      (modify-HasSequence i j n (new_request now d command) t.table (λ q. refl) has_it)

Life-HasSequence :
    {W : Type 0} (i k : ℕ) (s : State W)
    → k < 256
    → HasSequence i k s.table
    → {n : ℕ} {t : State W} → Life i s n t
    → HasSequence i ((k + n) % 256) t.table
unfolding release_request
Life-HasSequence i k s small (r, there, seq) begins = (r, there, (omega (arith, seq, small)))
Life-HasSequence i k s small has_it (released_here {t = u} life) =
    let (r, there, seq) = Life-HasSequence i k s small has_it life in
    (released r, get_elem?-modify_self u.table i released r there, omega arith)
Life-HasSequence i k s small has_it (released_elsewhere {t = u} j other life) =
    let (r, there, seq) = Life-HasSequence i k s small has_it life in
    (r, get_elem?-modify_ne u.table j i released other ∙ there, seq)
Life-HasSequence i k s small has_it {n} (filled {t = u} filling handle life) =
    fill_in-HasSequence i ((k + n) % 256) filling handle u
      (Life-HasSequence i k s small has_it life)
Life-HasSequence i k s small has_it {n}
      (created {t = u} init run_tick now d command j r set_up free life) =
    created_lem init run_tick now d command i j ((k + n) % 256) r u set_up free
      (Life-HasSequence i k s small has_it life)

in_range :
    {W : Type 0} (handle i : ℕ) (s : State W)
    → handle_to_address (pos handle) s ≡ some i
    → (handle < 512) × (entry_of handle s.table ≡ some i)
unfolding handle_to_address
in_range handle i s named = elim (Bool-cases (leb 512 handle)) [
  | inl outside ↦ absurd (ground arith)
  | inr inside ↦ (ground arith, ground arith)
]

inside_range :
    {W : Type 0} (handle : ℕ) (s : State W)
    → handle < 512
    → handle_to_address (pos handle) s ≡ entry_of handle s.table
unfolding handle_to_address
inside_range handle s small = ground arith

-- While requests are created in free entries, filled in and released, in any order: a handle that
-- names a request names none once the request has been released, until its entry has been released
-- 256 times, and then it names the entry again. Sending and the tick are not among what happens in
-- between, except as the releases that they make.
pub released_handle :
    {W : Type 0} (n handle i : ℕ) (s t : State W)
    → handle_to_address (pos handle) s ≡ some i
    → Life i s n t
    → 1 ≤ n
    → n ≤ 256
    → handle_to_address (pos handle) t ≡ (if n == 256 then some i else none)
released_handle n handle i s t named life at_least at_most =
    let (small, entry) = in_range handle i s named in
    let (r, there, seq, place) = entry_of-named handle i s.table entry in
    let (r', found, moved) =
      Life-HasSequence i (handle % 256) s (omega arith) (r, there, seq) life in
    let found' = ap (get_elem? t.table) (sym place) ∙ found in
    inside_range handle t small ∙ elim (Bool-cases (n == 256)) [
      | inl full ↦
          entry_of-good handle t.table r' found' (ground arith) ∙ rw full (ap some (sym place))
      | inr less ↦ rw less (entry_of-stale handle t.table r' found' (ground arith))
    ]
