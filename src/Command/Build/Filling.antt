-- ===== src/Command/Build/Filling.antt =====
-- Filling in requests leaves the sequences of the entries.
use pxbee_open_close.Prelude.{
  ℕ, ℤ, List, ◌≡◌, refl, ap, ◌∙◌, inl, inr, Option, none, some, Option-cases, Bool-cases, get_elem?,
  if_ind, ltb, ◌==◌, ==_iff, take, arith,
}
use pxbee_open_close.Prelude.Bits.{Bytes}
use pxbee_open_close.Command.{Request, State, modify, handle_to_address, max_param_length}
use pxbee_open_close.Command.Slots.{get_elem?-modify_self, get_elem?-modify_ne}
use pxbee_open_close.Command.Build.{
  with_request, set_command, set_param, set_param_bytes, with_param, encode_param, set_callback,
  set_target, targeted, set_flags, clear_flags,
}

-- the entry `i` of the table holds a request with this sequence
abbrev pub HasSequence : ℕ → ℕ → List Request → Type 0
HasSequence i n table = (r : Request) × (get_elem? table i ≡ some r) × (r.sequence ≡ n)

pub modify-HasSequence :
    (i j n : ℕ) (f : Request → Request) (table : List Request)
    → ((r : Request) → (f r).sequence ≡ r.sequence)
    → HasSequence i n table
    → HasSequence i n (modify j f table)
modify-HasSequence i j n f table keeps (r, there, seq) = elim (Bool-cases (j == i)) [
  | inl same ↦
      let e : j ≡ i = (==_iff j i).0 same in
      (
        f r,
        ap (λ k. get_elem? (modify k f table) i) e ∙ get_elem?-modify_self table i f r there,
        keeps r ∙ seq,
      )
  | inr other ↦ (r, get_elem?-modify_ne table j i f (ground arith) ∙ there, seq)
]

targeted-sequence :
    (ieee : Option ℕ) (network : ℕ) (r : Request) → (targeted ieee network r).sequence ≡ r.sequence
unfolding targeted
targeted-sequence none network r = refl
targeted-sequence (some a) network r = refl

with_param-sequence : (p : Bytes) (r : Request) → (with_param p r).sequence ≡ r.sequence
with_param-sequence p r = refl

-- the calls that fill in a request
pub data Filling : Type 0 where
  command_is : ℕ → Filling
  callback_is : Option ℕ → Option ℕ → Filling
  target_is : Option ℕ → ℕ → Filling
  flags_set : ℕ → Filling
  flags_cleared : ℕ → Filling
  param_is : ℕ → Filling
  bytes_are : Bytes → ℕ → Filling

module _ {W : Type 0} where
  abbrev pub fill_in : Filling → ℤ → State W → State W
  fill_in (command_is c) handle s = (set_command handle c s).1
  fill_in (callback_is c context) handle s = (set_callback handle c context s).1
  fill_in (target_is ieee network) handle s = (set_target handle ieee network s).1
  fill_in (flags_set f) handle s = (set_flags handle f s).1
  fill_in (flags_cleared f) handle s = (clear_flags handle f s).1
  fill_in (param_is p) handle s = (set_param handle p s).1
  fill_in (bytes_are b n) handle s = (set_param_bytes handle b n s).1

  with_request-HasSequence :
      (i n : ℕ) (handle : ℤ) (f : Request → Request) (s : State W)
      → ((r : Request) → (f r).sequence ≡ r.sequence)
      → HasSequence i n s.table
      → HasSequence i n (with_request handle f s).1.table
  unfolding with_request
  with_request-HasSequence i n handle f s keeps has =
      elim (Option-cases (handle_to_address handle s)) [
        | inl bad ↦ rw (with_request, bad) has
        | inr (j, named) ↦ rw (with_request, named) (modify-HasSequence i j n f s.table keeps has)
      ]

  pub fill_in-HasSequence :
      (i n : ℕ) (filling : Filling) (handle : ℤ) (s : State W)
      → HasSequence i n s.table
      → HasSequence i n (fill_in filling handle s).table
  unfolding set_command set_callback set_target set_flags clear_flags set_param set_param_bytes
  fill_in-HasSequence i n (command_is c) handle s has =
      with_request-HasSequence i n handle (λ r. record r { command = c }) s (λ r. refl) has
  fill_in-HasSequence i n (callback_is c context) handle s has =
      with_request-HasSequence i n handle (λ r. record r { callback = c; context = context }) s
        (λ r. refl) has
  fill_in-HasSequence i n (target_is ieee network) handle s has =
      with_request-HasSequence i n handle (targeted ieee network) s (targeted-sequence ieee network)
        has
  fill_in-HasSequence i n (flags_set f) handle s has =
      with_request-HasSequence i n handle _ s (λ r. refl) has
  fill_in-HasSequence i n (flags_cleared f) handle s has =
      with_request-HasSequence i n handle _ s (λ r. refl) has
  fill_in-HasSequence i n (param_is p) handle s has =
      with_request-HasSequence i n handle (with_param (encode_param p)) s
        (with_param-sequence (encode_param p)) has
  fill_in-HasSequence i n (bytes_are b k) handle s has =
      if_ind (λ (x : ℤ × State W). HasSequence i n x.1.table) (ltb max_param_length k) has
        (with_request-HasSequence i n handle (with_param (take k b)) s
          (with_param-sequence (take k b)) has)
