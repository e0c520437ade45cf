-- ===== src/Command/Build/Keeps.antt =====
-- Filling in a request leaves what does not depend on the table as it is.
use pxbee_open_close.Prelude.{
  ℕ, ℤ, List, ◌≡◌, refl, inl, inr, Option-cases, if_ind, ltb, Option, length, ◌%◌, take,
}
use pxbee_open_close.Prelude.Bits.{Bytes}
use pxbee_open_close.Command.{Request, State, modify, handle_to_address, max_param_length}
use pxbee_open_close.Command.Build.{
  with_request, set_command, set_param, set_param_bytes, set_param_str, with_param, encode_param,
  set_callback, set_target, targeted,
}

module _ {W A : Type 0} (observe : State W → A)
    (table_apart : (t : List Request) (s : State W)
      → observe (record s { table = t }) ≡ observe s) where
  with_request-keeps :
      (handle : ℤ) (f : Request → Request) (s : State W)
      → observe (with_request handle f s).1 ≡ observe s
  unfolding with_request
  with_request-keeps handle f s = elim (Option-cases (handle_to_address handle s)) [
    | inl bad ↦ rw (with_request, bad) refl
    | inr (i, named) ↦ rw (with_request, named) (table_apart (modify i f s.table) s)
  ]

  pub set_param_bytes-keeps :
      (handle : ℤ) (bytes : Bytes) (size : ℕ) (s : State W)
      → observe (set_param_bytes handle bytes size s).1 ≡ observe s
  unfolding set_param_bytes
  set_param_bytes-keeps handle bytes size s =
      if_ind (λ (x : ℤ × State W). observe x.1 ≡ observe s) (ltb max_param_length size) refl
        (with_request-keeps handle (with_param (take size bytes)) s)

  pub set_param_str-keeps :
      (handle : ℤ) (str : Bytes) (s : State W) → observe (set_param_str handle str s).1 ≡ observe s
  unfolding set_param_str
  set_param_str-keeps handle str s =
      if_ind (λ (x : ℤ × State W). observe x.1 ≡ observe s) (ltb max_param_length (length str)) refl
        (set_param_bytes-keeps handle str (length str % 256) s)

  pub set_param-keeps :
      (handle : ℤ) (value : ℕ) (s : State W) → observe (set_param handle value s).1 ≡ observe s
  unfolding set_param
  set_param-keeps handle value s = with_request-keeps handle (with_param (encode_param value)) s

  pub set_command-keeps :
      (handle : ℤ) (command : ℕ) (s : State W)
      → observe (set_command handle command s).1 ≡ observe s
  unfolding set_command
  set_command-keeps handle command s =
      with_request-keeps handle (λ r. record r { command = command }) s

  pub set_callback-keeps :
      (handle : ℤ) (callback context : Option ℕ) (s : State W)
      → observe (set_callback handle callback context s).1 ≡ observe s
  unfolding set_callback
  set_callback-keeps handle callback context s =
      with_request-keeps handle (λ r. record r { callback = callback; context = context }) s

  pub set_target-keeps :
      (handle : ℤ) (ieee : Option ℕ) (network_address : ℕ) (s : State W)
      → observe (set_target handle ieee network_address s).1 ≡ observe s
  unfolding set_target
  set_target-keeps handle ieee network_address s =
      with_request-keeps handle (targeted ieee network_address) s
