-- ===== src/Command/Send/Keeps.antt =====
-- Sending and releasing a request leaves what does not depend on the table and the radios as it is.
use pxbee_open_close.Prelude.{
  ℕ, ℤ, List, length, ◌≡◌, refl, ◌∙◌, inl, inr, Option, none, some, Option-cases, if_ind, get_elem?,
  ◌==◌, is_zero,
}
use pxbee_open_close.Prelude.Bits.{Bytes}
use pxbee_open_close.Command.{
  Request, Dev, State, change_entry, modify, released, handle_to_address, release_request,
  release_handle,
}
use pxbee_open_close.Command.Send.{
  send, send_as, request_id, request_header, take_frame_id, write_frame, record_sent,
}
use pxbee_open_close.Command.Send.{with_device}
use pxbee_open_close.Device.{next_frame_id}
use pxbee_open_close.Device.Write.{frame_write}
use pxbee_open_close.Device.Radio.{Radio}

module _ {W A : Type 0} (observe : State W → A)
    (table_apart : (t : List Request) (s : State W) → observe (record s { table = t }) ≡ observe s)
    (radio_apart : (d : ℕ) (radio : Dev → Radio) (s : State W)
      → observe (with_device d (λ dev. record dev { radio = radio dev }) s) ≡ observe s) where
  take_frame_id-keeps : (dev : Option ℕ) (s : State W) → observe (take_frame_id dev s).1 ≡ observe s
  unfolding take_frame_id
  take_frame_id-keeps none s = refl
  take_frame_id-keeps (some d) s =
      radio_apart d
        (λ dev. record {
          line = dev.radio.line;
          frame_id = next_frame_id (s.devices d).radio.frame_id;
        })
        s

  write_frame-keeps :
      (dev : Option ℕ) (header : Bytes) (bytes : Option Bytes) (size : ℕ) (s : State W)
      → observe (write_frame dev header bytes size s).1 ≡ observe s
  unfolding write_frame
  write_frame-keeps none header bytes size s = refl
  write_frame-keeps (some d) header bytes size s =
      let radio = (s.devices d).radio in
      let line' = (frame_write radio.line (some header) (length header) bytes size).1 in
      radio_apart d (λ dev. record { line = line'; frame_id = radio.frame_id }) s

  record_sent-keeps : (now i id : ℕ) (s : State W) → observe (record_sent now i id s) ≡ observe s
  unfolding record_sent
  record_sent-keeps now i id s =
      if_ind (λ (x : State W). observe x ≡ observe s) (id == 0) (table_apart _ s) (table_apart _ s)

  request_id-keeps : (r : Request) (s : State W) → observe (request_id r s).1 ≡ observe s
  unfolding request_id
  request_id-keeps r s = elim (Option-cases r.callback) [
    | inl nobody ↦ rw nobody refl
    | inr (c, called) ↦ rw called (take_frame_id-keeps r.device s)
  ]

  send_as-keeps :
      (now i : ℕ) (r : Request) (x : ℕ × State W) → observe (send_as now i r x).1 ≡ observe x.1
  unfolding send_as
  send_as-keeps now i r (id, s) =
      let s1 = change_entry i (λ q. record q { frame_id = id }) s in
      let (error, s2) =
        write_frame r.device (request_header r id) (some r.param) r.param_length s1 in
      let written =
        write_frame-keeps r.device (request_header r id) (some r.param) r.param_length s1 in
      if_ind (λ (x : State W). observe x ≡ observe s) (is_zero error)
        (record_sent-keeps now i id s2 ∙ written ∙ table_apart _ s) (written ∙ table_apart _ s)

  pub send-keeps : (now : ℕ) (handle : ℤ) (s : State W) → observe (send now handle s).1 ≡ observe s
  unfolding send
  send-keeps now handle s = elim (Option-cases (handle_to_address handle s)) [
    | inl bad ↦ rw (send, bad) refl
    | inr (i, named) ↦ elim (Option-cases (get_elem? s.table i)) [
      | inl missing ↦ rw (send, named, missing) refl
      | inr (r, there) ↦
          rw (send, named, there) (send_as-keeps now i r (request_id r s) ∙ request_id-keeps r s)
    ]
  ]

  pub release_handle-keeps :
      (handle : ℤ) (s : State W) → observe (release_handle handle s).1 ≡ observe s
  unfolding release_handle release_request
  release_handle-keeps handle s = elim (Option-cases (handle_to_address handle s)) [
    | inl bad ↦ rw (release_handle, bad) refl
    | inr (i, named) ↦ rw (release_handle, named) (table_apart (modify i released s.table) s)
  ]
