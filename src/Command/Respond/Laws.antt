-- ===== src/Command/Respond/Laws.antt =====
-- Which callback gets a response, and what it is told.
use pxbee_open_close.Prelude.{
  ℕ, ◌+◌, ◌*◌, ◌<◌, ◌≡◌, ◌≢◌, ◌⊎◌, refl, ap, ◌∙◌, ℤ, pos, true, false, none, some, List, [], ◌∷◌,
  ◌++◌, length, All, arith, if◌then◌else◌,
}
use pxbee_open_close.Prelude.Bits.{Bytes, has}
use pxbee_open_close.Device.Radio.{be_bytes}
use pxbee_open_close.Device.Radio.Laws.{word_back}
use pxbee_open_close.Command.{Request, State, Callbacks, change_entry, released, flag_remote}
use pxbee_open_close.Command.Slots.{find_request-split}
use pxbee_open_close.Command.Send.{timeout_after}
use pxbee_open_close.Command.Respond.{
  Answer, answer_of, value_of, is_answered, find_request, response_to, is_reuse, call_back,
  answered, handle_response,
}

-- the response frame of the local radio, as its documentation lays it out
abbrev pub local_response : ℕ → ℕ → ℕ → Bytes → Bytes
local_response id command status value = 0x88 ∷ id ∷ be_bytes 2 command (status ∷ value)

-- what it says
abbrev pub local_answer : ℕ → ℕ → ℕ → Bytes → Answer
local_answer id command status value = record {
  is_local = true;
  frame_id = id;
  command = command;
  status = status;
  value_length = length value;
  value = value;
  source = none;
}

answer_of-local :
    (id command status : ℕ) (value : Bytes)
    → command < 65536
    → length value < 256
    → answer_of (local_response id command status value)
      ≡ some (local_answer id command status value)
unfolding answer_of be_bytes
answer_of-local id command status value small short = rw (word_back command small) (
    ap (λ n. some (record (local_answer id command status value) { value_length = n }))
      (omega arith))

-- A request of another device, or for another frame, is not meant.
not_answered :
    (xbee : ℕ) (a : Answer) (q : Request)
    → (q.device ≢ some xbee) ⊎ (q.frame_id ≢ a.frame_id)
    → is_answered xbee a q ≡ false
unfolding is_answered
not_answered xbee a q other = ground arith

meant :
    (xbee : ℕ) (a : Answer) (r : Request)
    → r.device ≡ some xbee
    → r.frame_id ≡ a.frame_id
    → r.command ≡ a.command
    → a.is_local ≡ true
    → has r.flags flag_remote ≡ false
    → is_answered xbee a r ≡ true
unfolding is_answered
meant xbee a r dev id command local remote = ground arith

-- what becomes of an entry behind the call of its callback
abbrev pub concluded : {W : Type 0} → ℕ → ℕ → ℤ × State W → State W
concluded now i (retval, s) =
    if is_reuse retval
    then change_entry i (λ q. record q { timeout = timeout_after 5 now }) s
    else change_entry i released s

others_not_meant :
    (xbee : ℕ) (a : Answer) (before : List Request)
    → All (λ q. (q.device ≢ some xbee) ⊎ (q.frame_id ≢ a.frame_id)) before
    → All (λ q. is_answered xbee a q ≡ false) before
others_not_meant xbee a [] others = tt
others_not_meant xbee a (q ∷ before) (other, others) =
    (not_answered xbee a q other, others_not_meant xbee a before others)

module _ {W : Type 0} (callbacks : Callbacks W) where
  respond-callback :
      (now xbee i c : ℕ) (a : Answer) (r : Request) (s : State W)
      → r.callback ≡ some c
      → call_back callbacks now xbee a i r s
        ≡ concluded now i (callbacks c (response_to xbee a i r) s)
  unfolding call_back
  respond-callback now xbee i c a r s called = rw called refl

  answered-at :
      (now xbee i : ℕ) (a : Answer) (r : Request) (s : State W)
      → find_request (is_answered xbee a) 0 s.table ≡ some (i, r)
      → answered callbacks now xbee a s ≡ call_back callbacks now xbee a i r s
  unfolding answered
  answered-at now xbee i a r s found = rw (answered, found) refl

  handled :
      (now xbee : ℕ) (a : Answer) (frame : Bytes) (s : State W)
      → answer_of frame ≡ some a
      → handle_response callbacks now xbee (some frame) s ≡ (pos 0, answered callbacks now xbee a s)
  unfolding handle_response
  handled now xbee a frame s read = rw (handle_response, read) refl

  -- The frame that answers a local request with a callback, the first one of its device and frame
  -- identifier, reaches this callback: with the handle and the context of the request, and the
  -- command, the status and the value of the frame. Behind it the request is released, or has five
  -- more seconds where the callback asks to keep it.
  pub response_lem :
      (now xbee c status : ℕ) (value : Bytes) (before rest : List Request) (r : Request)
      (s : State W)
      → s.table ≡ before ++ (r ∷ rest)
      → All (λ q. (q.device ≢ some xbee) ⊎ (q.frame_id ≢ r.frame_id)) before
      → r.device ≡ some xbee
      → r.callback ≡ some c
      → has r.flags flag_remote ≡ false
      → r.command < 65536
      → length value < 256
      → handle_response callbacks now xbee
          (some (local_response r.frame_id r.command status value))
          s
        ≡ (
          pos 0,
          concluded now (length before) (
              callbacks c
                (record {
                  device = some xbee;
                  context = r.context;
                  handle = length before * 256 + r.sequence;
                  command = r.command;
                  flags = status;
                  value_length = length value;
                  value_bytes = value;
                  value = value_of (length value) value;
                  source = none;
                })
                s),
        )
  unfolding response_to
  response_lem now xbee c status value before rest r s split others dev called remote small short =
      let a = local_answer r.frame_id r.command status value in
      let read = answer_of-local r.frame_id r.command status value small short in
      let found : find_request (is_answered xbee a) 0 s.table ≡ some (length before, r) =
        ap (find_request (is_answered xbee a) 0) split
        ∙ find_request-split (is_answered xbee a) 0 before rest r
            (others_not_meant xbee a before others) (meant xbee a r dev refl refl refl remote)
        ∙ ap (λ n. some (n, r)) (omega arith) in
      handled now xbee a (local_response r.frame_id r.command status value) s read
      ∙ ap (λ x. (pos 0, x))
          (answered-at now xbee (length before) a r s found
            ∙ respond-callback now xbee (length before) c a r s called)

  answered-nobody :
      (now xbee : ℕ) (a : Answer) (s : State W)
      → find_request (is_answered xbee a) 0 s.table ≡ none
      → answered callbacks now xbee a s ≡ s
  unfolding answered
  answered-nobody now xbee a s nobody = rw (answered, nobody) refl
