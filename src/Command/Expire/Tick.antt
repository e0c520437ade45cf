-- ===== src/Command/Expire/Tick.antt =====
-- Requests that time out.
use pxbee_open_close.Prelude.{
  ℕ, ltb, ◌-◌, suc, ◌+◌, ◌%◌, ◌≡◌, refl, ap, sym, ◌∙◌, true, false, not, ◌&&◌, Bool, Option, none,
  some, List, [], ◌∷◌, ◌++◌, ◌==◌, if◌then◌else◌, map, length, arith, get_elem?, Bool-cases,
  Option-cases, inl, inr, append_assoc, length-append,
}
use pxbee_open_close.Prelude.Bits.{has}
use pxbee_open_close.Command.{Request, Response, State, Callbacks, change_entry, released, modify}
use pxbee_open_close.Command.Slots.{modify-split, get_elem?-split}
use pxbee_open_close.Command.Respond.{is_reuse}
use pxbee_open_close.Command.Expire.{
  is_free, has_expired, expired, dev_flag_query_refresh, call_expired, refreshed, close_expired,
  expire_request, tick_walk, cmd_tick,
}

-- whether the time of an entry is reached, what a tick makes of the entry, and how many it ends
abbrev pub is_over : ℕ → Request → Bool
is_over now r = not (is_free r) && ltb ((now + 65536 - r.timeout) % 65536) 32768

-- A time is reached in the 32768 seconds from it on.
pub has_expired_lem :
    (now timeout : ℕ) → has_expired now timeout ≡ ltb ((now + 65536 - timeout) % 65536) 32768
unfolding has_expired
has_expired_lem now timeout = ground arith

abbrev pub ended : ℕ → Request → Request
ended now r = if is_over now r then released r else r

abbrev pub count_over : ℕ → List Request → ℕ
count_over now [] = 0
count_over now (r ∷ rs) = (if is_over now r then 1 else 0) + count_over now rs

-- The callbacks change neither the table nor the devices, and give their requests up.
pub record IsModest {W : Type 0} (callbacks : Callbacks W) : Type 0 where
  pub keeps_table : (c : ℕ) (m : Response) (s : State W) → (callbacks c m s).1.table ≡ s.table
  pub keeps_devices : (c : ℕ) (m : Response) (s : State W) → (callbacks c m s).1.devices ≡ s.devices
  pub gives_up : (c : ℕ) (m : Response) (s : State W) → is_reuse (callbacks c m s).0 ≡ false

-- no device waits for a refresh
abbrev pub IsFresh : {W : Type 0} → State W → Type 0
IsFresh s = (d : ℕ) → has (s.devices d).flags dev_flag_query_refresh ≡ false

module _ {W : Type 0} (callbacks : Callbacks W) (refresh : ℕ → State W → State W)
    (modest : IsModest callbacks) where
  call_expired_lem :
      (i : ℕ) (r : Request) (s : State W)
      → (is_reuse (call_expired callbacks refresh i r s).0 ≡ false)
        × ((call_expired callbacks refresh i r s).1.table ≡ s.table)
        × ((call_expired callbacks refresh i r s).1.devices ≡ s.devices)
  unfolding call_expired expired
  call_expired_lem i r s = elim (Option-cases r.callback) [
    | inl nobody ↦ rw nobody (refl, refl, refl)
    | inr (c, called) ↦ rw called (
      modest.gives_up c (expired i r) s,
      modest.keeps_table c (expired i r) s,
      modest.keeps_devices c (expired i r) s,
    )
  ]

  refreshed_fresh :
      (dev : Option ℕ) (s : State W) → IsFresh s → refreshed callbacks refresh dev s ≡ s
  unfolding refreshed
  refreshed_fresh none s fresh = refl
  refreshed_fresh (some d) s fresh = rw (refreshed, fresh d) refl

  close_expired_lem :
      (before rest : List Request) (r : Request) (s : State W)
      → s.table ≡ before ++ (r ∷ rest)
      → IsFresh s
      → close_expired callbacks refresh (length before) s
        ≡ record s { table = before ++ (released r ∷ rest) }
  unfolding close_expired
  close_expired_lem before rest r s split fresh =
      let there : get_elem? s.table (length before) ≡ some r =
        ap (λ t. get_elem? t (length before)) split ∙ get_elem?-split before rest r in
      let closed : change_entry (length before) released s
          ≡ record s { table = before ++ (released r ∷ rest) } =
        ap (λ t. record s { table = t })
          (ap (modify (length before) released) split ∙ modify-split before rest r released) in
      rw (close_expired, there)
        (refreshed_fresh r.device (change_entry (length before) released s) fresh ∙ closed)

  expire_request-over :
      (now i : ℕ) (r : Request) (s : State W)
      → is_over now r ≡ true
      → is_reuse (call_expired callbacks refresh i r s).0 ≡ false
      → expire_request callbacks refresh now i r s
        ≡ (1, close_expired callbacks refresh i (call_expired callbacks refresh i r s).1)
  unfolding expire_request
  expire_request-over now i r s over given_up =
      rw (expire_request, has_expired_lem now r.timeout, over, given_up) refl

  expire_request-open :
      (now i : ℕ) (r : Request) (s : State W)
      → is_over now r ≡ false
      → expire_request callbacks refresh now i r s ≡ (0, s)
  unfolding expire_request
  expire_request-open now i r s waits =
      rw (expire_request, has_expired_lem now r.timeout, waits) refl

  -- A request that is over is released, and any other stays as it is.
  expire_request_lem :
      (now : ℕ) (before rest : List Request) (r : Request) (s : State W)
      → s.table ≡ before ++ (r ∷ rest)
      → IsFresh s
      → let after = expire_request callbacks refresh now (length before) r s in
        (after.0 ≡ (if is_over now r then 1 else 0))
        × (after.1.table ≡ before ++ (ended now r ∷ rest))
        × IsFresh after.1
  expire_request_lem now before rest r s split fresh = elim (Bool-cases (is_over now r)) [
    | inl over ↦
        let (given_up, table, devices) = call_expired_lem (length before) r s in
        let s1 = (call_expired callbacks refresh (length before) r s).1 in
        let fresh1 : IsFresh s1 =
          λ d. ap (λ f. has (f d).flags dev_flag_query_refresh) devices ∙ fresh d in
        let closed =
          expire_request-over now (length before) r s over given_up
          ∙ ap (λ x. (1, x)) (close_expired_lem before rest r s1 (table ∙ split) fresh1) in
        rw over (
          ap (λ p. p.0) closed,
          ap (λ p. p.1.table) closed,
          λ d. ap (λ p. has (p.1.devices d).flags dev_flag_query_refresh) closed ∙ fresh1 d,
        )
    | inr waits ↦
        let same = expire_request-open now (length before) r s waits in
        rw waits (
          ap (λ p. p.0) same,
          ap (λ p. p.1.table) same ∙ split,
          λ d. ap (λ p. has (p.1.devices d).flags dev_flag_query_refresh) same ∙ fresh d,
        )
  ]

  walk_step :
      (now n i : ℕ) (r : Request) (s : State W)
      → get_elem? s.table i ≡ some r
      → let after = expire_request callbacks refresh now i r s in
        let behind = tick_walk callbacks refresh now n (suc i) after.1 in
        tick_walk callbacks refresh now (suc n) i s ≡ (after.0 + behind.0, behind.1)
  unfolding tick_walk
  walk_step now n i r s there = rw (tick_walk, there) refl

  expire_walk_lem :
      (now : ℕ) (before rest : List Request) (s : State W)
      → s.table ≡ before ++ rest
      → IsFresh s
      → let after = tick_walk callbacks refresh now (length rest) (length before) s in
        (after.0 ≡ count_over now rest) × (after.1.table ≡ before ++ map (ended now) rest)
  unfolding tick_walk
  expire_walk_lem now before [] s split fresh = (refl, split)
  expire_walk_lem now before (r ∷ rest) s split fresh =
      let there = ap (λ t. get_elem? t (length before)) split ∙ get_elem?-split before rest r in
      let (one, table, fresh1) = expire_request_lem now before rest r s split fresh in
      let after = (expire_request callbacks refresh now (length before) r s).1 in
      let before1 = before ++ (ended now r ∷ []) in
      let longer : length before1 ≡ suc (length before) =
        omega (arith, length-append before (ended now r ∷ [])) in
      let (more, tables) =
        expire_walk_lem now before1 rest after
          (table ∙ sym (append_assoc before (ended now r ∷ []) rest)) fresh1 in
      let walked =
        walk_step now (length rest) (length before) r s there
        ∙ ap
            (λ n.
              let behind = tick_walk callbacks refresh now (length rest) n after in
              ((expire_request callbacks refresh now (length before) r s).0 + behind.0, behind.1))
            (sym longer) in
      (
        ap (λ p. p.0) walked ∙ rw (one, more) refl,
        ap (λ p. p.1.table) walked
            ∙ tables
            ∙ append_assoc before (ended now r ∷ []) (map (ended now) rest),
      )

  tick_next :
      (now : ℕ) (s : State W)
      → (s.last_time == now % 256) ≡ false
      → cmd_tick callbacks refresh now s
        ≡ tick_walk callbacks refresh now 2 0 (record s { last_time = now % 256 })
  unfolding cmd_tick
  tick_next now s passed = rw (cmd_tick, passed) refl

  -- In a second that xbee_cmd_tick has not run in, as far as the low byte of the clock tells, it
  -- releases the requests that are over, leaves the other entries as they are, and returns how many
  -- it has ended. The callbacks change neither the table nor the devices and keep no request, and no
  -- device waits for a refresh.
  pub tick_lem :
      (now : ℕ) (s : State W)
      → length s.table ≡ 2
      → (s.last_time == now % 256) ≡ false
      → IsFresh s
      → let after = cmd_tick callbacks refresh now s in
        (after.0 ≡ count_over now s.table) × (after.1.table ≡ map (ended now) s.table)
  tick_lem now s size passed fresh =
      let started : State W = record s { last_time = now % 256 } in
      let walk = λ (n : ℕ). tick_walk callbacks refresh now n 0 started in
      let (count, table) = expire_walk_lem now [] s.table started refl fresh in
      let ran = tick_next now s passed ∙ ap walk (sym size) in
      (ap (λ p. p.0) ran ∙ count, ap (λ p. p.1.table) ran ∙ table)
