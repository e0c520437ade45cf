-- ===== src/Command/Query/Flags.antt =====
-- What the query of a device does to the flags of the device.
use pxbee_open_close.Prelude.{
  ==_refl, ℕ, ◌≡◌, ◌<◌, refl, true, false, Option, none, some, if_ind, if◌then◌else◌, bit_or,
  bit_and, arith,
}
use pxbee_open_close.Prelude.Bits.{has}
use pxbee_open_close.Prelude.SetBits.{
  bit, bit-or, bit-and, has-bit, has-no_bit, bit-has, has-same_bit,
}
use pxbee_open_close.Command.{Response, State}
use pxbee_open_close.Command.Build.{without}
use pxbee_open_close.Command.Expire.{dev_flag_query_refresh, dev_flag_cmd_init, resp_flag_timeout}
use pxbee_open_close.Command.CommandList.{Reg}
use pxbee_open_close.Command.Query.{dev_flags, put_flags, query_started, query_ended}
use pxbee_open_close.Command.Registers.{
  dev_flag_query_inprogress, dev_flag_query_done, dev_flag_query_error,
}

-- A query runs, and no further one is asked for.
abbrev pub IsRunning : ℕ → Type 0
IsRunning flags =
    (has flags dev_flag_query_inprogress ≡ true) × (has flags dev_flag_query_refresh ≡ false)

-- No query runs, and a further one is asked for.
abbrev pub IsWaiting : ℕ → Type 0
IsWaiting flags =
    (has flags dev_flag_query_inprogress ≡ false) × (has flags dev_flag_query_refresh ≡ true)

abbrev pub ask : ℕ → ℕ
ask flags = bit_or flags dev_flag_query_refresh

pub has-ask : (f : ℕ) → has (ask f) dev_flag_query_refresh ≡ true
has-ask f = has-bit 4 (ask f) (omega (arith, bit-or 4 f 16))

pub inprogress-ask :
    (f : ℕ) → has (ask f) dev_flag_query_inprogress ≡ has f dev_flag_query_inprogress
inprogress-ask f = has-same_bit 5 (ask f) f (omega (arith, bit-or 5 f 16))

pub query_started-IsRunning : (f : ℕ) → IsRunning (query_started f)
unfolding query_started
query_started-IsRunning f =
    let started = bit_or f 34 in
    (
      has-bit 5 (bit_and started 65507) (omega (arith, bit-and 5 started 65507, bit-or 5 f 34)),
      has-no_bit 4 (bit_and started 65507) (omega (arith, bit-and 4 started 65507)),
    )

ended_bits :
    (f mask : ℕ)
    → bit 5 mask ≡ 0
    → has f dev_flag_query_refresh ≡ true
    → IsWaiting (bit_or (without dev_flag_query_inprogress f) mask)
ended_bits f mask apart wanted =
    let stopped = bit_and f 65503 in
    (
      has-no_bit 5 (bit_or stopped mask)
          (omega (arith, apart, bit-or 5 stopped mask, bit-and 5 f 65503)),
      has-bit 4 (bit_or stopped mask)
          (omega (arith, bit-or 4 stopped mask, bit-and 4 f 65503, bit-has 4 f wanted)),
    )

pub query_ended-IsWaiting :
    (m : Response) (reg : Option Reg) (f : ℕ)
    → has f dev_flag_query_refresh ≡ true
    → IsWaiting (query_ended m reg f)
unfolding query_ended
query_ended-IsWaiting m none f wanted = ended_bits f dev_flag_query_error refl wanted
query_ended-IsWaiting m (some reg) f wanted =
    if_ind (λ x. IsWaiting (bit_or (without dev_flag_query_inprogress f) x))
      (has m.flags resp_flag_timeout) (ended_bits f dev_flag_query_error refl wanted)
      (ended_bits f dev_flag_query_done refl wanted)

pub dev_flags-put_flags :
    {W : Type 0} (d : ℕ) (f : ℕ → ℕ) (s : State W)
    → dev_flags d (put_flags d f s) ≡ f (dev_flags d s)
dev_flags-put_flags d f s = rw (dev_flags, ==_refl d) refl

pub set_up-ask : (f : ℕ) → has f dev_flag_cmd_init ≡ true → has (ask f) dev_flag_cmd_init ≡ true
set_up-ask f h = has-bit 0 (ask f) (omega (arith, bit-or 0 f 16, bit-has 0 f h))

pub set_up-ended :
    (m : Response) (reg : Option Reg) (f : ℕ)
    → has f dev_flag_cmd_init ≡ true
    → has (query_ended m reg f) dev_flag_cmd_init ≡ true
unfolding query_ended
set_up-ended m none f h =
    let stopped = bit_and f 65503 in
    has-bit 0 (bit_or stopped 8)
      (omega (arith, bit-or 0 stopped 8, bit-and 0 f 65503, bit-has 0 f h))
set_up-ended m (some reg) f h =
    let stopped = bit_and f 65503 in
    let flag =
      if has m.flags resp_flag_timeout then dev_flag_query_error else dev_flag_query_done in
    has-bit 0 (bit_or stopped flag)
      (omega (arith, bit-or 0 stopped flag, bit-and 0 f 65503, bit-has 0 f h, bit_small flag))
  where
    bit_small : (x : ℕ) → bit 0 x < 2
    bit_small x = omega arith
