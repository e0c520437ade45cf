-- ===== src/Command/Query/Refresh.antt =====
-- What becomes of a wish to renew the query of a device.
use pxbee_open_close.Prelude.{All, ℕ, ℤ, pos, ◌≡◌, ◌⊎◌, is_zero, true, false}
use pxbee_open_close.Prelude.Bits.{has}
use pxbee_open_close.Command.{State, Callbacks}
use pxbee_open_close.Command.Expire.{dev_flag_cmd_init, cmd_tick}
use pxbee_open_close.Command.Expire.Create.{IsUsed}
use pxbee_open_close.Command.Expire.Quiet.{IsQuiet}
use pxbee_open_close.Command.CommandList.{Lists}
use pxbee_open_close.Command.Query.{dev_flags}
use pxbee_open_close.Command.Registers.{Layout, Wpans, dev_flag_query_inprogress}
use pxbee_open_close.Command.Query.Flags.{IsRunning, IsWaiting, ask}

-- what a call that asks for a refresh does to the flags `f`
abbrev pub Asked : ℕ → ℤ × ℕ → Type 0
Asked f (error, f') =
    ((has f dev_flag_query_inprogress ≡ true) × (error ≡ pos 0) × (f' ≡ ask f))
    ⊎ ((has f dev_flag_query_inprogress ≡ false)
        × (((is_zero error ≡ true) × IsRunning f') ⊎ ((is_zero error ≡ false) × (f' ≡ ask f))))

-- the flags of a device whose query is over, where a refresh is wanted
abbrev Over : {W : Type 0} → ℕ → State W → Type 0
Over d s1 = IsWaiting (dev_flags d s1) × (has (dev_flags d s1) dev_flag_cmd_init ≡ true)

-- if all entries of the table are in use, none of them is due
abbrev pub IsCalm : {W : Type 0} → ℕ → State W → Type 0
IsCalm now s = All IsUsed s.table → IsQuiet now s.table

-- Requests are created with the tick of the library, whatever the callbacks and the refresh are that
-- it calls.
module _ {W : Type 0} (layout : Layout) (context callback : ℕ)
    (callbacks : Callbacks (Lists (Wpans W)))
    (refresh init : ℕ → State (Lists (Wpans W)) → State (Lists (Wpans W))) (now d : ℕ) where
  abbrev pub run_tick : State (Lists (Wpans W)) → ℕ × State (Lists (Wpans W))
  run_tick = cmd_tick callbacks refresh now
