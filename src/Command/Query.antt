-- ===== src/Command/Query.antt =====
-- The query of a device by a list of AT commands, and its renewal: xbee_cmd_query_device,
-- xbee_cmd_init_device, _xbee_cmd_modem_status and the callbacks of the query in
-- pxbee/pan/xbee/xbee_atcmd.c.
pub mod Flags
pub mod Refresh
use pxbee_open_close.Prelude.{
  ℕ, ℤ, pos, einval, is_zero, Bool, true, false, ◌&&◌, ◌||◌, Option, none, some, List, [], ◌∷◌,
  ◌==◌, if◌then◌else◌, take, drop, bit_and, bit_or,
}
use pxbee_open_close.Prelude.Bits.{Bytes, has}
use pxbee_open_close.Zcl.Parse.{byte}
use pxbee_open_close.Device.Radio.{be_value}
use pxbee_open_close.Command.{Response, State}
use pxbee_open_close.Command.Build.{without}
use pxbee_open_close.Command.Send.{with_device}
use pxbee_open_close.Command.Expire.{
  resp_flag_timeout, resp_mask_status, dev_flag_cmd_init, dev_flag_query_refresh,
}
use pxbee_open_close.Command.Registers.{
  dev_flag_query_begin, dev_flag_query_done, dev_flag_query_error, dev_flag_query_inprogress,
  wpan_flag_joined, wpan_flag_authenticated, wpan_flag_authentication_enabled,
  ateo_use_authentication, modem_status_joined, modem_status_coord_start,
  modem_status_key_established, Layout, Wpans, handle_eo, handle_ai, handle_end, query_regs,
  refresh_idx,
}
use pxbee_open_close.Command.CommandList.{
  Reg, ListType, Lists, ListCalls, clt_none, clt_copy, clt_copy_be, list_execute,
}

module _ {W : Type 0} where
  abbrev pub dev_flags : ℕ → State W → ℕ
  dev_flags d s = (s.devices d).flags

  abbrev pub put_flags : ℕ → (ℕ → ℕ) → State W → State W
  put_flags d f = with_device d (λ dev. record dev { flags = f dev.flags })

module _ {W : Type 0} where
  abbrev pub put_wpan : ℕ → (ℕ → ℕ) → State (Lists (Wpans W)) → State (Lists (Wpans W))
  put_wpan d f s =
      let flags = s.world.rest.wpan_flags in
      record s {
        world = record s.world {
          rest = record s.world.rest { wpan_flags = λ j. if j == d then f (flags j) else flags j };
        };
      }

  unfoldable pub query_handle_eo : Response → ℕ → State (Lists (Wpans W)) → State (Lists (Wpans W))
  query_handle_eo m xbee s =
      if bit_and m.flags resp_mask_status == 0
      then put_wpan xbee
          (λ flags.
            if has m.value ateo_use_authentication
            then bit_or flags wpan_flag_authentication_enabled
            else without wpan_flag_authentication_enabled flags)
          s
      else s

  unfoldable pub query_handle_ai : Response → ℕ → State (Lists (Wpans W)) → State (Lists (Wpans W))
  query_handle_ai m xbee s =
      if (bit_and m.flags resp_mask_status == 0) && (m.value == 0)
      then put_wpan xbee
          (λ flags.
            let joined = bit_or flags wpan_flag_joined in
            if has joined wpan_flag_authentication_enabled
            then bit_or joined wpan_flag_authenticated
            else joined)
          s
      else s

-- what a query that was started does to the flags
unfoldable pub query_started : ℕ → ℕ
query_started flags =
    without (bit_or dev_flag_query_error (bit_or dev_flag_query_done dev_flag_query_refresh))
      (bit_or flags (bit_or dev_flag_query_begin dev_flag_query_inprogress))

-- the flags behind a query that is over
unfoldable pub query_ended : Response → Option Reg → ℕ → ℕ
query_ended m none flags = bit_or (without dev_flag_query_inprogress flags) dev_flag_query_error
query_ended m (some reg) flags =
    bit_or (without dev_flag_query_inprogress flags)
      (if has m.flags resp_flag_timeout then dev_flag_query_error else dev_flag_query_done)

-- `context` names _xbee_atcmd_query_regs_head, and `callback` names _xbee_cmd_list_callback.
module _ {W : Type 0} (layout : Layout) (context callback : ℕ)
    (run_tick : State (Lists (Wpans W)) → ℕ × State (Lists (Wpans W))) where
  pub start_query :
      (ℕ → State (Lists (Wpans W)) → State (Lists (Wpans W)))
      → ℕ
      → ℕ
      → List Reg
      → State (Lists (Wpans W))
      → ℤ × State (Lists (Wpans W))
  unfolding query_started
  start_query init now xbee regs s =
      let (error, s1) =
        list_execute init run_tick callback now (some xbee) context regs xbee none s in
      (error, if is_zero error then put_flags xbee query_started s1 else s1)

  -- `init` is xbee_cmd_init_device, for the requests that the query creates.
  unfoldable pub query_device :
      (ℕ → State (Lists (Wpans W)) → State (Lists (Wpans W)))
      → ℕ
      → Option ℕ
      → Bool
      → State (Lists (Wpans W))
      → ℤ × State (Lists (Wpans W))
  unfolding start_query
  query_device init now none refresh s = (einval, s)
  query_device init now (some xbee) refresh s =
      let s1 = if refresh then put_flags xbee (λ f. bit_or f dev_flag_query_refresh) s else s in
      let regs = if refresh then drop refresh_idx (query_regs layout) else query_regs layout in
      if has (dev_flags xbee s1) dev_flag_query_inprogress
      then (pos 0, s1)
      else start_query init now xbee regs s1

  -- The device is set up before it is queried, so that the requests of the query set up nothing.
  unfoldable pub init_device : ℕ → Option ℕ → State (Lists (Wpans W)) → ℤ × State (Lists (Wpans W))
  init_device now none s = (einval, s)
  init_device now (some xbee) s =
      let s1 = put_flags xbee (λ f. bit_or f dev_flag_cmd_init) s in
      if has (dev_flags xbee s) dev_flag_cmd_init
      then (pos 0, s)
      else if has (dev_flags xbee s1) dev_flag_query_begin
      then (pos 0, s1)
      else query_device (λ d s2. s2) now (some xbee) false s1

  -- `wpan_dev.address.network`
  network_of : ℕ → State (Lists (Wpans W)) → ℕ
  network_of xbee s = be_value 0 (take 2 (drop layout.network (s.world.memory xbee)))

  pub must_refresh : ℕ → State (Lists (Wpans W)) → Bool
  unfolding network_of
  must_refresh xbee s =
      has (dev_flags xbee s) dev_flag_query_error
      && (has (s.world.rest.wpan_flags xbee) wpan_flag_joined && (network_of xbee s == 0xfffe))

  unfoldable pub query_handle_end :
      (ℕ → State (Lists (Wpans W)) → State (Lists (Wpans W)))
      → ℕ
      → Response
      → Option Reg
      → ℕ
      → State (Lists (Wpans W))
      → State (Lists (Wpans W))
  unfolding query_ended must_refresh
  query_handle_end init now m reg xbee s =
      let s1 = put_flags xbee (query_ended m reg) s in
      let s2 =
        if must_refresh xbee s1
        then put_flags xbee (λ f. bit_or f dev_flag_query_refresh) s1
        else s1 in
      if has (dev_flags xbee s2) dev_flag_query_refresh
      then (query_device init now (some xbee) true s2).1
      else s2

  -- what the callbacks in the table of the query stand for
  unfoldable pub query_calls :
      (ℕ → State (Lists (Wpans W)) → State (Lists (Wpans W))) → ℕ → ListCalls (Wpans W)
  query_calls init now c m reg xbee s =
      if c == handle_eo
      then query_handle_eo m xbee s
      else if c == handle_ai
      then query_handle_ai m xbee s
      else query_handle_end init now m reg xbee s

  -- `payload` is `none` for NULL
  unfoldable pub modem_status :
      (ℕ → State (Lists (Wpans W)) → State (Lists (Wpans W)))
      → ℕ
      → ℕ
      → Option Bytes
      → State (Lists (Wpans W))
      → ℤ × State (Lists (Wpans W))
  modem_status init now xbee none s = (einval, s)
  modem_status init now xbee (some payload) s =
      let status = byte payload 1 in
      (
        pos 0,
        if (status == modem_status_key_established)
              || ((status == modem_status_joined) || (status == modem_status_coord_start))
            then (query_device init now (some xbee) true s).1
            else s,
      )
