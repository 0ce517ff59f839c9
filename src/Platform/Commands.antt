-- ===== src/Platform/Commands.antt =====
-- `cmdSetup`, `cmdRestore` and `cmdRun` of cmd/truedns/main.go, from where the privileges and the
-- configuration are in order, over the interface of the platform. A session has the settings and
-- the state file. What the system does when a file is read, saved or removed is an argument.
use true_dns.Base.{Bool, not, ◌&&◌, Option, none, some, if◌then◌else◌}
use true_dns.Base.Result.{Result, ok, err}
use true_dns.Text.{Bytes}
use true_dns.Platform.State.{
  TakeoverState, Json, Saving, StateError, absent, save_state, load_state, clear_state,
  state_summary,
}
use true_dns.Platform.Interface.{Platform, PlatformError}

pub record Session (H : Type 0) : Type 0 where
  pub host : H
  pub file : Option Bytes

pub data CommandError : Type 0 where
  already_taken nothing_to_restore not_saved proxy_failed : CommandError
  bad_state : StateError → CommandError
  platform_failed : PlatformError → CommandError

-- the file can be read, how it is saved, and whether it can be removed
pub record Files : Type 0 where
  pub readable : Bool
  pub saving : Saving
  pub removed : Bool

module _ {H P : Type 0} (json : Json P) (pf : Platform H) (files : Files) where
  -- the takeover of `cmdSetup`
  unfoldable pub take_and_save : Session H → Session H × Option CommandError
  take_and_save s =
      let (h, taken) = pf.set_system_dns s.host in
      elim taken [
        | err e ↦ (record s { host = h }, some (platform_failed e))
        | ok st ↦
            let (saved, file) = save_state json files.saving st s.file in
            (record { host = h; file = file }, if saved then none else some not_saved)
      ]

  -- `cmdSetup`
  unfoldable pub cmd_setup : Bool → Session H → Session H × Option CommandError
  unfolding take_and_save
  cmd_setup force s = elim (state_summary json pf.name files.readable s.file) [
    | err e ↦ (s, some (bad_state e))
    | ok active ↦ if active && not force then (s, some already_taken) else take_and_save s
  ]

  -- the state is undone, and the file cleared unless that fails
  unfoldable pub undo_and_clear : TakeoverState → Session H → Session H × Option CommandError
  undo_and_clear st s =
      let (h, failed) = pf.restore_system_dns st s.host in
      elim failed [
        | some e ↦ (record s { host = h }, some (platform_failed e))
        | none ↦ (record { host = h; file = clear_state files.removed s.file }, none)
      ]

  -- `cmdRestore`
  unfoldable pub cmd_restore : Session H → Session H × Option CommandError
  unfolding undo_and_clear
  cmd_restore s = elim (load_state json pf.name files.readable s.file) [
    | err absent ↦ (s, some nothing_to_restore)
    | err e ↦ (s, some (bad_state e))
    | ok st ↦ undo_and_clear st s
  ]

  -- the takeover of `cmdRun`: the settings are changed, and the state is at hand in the process
  unfoldable pub run_take : Session H → Session H × Result CommandError TakeoverState
  run_take s =
      let (h, taken) = pf.set_system_dns s.host in
      elim taken [
        | err e ↦ (record s { host = h }, err (platform_failed e))
        | ok st ↦ (record s { host = h }, ok st)
      ]

  -- the step after it: the state is saved, and a failure is only logged
  unfoldable pub run_save : TakeoverState → Session H → Session H
  run_save st s = record s { file = (save_state json files.saving st s.file).1 }

  -- `cmdRun` up to the start of the proxy, both steps
  unfoldable pub run_start : Session H → Session H × Result CommandError TakeoverState
  unfolding run_take run_save
  run_start s =
      let (t, taken) = run_take s in
      elim taken [ err e ↦ (t, err e) | ok st ↦ (run_save st t, ok st) ]

  -- its deferred call, whose errors are only logged
  unfoldable pub run_stop : Bool → TakeoverState → Session H → Session H
  unfolding undo_and_clear
  run_stop keep st s = if keep then s else (undo_and_clear st s).0

  -- `cmdRun`: `proxy` is the error of the proxy, which may fail to start, and `meanwhile` what
  -- others do to the session while it runs
  unfoldable pub cmd_run :
      Bool
      → Option CommandError
      → (Session H → Session H)
      → Session H
      → Session H × Option CommandError
  unfolding run_start run_stop
  cmd_run keep proxy meanwhile s =
      let (t, started) = run_start s in
      elim started [ err e ↦ (t, some e) | ok st ↦ (run_stop keep st (meanwhile t), proxy) ]
