-- ===== src/Platform/Interface.antt =====
-- The interface `Platform`, over the settings `H` of a system, and what the commands rely on.
use true_dns.Base.{◌≡◌, Option, none}
use true_dns.Base.Result.{Result, ok, err}
use true_dns.Text.{Bytes}
use true_dns.Platform.State.{TakeoverState, Json, IsReadAs}

pub data PlatformError : Type 0 where
  not_root unread_file unwritten_file no_restart : PlatformError
  bad_payload no_previous no_interfaces no_adapters : PlatformError
  not_elevated unread_names : PlatformError
  unknown_manager unwritten_adapter : Bytes → PlatformError

-- An operation gives the settings afterwards, and a result or an error.
pub record Platform (H : Type 0) : Type 0 where
  pub name : Bytes
  pub set_system_dns : H → H × Result PlatformError TakeoverState
  pub restore_system_dns : TakeoverState → H → H × Option PlatformError

-- A takeover of settings that are `Ready` and that succeeds is recorded for this platform with a
-- payload that json can express, and restoring from that record, or from one that is read as it,
-- gives the settings back. One that fails leaves the settings as they were.
pub record IsUndoing {H P : Type 0} (json : Json P) (IsText : P → Type 0) (Ready : H → Type 0)
    (pf : Platform H) : Type 0 where
  pub recorded :
      (h g : H) (s : TakeoverState)
      → Ready h
      → pf.set_system_dns h ≡ (g, ok s)
      → (s.platform ≡ pf.name) × ((p : P) × IsText p × (s.payload ≡ json.write_payload p))
  pub undone :
      (h g : H) (s t : TakeoverState)
      → Ready h
      → pf.set_system_dns h ≡ (g, ok s)
      → IsReadAs json s t
      → pf.restore_system_dns t g ≡ (h, none)
  pub kept : (h g : H) (e : PlatformError) → pf.set_system_dns h ≡ (g, err e) → g ≡ h
