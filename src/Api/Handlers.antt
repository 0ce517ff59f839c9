-- ===== src/Api/Handlers.antt =====
-- The endpoints of the control API. The routing of net/http is the choice of the endpoint.
use true_dns.Base.{ℕ, Bool, true, ◌||◌, Option, none, some, List, if◌then◌else◌}
use true_dns.Base.Result.{Result, ok, err}
use true_dns.Text.{Bytes, is_empty, bytes_eq}
use true_dns.Net.{Net}
use true_dns.Cache
use true_dns.Override.{Table}
use true_dns.Config.Defs.{Config}
use true_dns.Core.Build.{BuildError, Running, Reloaded, accepted, refused, panicked, reload}

-- the patterns that `New` registers
pub data Endpoint : Type 0 where
  healthz status flush reload_config shutdown : Endpoint

pub record Request : Type 0 where
  -- the header `X-TrueDNS-Token` and the parameter `token`, empty if they are not there
  pub header_token : Bytes
  pub query_token : Bytes

pub data ReloadError : Type 0 where
  -- the error of `config.Load`
  not_loaded : Bytes → ReloadError
  not_reloaded : BuildError → ReloadError

-- how the reload function ends
pub data ReloadEnd : Type 0 where
  done died : ReloadEnd
  failed : ReloadError → ReloadEnd

-- What is written: `http.Error` with a status, or a body with the status 200. A handler that panics
-- writes nothing, and net/http closes the connection.
pub data Reply : Type 0 where
  broken_off : Reply
  alive unauthorized flushed reloaded stopping reload_unavailable shutdown_unavailable : Reply
  running : Running → Bool → Reply
  reload_failed : ReloadError → Reply

-- 0 if there is none
abbrev pub status_of : Reply → ℕ
status_of broken_off = 0
status_of unauthorized = 401
status_of reload_unavailable = 501
status_of shutdown_unavailable = 501
status_of (reload_failed e) = 500
status_of r = 200

pub record Server : Type 0 where
  pub token : Bytes
  pub reload_fn : Option (Running → Running × ReloadEnd)
  -- `shutdownFn` is registered, and so is `extraFn`
  pub has_shutdown : Bool
  pub has_extra : Bool

-- What the handlers change: the engine, and whether the shutdown is called.
pub record State : Type 0 where
  pub engine : Running
  pub stopped : Bool

-- the request passes `auth`
abbrev pub is_authorized : Server → Request → Bool
is_authorized s r =
    is_empty s.token || (bytes_eq r.header_token s.token || bytes_eq r.query_token s.token)

abbrev pub auth : Server → Request → State → State × Reply → State × Reply
auth s r st next = if is_authorized s r then next else (st, unauthorized)

abbrev pub handle_status : Server → State → State × Reply
handle_status s st = (st, running st.engine s.has_extra)

abbrev pub handle_flush : State → State × Reply
handle_flush st =
    let e = st.engine in (record st { engine = record e { cache = Cache.flush e.cache } }, flushed)

abbrev pub reload_reply : ReloadEnd → Reply
reload_reply done = reloaded
reload_reply died = broken_off
reload_reply (failed e) = reload_failed e

abbrev pub handle_reload : Server → State → State × Reply
handle_reload s st = elim s.reload_fn [
  | none ↦ (st, reload_unavailable)
  | some f ↦ let (e, end) = f st.engine in (record st { engine = e }, reload_reply end)
]

abbrev pub handle_shutdown : Server → State → State × Reply
handle_shutdown s st =
    if s.has_shutdown then (record st { stopped = true }, stopping) else (st, shutdown_unavailable)

-- the handlers as `New` registers them
unfoldable pub handle : Server → Endpoint → Request → State → State × Reply
handle s healthz r st = (st, alive)
handle s status r st = auth s r st (handle_status s st)
handle s flush r st = auth s r st (handle_flush st)
handle s reload_config r st = auth s r st (handle_reload s st)
handle s shutdown r st = auth s r st (handle_shutdown s st)

abbrev pub reload_end : Reloaded → ReloadEnd
reload_end accepted = done
reload_end panicked = died
reload_end (refused e) = failed (not_reloaded e)

-- the reload function that `startProxy` gives: `loaded` is what `config.Load` gives
unfoldable pub reload_from :
    Net
    → (Bytes → Option Bytes)
    → Result Bytes Config
    → List Bytes
    → Table
    → Running
    → Running × ReloadEnd
unfolding reload
reload_from net scheme (err e) discovered t engine = (engine, failed (not_loaded e))
reload_from net scheme (ok c) discovered t engine =
    let (next, end) = reload net scheme c discovered t engine in (next, reload_end end)
