-- ===== src/Platform/Discover.antt =====
-- internal/platform/platform_linux.go: `DiscoverSystemDNS`, the upstreams for the names that are
-- not listed.
use true_dns.Base.{Bool, Option, none, some, List, [], ◌∷◌, ◌++◌, if◌then◌else◌}
use true_dns.Base.Result.{ok, err}
use true_dns.Text.{Bytes, codes, is_empty, bytes_eq, has_prefix, trim_prefix, trim_space, fields}
use true_dns.Text.Lines.{split_lines}
use true_dns.Net.{Net}
use true_dns.Platform.State.{Json, load_state}
use true_dns.Platform.Linux.{
  LinuxPayload, name_linux, systemd_resolved, resolv_conf_manager, content_of,
}
use true_dns.Platform.Address.{normalize_addrs, default_fallback_servers}

-- the server of a line of the resolver's file
abbrev pub server_of : List Bytes → List Bytes
server_of (f ∷ server ∷ rest) = if bytes_eq f (codes "nameserver") then server ∷ [] else []
server_of (f ∷ []) = []
server_of [] = []

-- the loop over the lines of the resolver's file
unfoldable pub servers_of : List Bytes → List Bytes
unfolding fields
servers_of [] = []
servers_of (l ∷ ls) = server_of (fields l) ++ servers_of ls

abbrev pub nameservers : Bytes → List Bytes
nameservers content = servers_of (split_lines content)

-- the loop over the lines of a drop-in
unfoldable pub dropin_servers : List Bytes → List Bytes
dropin_servers [] = []
dropin_servers (l ∷ ls) =
    let line = trim_space l in
    let rest = dropin_servers ls in
    if has_prefix line (codes "DNS=")
    then fields (trim_prefix line (codes "DNS=")) ++ rest
    else rest

-- the servers of the drop-in and the content of the resolver's file that a payload gives
unfoldable pub saved_servers : LinuxPayload → Bytes → List Bytes × Bytes
unfolding dropin_servers
saved_servers p content =
    if bytes_eq p.manager resolv_conf_manager
    then ([], if is_empty p.prev_resolv_conf then content else p.prev_resolv_conf)
    else if bytes_eq p.manager systemd_resolved
    then (dropin_servers (split_lines p.prev_dropin), content)
    else ([], content)

-- the same where no state is read
abbrev pub saved_or_live : Json LinuxPayload → Bool → Option Bytes → Bytes → List Bytes × Bytes
saved_or_live json readable file content = elim (load_state json name_linux readable file) [
  | err e ↦ ([], content)
  | ok st ↦ elim (json.read_payload st.payload) [
    | none ↦ ([], content)
    | some p ↦ saved_servers p content
  ]
]

module _ (net : Net) (local : Bytes → Bool) where
  abbrev pub or_fallback : List Bytes → List Bytes
  or_fallback [] = normalize_addrs net local default_fallback_servers
  or_fallback (a ∷ l) = a ∷ l

  -- the servers that are found before they are made normal
  unfoldable pub raw_servers :
      Json LinuxPayload → Bool → Option Bytes → Bool → Option Bytes → List Bytes
  unfolding servers_of saved_servers
  raw_servers json readable file resolv_readable resolv_conf =
      let (raw, content) =
        saved_or_live json readable file (content_of resolv_readable resolv_conf) in
      raw ++ nameservers content

  -- `DiscoverSystemDNS`, with the state file and `/etc/resolv.conf`
  abbrev pub discover_system_dns :
      Json LinuxPayload → Bool → Option Bytes → Bool → Option Bytes → List Bytes
  discover_system_dns json readable file resolv_readable resolv_conf =
      or_fallback
        (normalize_addrs net local (raw_servers json readable file resolv_readable resolv_conf))
