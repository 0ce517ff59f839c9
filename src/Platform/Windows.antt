-- ===== src/Platform/Windows.antt =====
-- internal/platform/platform_windows.go: taking over the name servers of the adapters in the
-- registry, and giving them back; the servers that are discovered there.
use true_dns.Base.{
  ℤ, ℕ, Bool, true, false, ◌&&◌, ◌||◌, ◌==◌, Option, none, some, List, [], ◌∷◌, ◌++◌, if◌then◌else◌,
}
use true_dns.Base.Result.{Result, ok, err}
use true_dns.Text.{Bytes, codes, bytes_eq, cons_word}
use true_dns.Net.{Net}
use true_dns.Platform.State.{TakeoverState, Json, new_state, load_state}
use true_dns.Platform.Interface.{
  Platform, PlatformError, not_elevated, no_interfaces, unread_names, no_adapters, bad_payload,
  unwritten_adapter,
}
use true_dns.Platform.Address.{adapter_active, normalize_addrs}
use true_dns.Platform.Discover.{or_fallback}

-- The values of an interface's key; `none` stands for a value that is not there.
pub record Adapter : Type 0 where
  pub key : Bytes
  pub name_server : Option Bytes
  pub dhcp_name_server : Option Bytes
  pub ips : List Bytes
  pub dhcp : Bytes

-- What the registry does at the calls of `SetSystemDNS`, and at those of `RestoreSystemDNS`.
pub record WinCalls : Type 0 where
  pub now : ℤ
  pub elevated : Bool
  pub opened : Bool
  pub names_read : Bool
  pub can_open : Bytes → Bool
  pub can_set : Bytes → Bool
  pub opened_again : Bool
  pub can_reopen : Bytes → Bool
  pub can_reset : Bytes → Bool
  pub can_delete : Bytes → Bool

-- `winAdapter`
pub record WinAdapter : Type 0 where
  pub ad_key : Bytes
  pub ad_name_server : Bytes
  pub had_name_server : Bool
  pub ad_dhcp_name_server : Bytes

abbrev pub name_windows : Bytes
name_windows = codes "windows"

abbrev pub loopback : Bytes
loopback = codes "127.0.0.1"

abbrev pub text_of : Option Bytes → Bytes
text_of none = []
text_of (some s) = s

abbrev pub is_there : Option Bytes → Bool
is_there none = false
is_there (some s) = true

-- what is kept of an adapter
abbrev pub saved_adapter : Adapter → WinAdapter
saved_adapter a = record {
  ad_key = a.key;
  ad_name_server = text_of a.name_server;
  had_name_server = is_there a.name_server;
  ad_dhcp_name_server = text_of a.dhcp_name_server;
}

abbrev pub is_active : Adapter → Bool
is_active a = adapter_active a.dhcp a.ips (text_of a.name_server) (text_of a.dhcp_name_server)

-- The adapters after the loop, and what is kept of those that it changed or an error.
abbrev pub Touched : Type 0
Touched = List Adapter × Result PlatformError (List WinAdapter)

-- an adapter that is left as it is, and one that is changed, before the others
abbrev pub keep_adapter : Adapter → Touched → Touched
keep_adapter a (rest, result) = (a ∷ rest, result)

abbrev pub touch_adapter : Adapter → Touched → Touched
touch_adapter a (rest, ok ads) =
    (record a { name_server = some loopback } ∷ rest, ok (saved_adapter a ∷ ads))
touch_adapter a (rest, err e) = (record a { name_server = some loopback } ∷ rest, err e)

abbrev pub put_value : WinAdapter → Bool → Adapter → Adapter
put_value ad can_delete a =
    if ad.had_name_server
    then record a { name_server = some ad.ad_name_server }
    else if can_delete
    then record a { name_server = none }
    else a

-- the adapter with the key is given its value
unfoldable pub put_back : WinAdapter → Bool → List Adapter → List Adapter
put_back ad can_delete [] = []
put_back ad can_delete (a ∷ l) =
    let rest = put_back ad can_delete l in
    if bytes_eq a.key ad.ad_key then put_value ad can_delete a ∷ l else a ∷ rest

module _ (json : Json (List WinAdapter)) (c : WinCalls) where
  -- the loop of `SetSystemDNS`
  unfoldable pub touch_all : List Adapter → Touched
  touch_all [] = ([], ok [])
  touch_all (a ∷ l) =
      let rest = touch_all l in
      if c.can_open a.key && is_active a
      then if c.can_set a.key then touch_adapter a rest else (a ∷ l, err (unwritten_adapter a.key))
      else keep_adapter a rest

  abbrev pub touched_state : Touched → List Adapter × Result PlatformError TakeoverState
  touched_state (l, err e) = (l, err e)
  touched_state (l, ok []) = (l, err no_adapters)
  touched_state (l, ok (ad ∷ ads)) = (l, ok (new_state json name_windows c.now (ad ∷ ads)))

  -- `SetSystemDNS`
  unfoldable pub set_adapters : List Adapter → List Adapter × Result PlatformError TakeoverState
  unfolding touch_all
  set_adapters l =
      if c.elevated
      then if c.opened
        then if c.names_read then touched_state (touch_all l) else (l, err unread_names)
        else (l, err no_interfaces)
      else (l, err not_elevated)

  -- the loop of `RestoreSystemDNS`
  unfoldable pub restore_all : List WinAdapter → List Adapter → List Adapter × Option PlatformError
  unfolding put_back
  restore_all [] l = (l, none)
  restore_all (ad ∷ ads) l =
      let put = restore_all ads (put_back ad (c.can_delete ad.ad_key) l) in
      let skip = restore_all ads l in
      if c.can_reopen ad.ad_key
      then if ad.had_name_server
        then if c.can_reset ad.ad_key then put else (l, some (unwritten_adapter ad.ad_key))
        else put
      else skip

  -- `RestoreSystemDNS`
  unfoldable pub restore_adapters :
      TakeoverState → List Adapter → List Adapter × Option PlatformError
  unfolding restore_all
  restore_adapters s l =
      if c.elevated
      then elim (json.read_payload s.payload) [
        | none ↦ (l, some bad_payload)
        | some ads ↦ if c.opened_again then restore_all ads l else (l, some no_interfaces)
      ]
      else (l, some not_elevated)

  abbrev pub windows : Platform (List Adapter)
  windows = record {
    name = name_windows;
    set_system_dns = set_adapters;
    restore_system_dns = restore_adapters;
  }

-- `splitDNSList`
abbrev pub is_separator : ℕ → Bool
is_separator c = c == b',' || (c == b' ' || c == b'\t')

unfoldable pub split_list : Bytes → Bytes × List Bytes
split_list [] = ([], [])
split_list (c ∷ s) =
    let (w, ws) = split_list s in if is_separator c then ([], cons_word w ws) else (c ∷ w, ws)

unfoldable pub split_dns_list : Bytes → List Bytes
unfolding split_list
split_dns_list v = let (w, ws) = split_list v in cons_word w ws

-- the servers of a state
unfoldable pub saved_lists : List WinAdapter → List Bytes
unfolding split_dns_list
saved_lists [] = []
saved_lists (ad ∷ ads) =
    split_dns_list ad.ad_name_server ++ (split_dns_list ad.ad_dhcp_name_server ++ saved_lists ads)

-- the servers of a key with the two values
abbrev pub key_lists : Option Bytes → Option Bytes → List Bytes
key_lists name_server dhcp_name_server =
    split_dns_list (text_of name_server) ++ split_dns_list (text_of dhcp_name_server)

unfoldable pub live_lists : (Bytes → Bool) → List Adapter → List Bytes
unfolding split_dns_list
live_lists can_open [] = []
live_lists can_open (a ∷ l) =
    let rest = live_lists can_open l in
    if can_open a.key then key_lists a.name_server a.dhcp_name_server ++ rest else rest

module _ (net : Net) (local : Bytes → Bool) where
  -- the servers that a state gives, if it is read
  abbrev pub saved_addrs : Json (List WinAdapter) → Bool → Option Bytes → List Bytes
  saved_addrs json readable file = elim (load_state json name_windows readable file) [
    | err e ↦ []
    | ok st ↦ elim (json.read_payload st.payload) [
      | none ↦ []
      | some ads ↦ normalize_addrs net local (saved_lists ads)
    ]
  ]

  -- what follows when a state gives none
  abbrev pub live_addrs : List Bytes → List Bytes → List Bytes
  live_addrs [] raw = or_fallback net local (normalize_addrs net local raw)
  live_addrs (a ∷ l) raw = a ∷ l

  -- `DiscoverSystemDNS`, with the adapters that can be listed and the values of the parameters' key
  unfoldable pub discover_adapters :
      Json (List WinAdapter)
      → Bool
      → Option Bytes
      → (Bytes → Bool)
      → List Adapter
      → Option Bytes
      → Option Bytes
      → List Bytes
  unfolding saved_lists live_lists
  discover_adapters json readable file can_open l name_server dhcp_name_server =
      live_addrs (saved_addrs json readable file)
        (live_lists can_open l ++ key_lists name_server dhcp_name_server)
