-- ===== src/Platform/Linux.antt =====
-- internal/platform/platform_linux.go: taking over the resolver's files, and giving them back.
use true_dns.Base.{
  ℤ, Bool, true, false, ◌||◌, Option, none, some, List, [], ◌∷◌, ◌++◌, if◌then◌else◌,
}
use true_dns.Base.Result.{Result, ok, err}
use true_dns.Text.{Bytes, codes, is_empty, bytes_eq, has_prefix, trim_space}
use true_dns.Text.Lines.{split_lines, join_lines}
use true_dns.Platform.State.{TakeoverState, Json, new_state}
use true_dns.Platform.Interface.{
  Platform, PlatformError, not_root, unread_file, unwritten_file, no_restart, bad_payload,
  no_previous, unknown_manager,
}

-- The settings that the platform reads and writes.
pub record LinuxHost : Type 0 where
  -- the effective user is root
  pub root : Bool
  -- where `/etc/resolv.conf` points to, if it is a link, and whether the stub file exists
  pub link : Option Bytes
  pub stub : Bool
  -- the contents of the drop-in and of `/etc/resolv.conf`; `none` stands for no such file
  pub dropin : Option Bytes
  pub resolv_conf : Option Bytes

-- How `os.WriteFile` goes: it may fail to open the file, or after it has cut it to nothing.
pub data Write : Type 0 where
  done not_opened : Write
  broke_off : Bytes → Write

-- What the system does at the calls of `SetSystemDNS`, and at those of `RestoreSystemDNS`.
pub record LinuxCalls : Type 0 where
  pub now : ℤ
  pub dropin_readable : Bool
  pub dir_made : Bool
  pub dropin_written : Write
  pub restarted : Bool
  pub resolv_readable : Bool
  pub resolv_written : Write
  pub dropin_restored : Write
  pub dropin_removed : Bool
  pub restarted_again : Bool
  pub resolv_restored : Write

-- `linuxPayload`
pub record LinuxPayload : Type 0 where
  pub manager : Bytes
  pub prev_dropin : Bytes
  pub prev_resolv_conf : Bytes

abbrev pub name_linux : Bytes
name_linux = codes "linux"

abbrev pub systemd_resolved : Bytes
systemd_resolved = codes "systemd-resolved"

abbrev pub resolv_conf_manager : Bytes
resolv_conf_manager = codes "resolv.conf"

-- `strings.Contains`
unfoldable pub contains : Bytes → Bytes → Bool
contains [] t = is_empty t
contains (c ∷ s) t = has_prefix (c ∷ s) t || contains s t

abbrev pub links_to_systemd : Option Bytes → Bool
links_to_systemd none = false
links_to_systemd (some target) = contains target (codes "systemd")

-- `usesSystemdResolved`
abbrev pub uses_systemd_resolved : LinuxHost → Bool
uses_systemd_resolved h = links_to_systemd h.link || h.stub

-- `os.ReadFile`, with no content in place of an error
abbrev pub content_of : Bool → Option Bytes → Bytes
content_of readable none = []
content_of false (some text) = []
content_of true (some text) = text

-- `os.WriteFile`: whether it succeeded, and the file
abbrev pub write_file : Write → Bytes → Option Bytes → Bool × Option Bytes
write_file done text file = (true, some text)
write_file not_opened text file = (false, file)
write_file (broke_off part) text file = (false, some part)

abbrev pub newline_text : Bytes
newline_text = b'\n' ∷ []

abbrev pub dropin_text : Bytes
dropin_text =
    codes "# Managed by truedns. Delete this file to restore the previous configuration."
    ++ newline_text
    ++ codes "[Resolve]"
    ++ newline_text
    ++ codes "DNS=127.0.0.1"
    ++ newline_text

abbrev pub first_line : Bytes
first_line =
    codes "# Managed by truedns. Run "
    ++ (b'"' ∷ codes "truedns restore")
    ++ (b'"' ∷ codes " to revert.")

abbrev pub loopback_line : Bytes
loopback_line = codes "nameserver 127.0.0.1"

-- the test for the lines that are left out
abbrev pub is_dropped : Bytes → Bool
is_dropped l = is_empty (trim_space l) || has_prefix (trim_space l) (codes "nameserver")

-- the lines that are kept
unfoldable pub kept_lines : List Bytes → List Bytes
kept_lines [] = []
kept_lines (l ∷ ls) = let rest = kept_lines ls in if is_dropped l then rest else l ∷ rest

-- what is written to `/etc/resolv.conf` in place of `prev`
unfoldable pub takeover_text : Bytes → Bytes
unfolding kept_lines split_lines join_lines
takeover_text prev =
    join_lines (first_line ∷ loopback_line ∷ kept_lines (split_lines prev)) ++ newline_text

module _ (json : Json LinuxPayload) (c : LinuxCalls) where
  -- the takeover by a drop-in of systemd-resolved
  unfoldable pub set_dropin : LinuxHost → LinuxHost × Result PlatformError TakeoverState
  set_dropin h =
      let p : LinuxPayload = record {
        manager = systemd_resolved;
        prev_dropin = content_of c.dropin_readable h.dropin;
        prev_resolv_conf = [];
      } in
      let (written, file) = write_file c.dropin_written dropin_text h.dropin in
      if c.dir_made
      then if written
        then if c.restarted
          then (record h { dropin = file }, ok (new_state json name_linux c.now p))
          else (record h { dropin = file }, err no_restart)
        else (record h { dropin = file }, err unwritten_file)
      else (h, err unwritten_file)

  -- the takeover by the resolver's file with the content `prev`
  abbrev pub replace_resolv_conf :
      LinuxHost → Bytes → LinuxHost × Result PlatformError TakeoverState
  replace_resolv_conf h prev =
      let p : LinuxPayload = record {
        manager = resolv_conf_manager;
        prev_dropin = [];
        prev_resolv_conf = prev;
      } in
      let (written, file) = write_file c.resolv_written (takeover_text prev) h.resolv_conf in
      if written
      then (record h { resolv_conf = file }, ok (new_state json name_linux c.now p))
      else (record h { resolv_conf = file }, err unwritten_file)

  unfoldable pub set_resolv_conf : LinuxHost → LinuxHost × Result PlatformError TakeoverState
  set_resolv_conf h = elim h.resolv_conf [
    | none ↦ (h, err unread_file)
    | some prev ↦ if c.resolv_readable then replace_resolv_conf h prev else (h, err unread_file)
  ]

  -- `SetSystemDNS`
  unfoldable pub set_system_dns : LinuxHost → LinuxHost × Result PlatformError TakeoverState
  unfolding set_dropin set_resolv_conf
  set_system_dns h =
      if h.root
      then if uses_systemd_resolved h then set_dropin h else set_resolv_conf h
      else (h, err not_root)

  -- the drop-in is removed if there was none or an empty one, and written otherwise: whether that
  -- is no error, and the file
  abbrev pub put_dropin_back : Bytes → Option Bytes → Bool × Option Bytes
  put_dropin_back [] file = if c.dropin_removed then (true, none) else (true, file)
  put_dropin_back (b ∷ prev) file = write_file c.dropin_restored (b ∷ prev) file

  unfoldable pub restore_dropin : LinuxPayload → LinuxHost → LinuxHost × Option PlatformError
  restore_dropin p h =
      let (written, file) = put_dropin_back p.prev_dropin h.dropin in
      if written
      then if c.restarted_again
        then (record h { dropin = file }, none)
        else (record h { dropin = file }, some no_restart)
      else (record h { dropin = file }, some unwritten_file)

  unfoldable pub restore_resolv_conf : LinuxPayload → LinuxHost → LinuxHost × Option PlatformError
  restore_resolv_conf p h =
      let (written, file) = write_file c.resolv_restored p.prev_resolv_conf h.resolv_conf in
      if is_empty p.prev_resolv_conf
      then (h, some no_previous)
      else if written
      then (record h { resolv_conf = file }, none)
      else (record h { resolv_conf = file }, some unwritten_file)

  -- the switch over the manager
  unfoldable pub restore_payload : LinuxPayload → LinuxHost → LinuxHost × Option PlatformError
  unfolding restore_dropin restore_resolv_conf
  restore_payload p h =
      if bytes_eq p.manager systemd_resolved
      then restore_dropin p h
      else if bytes_eq p.manager resolv_conf_manager
      then restore_resolv_conf p h
      else (h, some (unknown_manager p.manager))

  -- `RestoreSystemDNS`
  unfoldable pub restore_system_dns : TakeoverState → LinuxHost → LinuxHost × Option PlatformError
  unfolding restore_payload
  restore_system_dns s h =
      if h.root
      then elim (json.read_payload s.payload) [
        | none ↦ (h, some bad_payload)
        | some p ↦ restore_payload p h
      ]
      else (h, some not_root)

  abbrev pub linux : Platform LinuxHost
  linux = record {
    name = name_linux;
    set_system_dns = set_system_dns;
    restore_system_dns = restore_system_dns;
  }
