-- ===== src/Platform/Examples.antt =====
-- Takeovers of small systems, and the theorems at these systems.
use true_dns.Base.{
  ◌≡◌, ◌↔◌, refl, Bool, true, false, none, some, List, [], ◌∷◌, ◌++◌, pos, length, In, arith,
}
use true_dns.Base.Result.{Result, ok, err}
use true_dns.Text.{
  Bytes, codes, is_empty, bytes_eq, trim_space, trim_brackets, has_prefix, contains_byte,
}
use true_dns.Text.Lines.{join_lines}
use true_dns.Matcher.{member}
use true_dns.Resolver.Address.{add_port, append_port}
use true_dns.Net.{Net}
use true_dns.Platform.State.{TakeoverState}
use true_dns.Platform.Commands.{Session, Files, cmd_restore, cmd_setup, run_start}
use true_dns.Platform.Sessions.{AreGood, Runs, no_command, setup, killed, cmd_restore-Runs}
use true_dns.Platform.Linux.{LinuxHost, LinuxCalls, done, linux, set_system_dns, restore_system_dns}
use true_dns.Platform.Undo.{
  WillRestore, IsText, IsReady, restore_system_dns-set_system_dns, linux-IsUndoing,
}
use true_dns.Platform.Effects.{WillTake}
use true_dns.Platform.Linux.{takeover_text}
use true_dns.Platform.Discover.{nameservers}
use true_dns.Platform.Again.{restore_system_dns_again}
use true_dns.Platform.Address.{normalize_addrs, normalize_from, normal_addr, IsRemote, has_address}
use true_dns.Platform.Normal.{IsUnique, normalize_addrs_iff}
use true_dns.Base.{◌==◌}
use true_dns.Platform.Windows.{
  Adapter, WinAdapter, WinCalls, set_adapters, restore_adapters, touch_all,
}
use true_dns.Platform.Adapters.{WillRestoreAdapters, restore_adapters-set_adapters}
use true_dns.Platform.Frames.{json, json-IsFaithful, any, win_json, win_json-IsFaithful, IsOne}

abbrev calls : LinuxCalls
calls = record {
  now = pos 0;
  dropin_readable = true;
  dir_made = true;
  dropin_written = done;
  restarted = true;
  resolv_readable = true;
  resolv_written = done;
  dropin_restored = done;
  dropin_removed = true;
  restarted_again = true;
  resolv_restored = done;
}

calls_restore : WillRestore calls
calls_restore = record {
  readable = refl;
  restored = refl;
  removed = refl;
  restarted = refl;
  resolv_restored = refl;
}

calls_take : WillTake calls
calls_take = record { dropin_written = refl; restarted = refl; resolv_written = refl }

abbrev home : LinuxHost
home = record {
  root = true;
  link = none;
  stub = false;
  dropin = none;
  resolv_conf = some (codes "search lan" ++ (b'\n' ∷ codes "nameserver 10.0.0.1"));
}

home-IsReady : IsReady any home
home-IsReady = (ground arith, ground arith, (λ s e. refl), λ s e. refl)

abbrev after_of : {H : Type 0} {E A : Type 0} → H × Result E A → H
after_of r = r.0

abbrev state_of : {H E : Type 0} → TakeoverState → H × Result E TakeoverState → TakeoverState
state_of s (h, ok t) = t
state_of s (h, err e) = s

abbrev no_state : TakeoverState
no_state = record { tool = []; version = []; platform = []; taken_at = pos 0; payload = [] }

abbrev home_taken : LinuxHost
home_taken = after_of (set_system_dns json calls home)

abbrev home_state : TakeoverState
home_state = state_of no_state (set_system_dns json calls home)

home_ran : set_system_dns json calls home ≡ (home_taken, ok home_state)
unfolding set_system_dns
home_ran = refl

restore_system_dns-set_system_dns_example :
    restore_system_dns json calls home_state home_taken ≡ (home, none)
restore_system_dns-set_system_dns_example =
    restore_system_dns-set_system_dns json calls any refl json-IsFaithful calls_restore home
      home_taken home_state home_state home-IsReady home_ran (refl, refl)

abbrev files : Files
files = record {
  readable = true;
  saving = record { dir_made = true; tmp_written = true; renamed = true };
  removed = true;
}

files-AreGood : AreGood files
files-AreGood = (refl, refl, refl, refl, refl)

-- A run is killed, and `setup` is tried after it.
abbrev crashed : Session LinuxHost
crashed =
    (cmd_setup json (linux json calls) files false
      (run_start json (linux json calls) files (record { host = home; file = none })).0).0

crashed-Runs :
    Runs json
      (linux json calls)
      files
      (IsText any)
      (IsReady any)
      (record { host = home; file = none })
      crashed
crashed-Runs = setup (killed no_command refl)

cmd_restore-Runs_example :
    (cmd_restore json (linux json calls) files crashed).0 ≡ record { host = home; file = none }
cmd_restore-Runs_example =
    cmd_restore-Runs json (linux json calls) files (IsText any) (IsReady any) files-AreGood
      json-IsFaithful (linux-IsUndoing json calls any refl json-IsFaithful calls_restore calls_take)
      home home-IsReady crashed-Runs

-- Two takeovers of one system.
home_taken-IsReady : IsReady any home_taken
unfolding set_system_dns takeover_text join_lines
home_taken-IsReady = (ground arith, ground arith, (λ s e. refl), λ s e. refl)

abbrev home_twice : LinuxHost
home_twice = after_of (set_system_dns json calls home_taken)

abbrev state_twice : TakeoverState
state_twice = state_of no_state (set_system_dns json calls home_taken)

home_ran_twice : set_system_dns json calls home_taken ≡ (home_twice, ok state_twice)
unfolding set_system_dns
home_ran_twice = refl

restore_system_dns_again_example :
    (restore_system_dns json calls state_twice home_twice ≡ (home_taken, none))
    × ((text : Bytes) × (home_taken.resolv_conf ≡ some text)
        × (nameservers text ≡ codes "127.0.0.1" ∷ []))
restore_system_dns_again_example =
    restore_system_dns_again json calls any refl json-IsFaithful calls_restore home home_taken
      home_twice home_state state_twice state_twice refl home_taken-IsReady home_ran home_ran_twice
      (refl, refl)

abbrev net : Net
net = record {
  parse_ip = λ s. some s;
  ip_string = λ ip. ip;
  split_host_port = λ s. none;
  join_host_port = λ h p. h;
  is_v4 = λ ip. length ip == 4;
  ip_equal = bytes_eq;
  is_loopback = λ ip. bytes_eq ip (codes "127.0.0.1");
  is_unspecified = λ ip. false;
  to4 = λ ip. ip;
  to16 = λ ip. ip;
  parse_cidr = λ s. none;
}

abbrev own : Bytes → Bool
own ip = bytes_eq ip (codes "10.0.0.7")

abbrev given : List Bytes
given = codes "127.0.0.1" ∷ codes "10.0.0.7" ∷ codes "1.1.1.1" ∷ codes "1.1.1.1" ∷ []

normalize_addrs_iff_example :
    IsUnique (normalize_addrs net own given)
    × ((b : Bytes)
        → In b (normalize_addrs net own given)
          ↔ ((a : Bytes) × In a given × (is_empty (trim_space a) ≡ false) × IsRemote net own a b))
normalize_addrs_iff_example = normalize_addrs_iff net own given

kept_run : normalize_addrs net own given ≡ codes "1.1.1.1" ∷ []
unfolding normalize_from normal_addr bytes_eq trim_space trim_brackets add_port append_port
    has_prefix contains_byte member
kept_run = refl

abbrev win_calls : WinCalls
win_calls = record {
  now = pos 0;
  elevated = true;
  opened = true;
  names_read = true;
  can_open = any;
  can_set = any;
  opened_again = true;
  can_reopen = any;
  can_reset = any;
  can_delete = any;
}

win_calls_restore : WillRestoreAdapters win_calls
win_calls_restore = record {
  opened = refl;
  reopened = λ k. refl;
  reset = λ k. refl;
  deleted = λ k. refl;
}

-- an adapter with a static server, and one without any configuration
abbrev adapters : List Adapter
adapters =
    record {
      key = codes "a";
      name_server = some (codes "10.0.0.1");
      dhcp_name_server = none;
      ips = [];
      dhcp = codes "1";
    }
    ∷ record { key = codes "b"; name_server = none; dhcp_name_server = none; ips = []; dhcp = [] }
    ∷ []

abbrev adapters_taken : List Adapter
adapters_taken = after_of (set_adapters win_json win_calls adapters)

abbrev adapters_state : TakeoverState
adapters_state = state_of no_state (set_adapters win_json win_calls adapters)

adapters_ran : set_adapters win_json win_calls adapters ≡ (adapters_taken, ok adapters_state)
unfolding set_adapters touch_all trim_space bytes_eq has_address
adapters_ran = refl

adapters-IsOne :
    (m : List Adapter) (ads : List WinAdapter)
    → touch_all win_json win_calls adapters ≡ (m, ok ads)
    → IsOne ads
unfolding touch_all trim_space bytes_eq has_address
adapters-IsOne m ads e = (codes "a", codes "10.0.0.1", ground arith)

restore_adapters-set_adapters_example :
    restore_adapters win_json win_calls adapters_state adapters_taken ≡ (adapters, none)
unfolding bytes_eq
restore_adapters-set_adapters_example =
    restore_adapters-set_adapters win_json win_calls win_calls_restore IsOne win_json-IsFaithful
      adapters adapters_taken adapters_state adapters_state ((refl, tt), (tt, tt)) adapters-IsOne
      adapters_ran (refl, refl)
