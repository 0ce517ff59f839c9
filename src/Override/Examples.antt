-- ===== src/Override/Examples.antt =====
-- Runs of the table, and its theorems at a concrete hosts file.
use true_dns.Base.{
  ◌≡◌, refl, true, false, Option, none, some, List, [], ◌∷◌, ◌==◌, if◌then◌else◌, inl, inr, ℤ, In,
  subst, Bool-cases,
}
use true_dns.Text.{
  Bytes, codes, bytes_eq, bytes_eq_iff, trim_space, has_prefix, fields, index_byte, to_lower,
  trim_suffix,
}
use true_dns.Dns.{Ip}
use true_dns.Net.{Net}
use true_dns.Override.Defs.{
  Hosts, Table, get_key, contains_ip, ips_at, clean_host, new, parse_lines, load_source, lookup,
  merge_sources, sort_names, refresh_meta, set_key, merge_ips, add_line, add_host,
}
use true_dns.Override.Hosts.{Unique}
use true_dns.Override.Lookups.{lookup_merges}

-- An address is a text that starts with a digit.
abbrev parse_digits : Bytes → Option Ip
parse_digits [] = none
parse_digits (c ∷ s) = if c == b'1' then some (c ∷ s) else none

abbrev net : Net
net = record {
  parse_ip = parse_digits;
  ip_string = λ ip. ip;
  split_host_port = λ s. none;
  join_host_port = λ h p. h;
  is_v4 = λ ip. true;
  ip_equal = bytes_eq;
  is_loopback = λ ip. false;
  is_unspecified = λ ip. false;
  to4 = λ ip. ip;
  to16 = λ ip. ip;
  parse_cidr = λ s. none;
}

abbrev hosts_lines : List Bytes
hosts_lines =
    codes "# local"
    ∷ codes "1.2 A.b. c # two names"
    ∷ codes "1.3 a.b"
    ∷ codes "1.2 a.B"
    ∷ codes "x.y a.b"
    ∷ []

abbrev loaded : Table
loaded = (load_source net (ℤ.pos 5) [] (codes "f") hosts_lines true new).0

lookup_run :
    (lookup net loaded (codes " A.B. ") ≡ codes "1.2" ∷ codes "1.3" ∷ [])
    × (lookup net loaded (codes "c") ≡ codes "1.2" ∷ [])
    × (lookup net loaded (codes "d") ≡ [])
    × (loaded.meta.entries ≡ 2)
unfolding lookup load_source merge_sources sort_names refresh_meta set_key merge_ips get_key
    bytes_eq parse_lines add_line trim_space has_prefix fields index_byte add_host to_lower
    trim_suffix
lookup_run = (refl, refl, refl, refl)

reflexive : (q : Ip) → net.ip_equal q q ≡ true
reflexive q = (bytes_eq_iff q q).1 refl

lookup_merges_example :
    Unique net (lookup net loaded (codes "a.b"))
    × ((q : Ip)
        → In q (lookup net loaded (codes "a.b"))
        → (s : Bytes) × (hosts : Hosts) × (get_key s loaded.sources ≡ some hosts)
          × In q (ips_at (clean_host (codes "a.b")) hosts))
    × ((q : Ip) (s : Bytes) (hosts : Hosts)
        → get_key s loaded.sources ≡ some hosts
        → In q (ips_at (clean_host (codes "a.b")) hosts)
        → contains_ip net (lookup net loaded (codes "a.b")) q ≡ true)
lookup_merges_example = lookup_merges net loaded (codes "a.b") reflexive

abbrev f_hosts : Hosts
f_hosts = (codes "a.b", codes "1.2" ∷ []) ∷ []

abbrev g_hosts : Hosts
g_hosts = (codes "a.b", codes "1.3" ∷ []) ∷ []

-- two maps with the same entries in another order
abbrev one_way : Table
one_way = record new { sources = (codes "f", f_hosts) ∷ (codes "g", g_hosts) ∷ [] }

abbrev other_way : Table
other_way = record new { sources = (codes "g", g_hosts) ∷ (codes "f", f_hosts) ∷ [] }

at_f : get_key (codes "f") one_way.sources ≡ get_key (codes "f") other_way.sources
unfolding get_key bytes_eq
at_f = refl

same_entries : (s : Bytes) → get_key s one_way.sources ≡ get_key s other_way.sources
unfolding get_key
same_entries s = elim (Bool-cases (bytes_eq (codes "f") s)) [
  | inl b ↦
      subst (λ t. get_key t one_way.sources ≡ get_key t other_way.sources)
        ((bytes_eq_iff (codes "f") s).0 b) at_f
  | inr b ↦ rw b refl
]
