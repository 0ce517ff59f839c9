-- ===== src/Override/Defs.antt =====
-- The table and its operations. A Go map is an association list; `range` over one may take any
-- order, and every result that depends on an order is sorted. A reader is what `bufio.Scanner`
-- makes of it: its lines, and whether it was read to the end without an error.
use true_dns.Base.{
  ℕ, ◌+◌, Bool, true, false, ◌||◌, ◌&&◌, Option, none, some, List, [], ◌∷◌, ◌++◌, ◌==◌, ltb,
  if◌then◌else◌, length, take, ℤ,
}
use true_dns.Text.{
  Bytes, is_empty, bytes_eq, trim_space, to_lower, trim_suffix, has_prefix, index_byte, fields,
}
use true_dns.Dns.{Ip}
use true_dns.Net.{Net}

-- a source's hostnames with their addresses
abbrev pub Hosts : Type 0
Hosts = List (Bytes × List Ip)

pub record Meta : Type 0 where
  pub source_names : List Bytes
  pub entries : ℕ
  pub updated_at : ℤ
  pub last_error : Bytes

pub record Table : Type 0 where
  pub sources : List (Bytes × Hosts)
  pub meta : Meta

-- `m[k]`
unfoldable pub get_key : {V : Type 0} → Bytes → List (Bytes × V) → Option V
get_key k [] = none
get_key k ((j, v) ∷ m) = if bytes_eq j k then some v else get_key k m

-- `m[k] = v`
unfoldable pub set_key : {V : Type 0} → Bytes → V → List (Bytes × V) → List (Bytes × V)
set_key k v [] = (k, v) ∷ []
set_key k v ((j, w) ∷ m) = if bytes_eq j k then (j, v) ∷ m else (j, w) ∷ set_key k v m

abbrev pub or_nil : Option (List Ip) → List Ip
or_nil none = []
or_nil (some ips) = ips

abbrev pub ips_at : Bytes → Hosts → List Ip
ips_at name hosts = or_nil (get_key name hosts)

-- `m[s][name]`, from `m[s]`
abbrev pub source_ips : Bytes → Option Hosts → List Ip
source_ips name none = []
source_ips name (some hosts) = ips_at name hosts

-- `name` as `loadSource` and `Lookup` bring it into form
abbrev pub clean_host : Bytes → Bytes
clean_host name = to_lower (trim_suffix (trim_space name) b'.')

-- `less` of `sort.Strings`: byte by byte
unfoldable pub bytes_lt : Bytes → Bytes → Bool
bytes_lt [] [] = false
bytes_lt [] (d ∷ t) = true
bytes_lt (c ∷ s) [] = false
bytes_lt (c ∷ s) (d ∷ t) = ltb c d || (c == d && bytes_lt s t)

unfoldable pub insert_name : Bytes → List Bytes → List Bytes
insert_name x [] = x ∷ []
insert_name x (y ∷ ys) = if bytes_lt y x then y ∷ insert_name x ys else x ∷ y ∷ ys

-- `sort.Strings`
unfoldable pub sort_names : List Bytes → List Bytes
unfolding insert_name bytes_lt
sort_names [] = []
sort_names (x ∷ xs) = insert_name x (sort_names xs)

abbrev pub names_of : {V : Type 0} → List (Bytes × V) → List Bytes
names_of [] = []
names_of ((k, v) ∷ m) = k ∷ names_of m

abbrev pub total_hosts : List (Bytes × Hosts) → ℕ
total_hosts [] = 0
total_hosts ((s, hosts) ∷ rest) = length hosts + total_hosts rest

-- `New`
abbrev pub new : Table
new = record {
  sources = [];
  meta = record { source_names = []; entries = 0; updated_at = ℤ.pos 0; last_error = [] };
}

-- `refreshMetaLocked` at time `now`
unfoldable pub refresh_meta : ℤ → Table → Table
refresh_meta now t = record t {
  meta = record {
    source_names = sort_names (names_of t.sources);
    entries = total_hosts t.sources;
    updated_at = now;
    last_error = t.meta.last_error;
  };
}

-- `recordError` and `clearError`
abbrev pub record_error : Bytes → Table → Table
record_error e t = record t {
  meta = record {
    source_names = t.meta.source_names;
    entries = t.meta.entries;
    updated_at = t.meta.updated_at;
    last_error = e;
  };
}

abbrev pub clear_error : Table → Table
clear_error = record_error []

module _ (net : Net) where
  -- `containsIP`
  unfoldable pub contains_ip : List Ip → Ip → Bool
  contains_ip [] ip = false
  contains_ip (p ∷ ips) ip = net.ip_equal p ip || contains_ip ips ip

  -- the two `append` guarded by `containsIP`
  unfoldable pub add_ip : List Ip → Ip → List Ip
  unfolding contains_ip
  add_ip ips ip = if contains_ip ips ip then ips else ips ++ (ip ∷ [])

  -- the body of the loop over the names of a line
  unfoldable pub add_host : Ip → Bytes → Hosts → Hosts
  unfolding add_ip
  add_host ip raw hosts =
      let name = clean_host raw in
      if is_empty name
      then hosts
      else if contains_ip (ips_at name hosts) ip
      then hosts
      else set_key name (ips_at name hosts ++ (ip ∷ [])) hosts

  unfoldable pub add_names : Ip → List Bytes → Hosts → Hosts
  add_names ip [] hosts = hosts
  add_names ip (name ∷ names) hosts = add_names ip names (add_host ip name hosts)

  -- a line without its comment
  abbrev pub cut_comment : Bytes → Bytes
  cut_comment line = elim (index_byte line b'#') [ none ↦ line | some i ↦ trim_space (take i line) ]

  abbrev pub add_fields : List Bytes → Hosts → Hosts
  add_fields [] hosts = hosts
  add_fields (f ∷ []) hosts = hosts
  add_fields (f ∷ name ∷ names) hosts = elim (net.parse_ip f) [
    | none ↦ hosts
    | some ip ↦ add_names ip (name ∷ names) hosts
  ]

  -- the body of the loop over the lines
  unfoldable pub add_line : Bytes → Hosts → Hosts
  unfolding add_names
  add_line raw hosts =
      let line = trim_space raw in
      if is_empty line || has_prefix line (b'#' ∷ [])
      then hosts
      else add_fields (fields (cut_comment line)) hosts

  unfoldable pub parse_lines : List Bytes → Hosts → Hosts
  parse_lines [] hosts = hosts
  parse_lines (l ∷ ls) hosts = parse_lines ls (add_line l hosts)

  -- `loadSource`: the table, the number of hostnames, and whether there was no error. The text of
  -- the error is an argument.
  unfoldable pub load_source : ℤ → Bytes → Bytes → List Bytes → Bool → Table → Table × ℕ × Bool
  load_source now e src lines complete t =
      let parsed = parse_lines lines [] in
      if complete
      then (
        refresh_meta now (record t { sources = set_key src parsed t.sources }),
        length parsed,
        true,
      )
      else (record_error e (refresh_meta now t), length parsed, false)

  -- the addresses of one source that `Lookup` adds
  unfoldable pub merge_ips : List Ip → List Ip → List Ip
  merge_ips out [] = out
  merge_ips out (ip ∷ ips) = merge_ips (add_ip out ip) ips

  unfoldable pub merge_sources : Bytes → List (Bytes × Hosts) → List Ip → List Bytes → List Ip
  merge_sources name sources out [] = out
  merge_sources name sources out (s ∷ srcs) =
      merge_sources name sources (merge_ips out (source_ips name (get_key s sources))) srcs

  -- `Lookup`
  unfoldable pub lookup : Table → Bytes → List Ip
  lookup t raw = merge_sources (clean_host raw) t.sources [] (sort_names (names_of t.sources))
