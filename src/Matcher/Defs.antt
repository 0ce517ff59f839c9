-- ===== src/Matcher/Defs.antt =====
-- The state and the operations. The lock of `Matcher` is left out: `Reset` assigns the three
-- fields under it at once, so a `Match` sees the fields from before or from after.
use true_dns.Base.{
  ℕ, zero, suc, ◌+◌, Bool, true, false, ◌||◌, Option, none, some, List, [], ◌∷◌, if◌then◌else◌,
  length, drop,
}
use true_dns.Base.Result.{Result, ok, err, ◌>>=◌}
use true_dns.Text.{
  Bytes, is_empty, bytes_eq, trim_space, to_lower, trim_suffix, has_prefix, trim_prefix,
  contains_byte, index_byte,
}

pub record Matcher : Type 0 where
  pub roots : List Bytes
  pub wildcard : List Bytes
  pub match_all : Bool

pub data PatternError : Type 0 where
  invalid_pattern : Bytes → PatternError
  wildcard_inside : Bytes → PatternError

abbrev pub no_patterns : Matcher
no_patterns = record { roots = []; wildcard = []; match_all = false }

abbrev pub dot : ℕ
dot = b'.'

abbrev pub star : ℕ
star = b'*'

abbrev pub star_dot : Bytes
star_dot = star ∷ dot ∷ []

-- `set[k]`, for a map used as a set
unfoldable pub member : Bytes → List Bytes → Bool
member k [] = false
member k (j ∷ ks) = bytes_eq j k || member k ks

-- `set[k] = true`
unfoldable pub add_key : Bytes → List Bytes → List Bytes
unfolding member
add_key k ks = if member k ks then ks else k ∷ ks

-- the body of the loop of `Reset`, behind the first two tests
unfoldable pub add_entry : Matcher → Bytes → Result PatternError Matcher
add_entry m p =
    if has_prefix p star_dot
    then (let root = trim_prefix p star_dot in
        if is_empty root || contains_byte root star
        then err (invalid_pattern p)
        else ok (record m { wildcard = add_key root m.wildcard }))
    else if contains_byte p star
    then err (wildcard_inside p)
    else ok (record m { roots = add_key p m.roots })

unfoldable pub add_pattern : Matcher → Bytes → Result PatternError Matcher
unfolding add_entry
add_pattern m raw =
    let p = to_lower (trim_space raw) in
    if is_empty p
    then ok m
    else if bytes_eq p (star ∷ [])
    then ok (record m { match_all = true })
    else add_entry m (trim_suffix p dot)

unfoldable pub load : Matcher → List Bytes → Result PatternError Matcher
load m [] = ok m
load m (p ∷ ps) = do m' ← add_pattern m p; load m' ps

-- `Reset`: the new state, and the error
unfoldable pub reset : Matcher → List Bytes → Matcher × Option PatternError
reset m patterns = elim (load no_patterns patterns) [ ok m' ↦ (m', none) | err e ↦ (m, some e) ]

-- `New`
unfoldable pub new : List Bytes → Result PatternError Matcher
new patterns =
    let (m, failed) = reset no_patterns patterns in elim failed [ none ↦ ok m | some e ↦ err e ]

-- the loop of `Match`: each round drops a label, so the length of the name is fuel enough
unfoldable pub match_parents : ℕ → Matcher → Bytes → Bool
match_parents zero m name = false
match_parents (suc fuel) m name = elim (index_byte name dot) [
  | none ↦ false
  | some i ↦
      let parent = drop (suc i) name in
      let rest = match_parents fuel m parent in
      if member parent m.roots || member parent m.wildcard then true else rest
]

abbrev pub clean_name : Bytes → Bytes
clean_name name = trim_suffix (to_lower (trim_space name)) dot

unfoldable pub match_clean : Matcher → Bytes → Bool
match_clean m name =
    if is_empty name
    then false
    else if m.match_all
    then true
    else if member name m.roots
    then true
    else match_parents (length name) m name

-- `Match`
unfoldable pub match_name : Matcher → Bytes → Bool
match_name m name = match_clean m (clean_name name)

-- `Len`
unfoldable pub len : Matcher → ℕ
len m = length m.roots + length m.wildcard + (if m.match_all then 1 else 0)
