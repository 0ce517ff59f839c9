-- ===== src/Matcher/Examples.antt =====
-- Runs of the matcher, and its theorems at concrete patterns.
use true_dns.Base.{◌≡◌, ◌≢◌, refl, ◌↔◌, true, false, some, List, [], ◌∷◌}
use true_dns.Base.Result.{ok}
use true_dns.Text.{
  Bytes, codes, to_lower, trim_space, trim_suffix, contains_byte, index_byte, bytes_eq, has_prefix,
  trim_prefix,
}
use true_dns.Matcher.Defs.{
  Matcher, clean_name, invalid_pattern, load, add_pattern, reset, new, match_parents, match_clean,
  match_name, len, member, add_key,
}
use true_dns.Matcher.Sets.{Covered}
use true_dns.Matcher.Laws.{match_name_iff}

program : Unit {0}
unfolding new reset load add_pattern match_name match_clean match_parents len to_lower trim_space
    trim_suffix contains_byte index_byte bytes_eq has_prefix trim_prefix member add_key
program = tt

abbrev patterns : List Bytes
patterns = codes " GitHub.com. " ∷ codes "" ∷ codes "*.fastly.net" ∷ codes "github.com" ∷ []

abbrev demo : Matcher
demo = record {
  roots = codes "github.com" ∷ [];
  wildcard = codes "fastly.net" ∷ [];
  match_all = false;
}

new-patterns : new patterns ≡ ok demo
unfolding program
new-patterns = refl

runs :
    (match_name demo (codes "API.github.com.") ≡ true)
    × (match_name demo (codes "notgithub.com") ≡ false)
    × (match_name demo (codes "fastly.net") ≡ false)
    × (match_name demo (codes "a.b.fastly.net") ≡ true)
    × (match_name demo (codes ".") ≡ false)
    × (len demo ≡ 2)
unfolding program
runs = (refl, refl, refl, refl, refl, refl)

refused :
    reset demo (codes "*" ∷ codes "*.a*b" ∷ []) ≡ (demo, some (invalid_pattern (codes "*.a*b")))
unfolding program
refused = refl

match_name_iff_example : (match_name demo (codes "API.github.com.") ≡ true) ↔ (
    (clean_name (codes "API.github.com.") ≢ [])
    × Covered patterns (clean_name (codes "API.github.com.")))
match_name_iff_example = match_name_iff patterns (codes "API.github.com.") new-patterns
