-- ===== src/Schema/Detect.antt =====
-- `schemaVersionLineRe`, `detectSchemaVersion` and the text that `migrateV0toV1` writes.
use true_dns.Base.{
  ℕ, ◌+◌, ◌*◌, ◌-◌, ◌^◌, ◌%◌, Bool, true, false, ◌||◌, ◌&&◌, Option, none, some, List, [], ◌∷◌,
  ◌++◌, if◌then◌else◌, ◌==◌, leb, ltb, ℤ, pos, ◌-ℤ◌,
}
use true_dns.Text.{Bytes, codes, has_prefix, trim_prefix, trim_suffix, bytes_eq, is_empty}
use true_dns.Text.Lines.{split_lines, join_lines}

-- `\s` and `\d`
abbrev pub is_blank : ℕ → Bool
is_blank c = c == b' ' || c == b'\t' || c == b'\n' || c == b'\r' || c == 12

abbrev pub is_digit : ℕ → Bool
is_digit c = leb b'0' c && leb c b'9'

-- the text after `\s*`
unfoldable pub skip_blanks : Bytes → Bytes
skip_blanks [] = []
skip_blanks (c ∷ s) = let rest = skip_blanks s in if is_blank c then rest else c ∷ s

-- the text that `\d*` takes, and the text after it
unfoldable pub take_digits : Bytes → Bytes × Bytes
take_digits [] = ([], [])
take_digits (c ∷ s) =
    let (ds, rest) = take_digits s in if is_digit c then (c ∷ ds, rest) else ([], c ∷ s)

-- a literal text of the pattern, and what follows it
abbrev pub expect : Bytes → Bytes → Option Bytes
expect lit s = if has_prefix s lit then some (trim_prefix s lit) else none

-- the end of the pattern, `(?:#.*)?$`
abbrev pub ends_line : Bytes → Bool
ends_line [] = true
ends_line (c ∷ s) = c == b'#'

-- the group of the pattern, at the text that stands where `\d+` is to match
abbrev pub digits_group : Bytes → Option Bytes
digits_group s =
    let (ds, rest) = take_digits s in
    if is_empty ds then none else if ends_line (skip_blanks rest) then some ds else none

abbrev pub after_name : Option Bytes → Option Bytes
after_name none = none
after_name (some s) = elim (expect (b'=' ∷ []) (skip_blanks s)) [
  | none ↦ none
  | some t ↦ digits_group (skip_blanks t)
]

-- the group of `schemaVersionLineRe` on a line, if it matches. The parts of the pattern that repeat
-- can be taken as far as they go, since what follows each of them cannot begin with such a character.
unfoldable pub version_group : Bytes → Option Bytes
unfolding skip_blanks take_digits
version_group line = after_name (expect (codes "schema_version") (skip_blanks line))

-- the group on a line as it is read, without a final carriage return
abbrev pub line_group : Bytes → Option Bytes
line_group line = version_group (trim_suffix line b'\r')

-- `v = v*10 + int(c-'0')`, in 64 bits
unfoldable pub digits_value : ℕ → Bytes → ℕ
digits_value v [] = v
digits_value v (c ∷ ds) = digits_value ((v * 10 + (c - b'0')) % 2 ^ 64) ds

-- a word of 64 bits as an `int`
abbrev pub int_of : ℕ → ℤ
int_of n = if ltb n (2 ^ 63) then pos n else pos n -ℤ pos (2 ^ 64)

-- the group of the first line that matches
unfoldable pub first_group : List Bytes → Option Bytes
unfolding version_group
first_group [] = none
first_group (l ∷ ls) = elim (line_group l) [ some ds ↦ some ds | none ↦ first_group ls ]

abbrev pub version_of : Option Bytes → ℤ
version_of none = pos 0
version_of (some ds) = int_of (digits_value 0 ds)

-- `detectSchemaVersion`
unfoldable pub detect_schema_version : Bytes → ℤ
unfolding first_group digits_value
detect_schema_version text = version_of (first_group (split_lines text))

abbrev pub stamped_line : Bytes
stamped_line = codes "schema_version = 1"

abbrev pub is_zero : Option Bytes → Bool
is_zero none = false
is_zero (some ds) = bytes_eq ds (b'0' ∷ [])

-- the loop that rewrites the first line with the version 0; none if there is no such line
unfoldable pub stamp_lines : List Bytes → Option (List Bytes)
unfolding version_group
stamp_lines [] = none
stamp_lines (l ∷ ls) =
    if is_zero (line_group l)
    then some (stamped_line ∷ ls)
    else elim (stamp_lines ls) [ none ↦ none | some ks ↦ some (l ∷ ks) ]

abbrev pub stamp_comment : Bytes
stamp_comment = codes "# schema_version: managed by true-dns, do not edit"

-- the stamp that is put before a text without such a line
abbrev pub stamp : Bytes
stamp = stamp_comment ++ (b'\n' ∷ (stamped_line ++ (b'\n' ∷ b'\n' ∷ [])))

-- the text that `migrateV0toV1` writes
unfoldable pub migrate_text : Bytes → Bytes
unfolding stamp_lines join_lines split_lines
migrate_text text = elim (stamp_lines (split_lines text)) [
  | some ls ↦ join_lines ls
  | none ↦ stamp ++ text
]
