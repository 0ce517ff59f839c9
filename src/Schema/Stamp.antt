-- ===== src/Schema/Stamp.antt =====
-- What a migration changes in the text: one line, or three lines at the front.
use true_dns.Base.{
  ◌≡◌, refl, inl, inr, ◌⊎◌, true, Option, none, some, List, [], ◌∷◌, ◌++◌, arith, Bool-cases,
  Option-cases, All, ap, ◌∙◌, sym, pos, subst,
}
use true_dns.Text.{Bytes, bytes_eq_iff, trim_suffix, has_prefix, trim_prefix}
use true_dns.Text.Lines.{
  split_lines, join_lines, IsLine, split_lines-IsLine, split_lines-append, split_lines-join_lines,
}
use true_dns.Schema.Detect.{
  line_group, version_group, first_group, stamp_lines, migrate_text, stamped_line, stamp_comment,
  is_zero, detect_schema_version, skip_blanks, take_digits, digits_value, version_of,
}

-- The lines agree but for one, which had the version 0 and is stamped.
abbrev pub IsRestamped : List Bytes → List Bytes → Type 0
IsRestamped ls ks =
    (pre : List Bytes) × (old : Bytes) × (post : List Bytes) × (ls ≡ pre ++ (old ∷ post))
    × (ks ≡ pre ++ (stamped_line ∷ post))
    × (line_group old ≡ some (b'0' ∷ []))

zero_group : (o : Option Bytes) → is_zero o ≡ true → o ≡ some (b'0' ∷ [])
zero_group none h = cc
zero_group (some ds) h = ap some ((bytes_eq_iff ds (b'0' ∷ [])).0 h)

stamp_lines-IsRestamped :
    (ls : List Bytes) {ks : List Bytes} → stamp_lines ls ≡ some ks → IsRestamped ls ks
unfolding stamp_lines
stamp_lines-IsRestamped [] h = cc
stamp_lines-IsRestamped (l ∷ ls) {ks} h = elim (Bool-cases (is_zero (line_group l))) [
  | inl b ↦
      let same : stamped_line ∷ ls ≡ ks = ground arith in
      ([], l, ls, refl, sym same, zero_group (line_group l) b)
  | inr b ↦ elim (Option-cases (stamp_lines ls)) [
    | inl e ↦ ground arith
    | inr (js, e) ↦
        let (pre, old, post, before, after, zero) = stamp_lines-IsRestamped ls e in
        let same : l ∷ js ≡ ks = ground arith in
        (l ∷ pre, old, post, ap (◌∷◌ l) before, sym same ∙ ap (◌∷◌ l) after, zero)
  ]
]

stamped_line-IsLine : IsLine stamped_line
stamped_line-IsLine = ground arith

stamp_comment-IsLine : IsLine stamp_comment
stamp_comment-IsLine = ground arith

stamp_lines-IsLine :
    (ls : List Bytes) {ks : List Bytes}
    → All IsLine ls
    → stamp_lines ls ≡ some ks
    → (k : Bytes) × (js : List Bytes) × (ks ≡ k ∷ js) × All IsLine (k ∷ js)
unfolding stamp_lines
stamp_lines-IsLine [] a h = cc
stamp_lines-IsLine (l ∷ ls) {ks} a h = elim (Bool-cases (is_zero (line_group l))) [
  | inl b ↦
      let same : stamped_line ∷ ls ≡ ks = ground arith in
      (stamped_line, ls, sym same, (stamped_line-IsLine, a.1))
  | inr b ↦ elim (Option-cases (stamp_lines ls)) [
    | inl e ↦ ground arith
    | inr (js, e) ↦
        let (k, is, split, all) = stamp_lines-IsLine ls a.1 e in
        let same : l ∷ js ≡ ks = ground arith in
        (l, js, sym same, (a.0, subst (All IsLine) (sym split) all))
  ]
]

-- The lines of the text that is written are those that the migration made.
split_lines-migrate_text :
    (text : Bytes)
    → ((ks : List Bytes) × (stamp_lines (split_lines text) ≡ some ks)
        × (split_lines (migrate_text text) ≡ ks))
      ⊎ ((stamp_lines (split_lines text) ≡ none)
          × (split_lines (migrate_text text)
              ≡ stamp_comment ∷ stamped_line ∷ [] ∷ split_lines text))
unfolding migrate_text
split_lines-migrate_text text = elim (Option-cases (stamp_lines (split_lines text))) [
  | inr (ks, e) ↦
      let (k, js, shape, all) = stamp_lines-IsLine (split_lines text) (split_lines-IsLine text) e in
      let written : split_lines (join_lines ks) ≡ ks =
        ap (λ x. split_lines (join_lines x)) shape ∙ split_lines-join_lines k js all ∙ sym shape in
      inl (ks, e, rw (e, migrate_text) written)
  | inl e ↦ inr (
    e,
    rw (e, migrate_text)
        (split_lines-append stamp_comment (stamped_line ++ (b'\n' ∷ b'\n' ∷ text))
            stamp_comment-IsLine
          ∙ ap (◌∷◌ stamp_comment) (
              split_lines-append stamped_line (b'\n' ∷ text) stamped_line-IsLine
              ∙ ap (◌∷◌ stamped_line) (split_lines-append [] text tt))),
  )
]

-- A migration keeps every line of the file: it stamps one line that had the version 0, or puts
-- three lines before the others.
pub migrate_text_keeps :
    (text : Bytes)
    → IsRestamped (split_lines text) (split_lines (migrate_text text))
      ⊎ (split_lines (migrate_text text) ≡ stamp_comment ∷ stamped_line ∷ [] ∷ split_lines text)
migrate_text_keeps text = elim (split_lines-migrate_text text) [
  | inl (ks, e, same) ↦ inl (
      subst (IsRestamped (split_lines text)) (sym same)
        (stamp_lines-IsRestamped (split_lines text) e))
  | inr (e, same) ↦ inr same
]

-- No line of the file has a version, or the first that has one has the digit 0 alone.
abbrev pub IsLegacy : Option Bytes → Type 0
IsLegacy o = (o ≡ none) ⊎ (o ≡ some (b'0' ∷ []))

stamped_head : (ls : List Bytes) → first_group (stamped_line ∷ ls) ≡ some (b'1' ∷ [])
unfolding first_group version_group trim_suffix has_prefix trim_prefix skip_blanks take_digits
stamped_head ls = refl

first_group-stamp_lines :
    (ls : List Bytes) {ks : List Bytes}
    → IsLegacy (first_group ls)
    → stamp_lines ls ≡ some ks
    → first_group ks ≡ some (b'1' ∷ [])
unfolding first_group stamp_lines
first_group-stamp_lines [] legacy h = cc
first_group-stamp_lines (l ∷ ls) {ks} legacy h = elim (Bool-cases (is_zero (line_group l))) [
  | inl b ↦
      let same : stamped_line ∷ ls ≡ ks = ground arith in
      subst (λ x. first_group x ≡ some (b'1' ∷ [])) same (stamped_head ls)
  | inr b ↦ elim (Option-cases (stamp_lines ls)) [
    | inl e ↦ ground arith
    | inr (js, e) ↦
        let same : l ∷ js ≡ ks = ground arith in
        elim (Option-cases (line_group l)) [
          | inl f ↦
              let rest : IsLegacy (first_group ls) = ground arith in
              let found = first_group-stamp_lines ls rest e in
              subst (λ x. first_group x ≡ some (b'1' ∷ [])) same (rw (f, first_group) found)
          | inr (ds, f) ↦ absurd (ground (arith, bytes_eq_iff ds (b'0' ∷ [])))
        ]
  ]
]

value : version_of (some (b'1' ∷ [])) ≡ pos 1
unfolding digits_value
value = refl

stamped_first :
    (ls : List Bytes) → first_group (stamp_comment ∷ stamped_line ∷ [] ∷ ls) ≡ some (b'1' ∷ [])
unfolding first_group version_group trim_suffix has_prefix trim_prefix skip_blanks take_digits
stamped_first ls = refl

-- A migrated file is of version 1: it is not migrated twice. The condition is that the file has no
-- version, or that its first version is the digit 0 alone.
pub detect_schema_version-migrate_text :
    (text : Bytes)
    → IsLegacy (first_group (split_lines text))
    → detect_schema_version (migrate_text text) ≡ pos 1
unfolding detect_schema_version
detect_schema_version-migrate_text text legacy = elim (split_lines-migrate_text text) [
  | inl (ks, e, same) ↦
      let found = first_group-stamp_lines (split_lines text) legacy e in
      ap version_of (ap first_group same ∙ found) ∙ value
  | inr (e, same) ↦ ap version_of (ap first_group same ∙ stamped_first (split_lines text)) ∙ value
]
