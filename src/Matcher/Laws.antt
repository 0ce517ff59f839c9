-- ===== src/Matcher/Laws.antt =====
-- `Match` after `Reset`: which names are matched, which patterns are refused, and what is ignored.
use true_dns.Base.{
  ◌≡◌, ◌≢◌, refl, ◌↔◌, ◌⊎◌, inl, inr, true, none, some, List, [], ◌∷◌, arith, length, In,
  Bool-cases, ◌≤◌, ap, ◌∙◌,
}
use true_dns.Base.Result.{ok, Result-cases}
use true_dns.Text.{Bytes, trim_space, to_lower, trim_suffix, to_lower_idem, trim_space-to_lower}
use true_dns.Matcher.Defs.{
  Matcher, PatternError, no_patterns, dot, member, load, reset, new, clean_name, match_clean,
  match_name, len,
}
use true_dns.Matcher.Walk.{member_iff, match_parents_iff}
use true_dns.Matcher.Patterns.{IsMalformed, Hits}
use true_dns.Matcher.Sets.{Covered, load-Hits, load_fails_iff, len-load-le}

match_clean_iff :
    (m : Matcher) (name : Bytes) → (match_clean m name ≡ true) ↔ ((name ≢ []) × Hits m name)
unfolding match_clean
match_clean_iff m [] = ((λ e. cc), λ h. absurd (h.0 refl))
match_clean_iff m (c ∷ s) =
    let name = c ∷ s in
    let walk = match_parents_iff (length name) m name (omega arith) in
    elim (Bool-cases m.match_all) [
      | inl a ↦ ((λ _. ((λ e. cc), inl a)), λ _. ground arith)
      | inr na ↦ elim (Bool-cases (member name m.roots)) [
        | inl b ↦ ((λ _. ((λ e. cc), inr (inl ((member_iff name m.roots).0 b)))), λ _. ground arith)
        | inr nb ↦ (
          (λ h. ((λ e. cc), inr (inr (walk.0 (ground arith))))),
          λ (_, h). elim h [
            | inl x ↦ cc
            | inr y ↦ elim y [
              | inl i ↦ cc ((member_iff name m.roots).1 i)
              | inr u ↦ ground (arith, walk.1 u)
            ]
          ],
        )
      ]
    ]

Hits-no_patterns : (name : Bytes) → ¬ Hits no_patterns name
Hits-no_patterns name (inl e) = cc
Hits-no_patterns name (inr (inl i)) = i
Hits-no_patterns name (inr (inr (root, inl i, u))) = i
Hits-no_patterns name (inr (inr (root, inr i, u))) = i

-- `Reset` with a malformed pattern among the patterns reports an error and leaves the matcher as
-- it was; with none it succeeds, and the new state does not depend on the old one.
reset_atomic :
    (m : Matcher) (ps : List Bytes)
    → ((e : PatternError) × (reset m ps ≡ (m, some e)) × ((p : Bytes) × In p ps × IsMalformed p))
      ⊎ ((m' : Matcher) × (reset m ps ≡ (m', none))
          × (new ps ≡ ok m')
          × ¬ ((p : Bytes) × In p ps × IsMalformed p))
unfolding reset new
reset_atomic m ps = elim (Result-cases (load no_patterns ps)) [
  | inl (m', e) ↦
      inr (
        m',
        rw (e, reset),
        ground arith,
        λ b. let (x, f) = (load_fails_iff ps no_patterns).1 b in cc,
      )
  | inr (x, e) ↦ inl (x, rw (e, reset), (load_fails_iff ps no_patterns).0 (x, e))
]

new-load : (ps : List Bytes) {m : Matcher} → new ps ≡ ok m → load no_patterns ps ≡ ok m
unfolding new reset
new-load ps h = elim (Result-cases (load no_patterns ps)) [
  | inl (m', e) ↦ ground arith
  | inr (x, e) ↦ ground arith
]

-- A matcher built from patterns matches a name exactly when the name, trimmed, in lower case and
-- without a final dot, is not empty and is covered by one of the patterns.
pub match_name_iff :
    (ps : List Bytes) (name : Bytes) {m : Matcher}
    → new ps ≡ ok m
    → (match_name m name ≡ true) ↔ ((clean_name name ≢ []) × Covered ps (clean_name name))
unfolding match_name
match_name_iff ps name {m} h =
    let found = match_clean_iff m (clean_name name) in
    let sets = load-Hits ps no_patterns (clean_name name) (new-load ps h) in
    (
      λ e.
          let (ne, hit) = found.0 e in
          (ne, elim (sets.0 hit) [ inl old ↦ absurd (Hits-no_patterns _ old) | inr c ↦ c ]),
      λ (ne, c). found.1 (ne, sets.1 (inr c)),
    )

-- The case of a name is ignored.
match_name-to_lower :
    (m : Matcher) (name : Bytes) → match_name m (to_lower name) ≡ match_name m name
unfolding match_name
match_name-to_lower m name =
    ap (λ s. match_clean m (trim_suffix s dot))
      (ap to_lower (trim_space-to_lower name) ∙ to_lower_idem (trim_space name))

-- A matcher built from patterns holds at most one entry for each of them.
len-new-le : (ps : List Bytes) {m : Matcher} → new ps ≡ ok m → len m ≤ length ps
unfolding len
len-new-le ps h = omega (arith, len-load-le ps no_patterns (new-load ps h))
