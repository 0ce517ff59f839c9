-- ===== src/Matcher/Sets.antt =====
-- How the sets that `Reset` builds grow with each pattern.
use true_dns.Base.{
  ◌≡◌, ◌≢◌, refl, ◌↔◌, ◌⊎◌, inl, inr, true, false, List, [], ◌∷◌, arith, In, subst, ap, sym, ◌∙◌,
  ◌+◌, ◌≤◌, length,
}
use true_dns.Base.Result.{Result, ok, err, Result-cases}
use true_dns.Text.{Bytes, trim_suffix, contains_byte}
use true_dns.Matcher.Defs.{Matcher, PatternError, dot, star, add_key, add_pattern, load, len}
use true_dns.Matcher.Walk.{Under}
use true_dns.Matcher.Patterns.{
  clean_pattern, entry_of, Covers, everything, strict, itself, below, IsMalformed, Effect, blank,
  all, wild, plain, bad, add_pattern-Effect, Hits, In-add_key, starred_of,
}

entry_blank : (p : Bytes) → clean_pattern p ≡ [] → entry_of p ≡ []
entry_blank p e = ap (λ s. trim_suffix s dot) e ∙ (unfold trim_suffix in refl)

entry_all : (p : Bytes) → clean_pattern p ≡ star ∷ [] → entry_of p ≡ star ∷ []
entry_all p e = ap (λ s. trim_suffix s dot) e ∙ (unfold trim_suffix in refl)

all_starred : (p : Bytes) → clean_pattern p ≡ star ∷ [] → contains_byte (entry_of p) star ≡ true
all_starred p e = rw (entry_all p e) (unfold contains_byte in refl)

-- After an accepted pattern the sets hit what they hit before, and what the pattern covers.
module _ (m : Matcher) (p name : Bytes) where
  blank-Covers : clean_pattern p ≡ [] → ¬ Covers p name
  blank-Covers z (everything a) = cc
  blank-Covers z (strict root e _ _ _) = cc (entry_blank p z)
  blank-Covers z (itself nz _ _) = nz z
  blank-Covers z (below nz _ _) = nz z

  wild-Hits :
      (root : Bytes)
      → entry_of p ≡ star ∷ dot ∷ root
      → root ≢ []
      → contains_byte root star ≡ false
      → Hits (record m { wildcard = add_key root m.wildcard }) name ↔ (Hits m name ⊎ Covers p name)
  wild-Hits root e ne pl = (to, from)
    where
      to : Hits (record m { wildcard = add_key root m.wildcard }) name → Hits m name ⊎ Covers p name
      to (inl a) = inl (inl a)
      to (inr (inl i)) = inl (inr (inl i))
      to (inr (inr (r, inl i, u))) = inl (inr (inr (r, inl i, u)))
      to (inr (inr (r, inr i, u))) = elim ((In-add_key r root m.wildcard).0 i) [
        | inl q ↦ inr (strict root e ne pl (subst (λ t. Under t name) (sym q) u))
        | inr j ↦ inl (inr (inr (r, inr j, u)))
      ]

      from :
          Hits m name ⊎ Covers p name → Hits (record m { wildcard = add_key root m.wildcard }) name
      from (inl (inl a)) = inl a
      from (inl (inr (inl i))) = inr (inl i)
      from (inl (inr (inr (r, inl i, u)))) = inr (inr (r, inl i, u))
      from (inl (inr (inr (r, inr i, u)))) =
          inr (inr (r, inr ((In-add_key r root m.wildcard).1 (inr i)), u))
      from (inr (everything a)) = cc (entry_all p a)
      from (inr (strict r f _ _ u)) =
          inr (inr (r, inr ((In-add_key r root m.wildcard).1 (inl (cc))), u))
      from (inr (itself _ k _)) = cc (starred_of (entry_of p) root e)
      from (inr (below _ k _)) = cc (starred_of (entry_of p) root e)

  plain-Hits :
      clean_pattern p ≢ []
      → contains_byte (entry_of p) star ≡ false
      → Hits (record m { roots = add_key (entry_of p) m.roots }) name
        ↔ (Hits m name ⊎ Covers p name)
  plain-Hits nz pl = (to, from)
    where
      to :
          Hits (record m { roots = add_key (entry_of p) m.roots }) name
          → Hits m name ⊎ Covers p name
      to (inl a) = inl (inl a)
      to (inr (inl i)) = elim ((In-add_key name (entry_of p) m.roots).0 i) [
        | inl q ↦ inr (itself nz pl q)
        | inr j ↦ inl (inr (inl j))
      ]
      to (inr (inr (r, inl i, u))) = elim ((In-add_key r (entry_of p) m.roots).0 i) [
        | inl q ↦ inr (below nz pl (subst (λ t. Under t name) (sym q) u))
        | inr j ↦ inl (inr (inr (r, inl j, u)))
      ]
      to (inr (inr (r, inr i, u))) = inl (inr (inr (r, inr i, u)))

      from :
          Hits m name ⊎ Covers p name
          → Hits (record m { roots = add_key (entry_of p) m.roots }) name
      from (inl (inl a)) = inl a
      from (inl (inr (inl i))) = inr (inl ((In-add_key name (entry_of p) m.roots).1 (inr i)))
      from (inl (inr (inr (r, inl i, u)))) =
          inr (inr (r, inl ((In-add_key r (entry_of p) m.roots).1 (inr i)), u))
      from (inl (inr (inr (r, inr i, u)))) = inr (inr (r, inr i, u))
      from (inr (everything a)) = cc (all_starred p a)
      from (inr (strict r f _ _ u)) = cc (starred_of (entry_of p) r f)
      from (inr (itself _ _ q)) = inr (inl ((In-add_key name (entry_of p) m.roots).1 (inl q)))
      from (inr (below _ _ u)) =
          inr
            (inr (entry_of p, inl ((In-add_key (entry_of p) (entry_of p) m.roots).1 (inl refl)), u))

  Effect-Hits :
      {r : Result PatternError Matcher} {m' : Matcher}
      → Effect m p r
      → r ≡ ok m'
      → Hits m' name ↔ (Hits m name ⊎ Covers p name)
  Effect-Hits (blank z) e =
      let f : m ≡ _ = cc in
      subst (λ k. Hits k name ↔ (Hits m name ⊎ Covers p name)) f
        (inl, λ s. elim s [ inl h ↦ h | inr c ↦ absurd (blank-Covers z c) ])
  Effect-Hits (all a) e =
      let f : record m { match_all = true } ≡ _ = cc in
      subst (λ k. Hits k name ↔ (Hits m name ⊎ Covers p name)) f
        ((λ _. inr (everything a)), λ _. inl refl)
  Effect-Hits (wild root e' ne pl) e =
      let f : record m { wildcard = add_key root m.wildcard } ≡ _ = cc in
      subst (λ k. Hits k name ↔ (Hits m name ⊎ Covers p name)) f (wild-Hits root e' ne pl)
  Effect-Hits (plain nz pl) e =
      let f : record m { roots = add_key (entry_of p) m.roots } ≡ _ = cc in
      subst (λ k. Hits k name ↔ (Hits m name ⊎ Covers p name)) f (plain-Hits nz pl)
  Effect-Hits (bad _ _) e = cc

abbrev pub Covered : List Bytes → Bytes → Type 0
Covered ps name = (p : Bytes) × In p ps × Covers p name

pub load-Hits :
    (ps : List Bytes) (m : Matcher) (name : Bytes) {m' : Matcher}
    → load m ps ≡ ok m'
    → Hits m' name ↔ (Hits m name ⊎ Covered ps name)
unfolding load
load-Hits [] m name e =
    subst (λ k. Hits k name ↔ (Hits m name ⊎ Covered [] name)) (cc)
      (inl, λ s. elim s [ inl h ↦ h | inr (p, i, c) ↦ absurd i ])
load-Hits (p ∷ ps) m name e = elim (Result-cases (add_pattern m p)) [
  | inl (m₁, q) ↦
      let step = Effect-Hits m p name (add_pattern-Effect m p) q in
      let rest = load-Hits ps m₁ name (rw q at e) in
      (
        λ h. elim (rest.0 h) [
          | inl h₁ ↦ elim (step.0 h₁) [ inl old ↦ inl old | inr c ↦ inr (p, inl refl, c) ]
          | inr (r, i, c) ↦ inr (r, inr i, c)
        ],
        λ s. elim s [
          | inl old ↦ rest.1 (inl (step.1 (inl old)))
          | inr (r, i, c) ↦ elim i [
            | inl f ↦ rest.1 (inl (step.1 (inr (subst (λ t. Covers t name) (sym f) c))))
            | inr j ↦ rest.1 (inr (r, j, c))
          ]
        ],
      )
  | inr (x, q) ↦ let f = rw q at e in cc
]

Effect-accepts :
    {m : Matcher} {p : Bytes} {r : Result PatternError Matcher} {m' : Matcher}
    → Effect m p r
    → r ≡ ok m'
    → ¬ IsMalformed p
Effect-accepts {p = p} (blank z) e b =
    let k : contains_byte (entry_of p) star ≡ false =
      rw (entry_blank p z) (unfold contains_byte in refl) in
    cc b.starred
Effect-accepts (all a) e b = b.not_all a
Effect-accepts (wild root f ne pl) e b = cc (b.no_root root f ne)
Effect-accepts (plain nz pl) e b = cc b.starred
Effect-accepts (bad _ _) e b = cc

Effect-refuses :
    {m : Matcher} {p : Bytes} {r : Result PatternError Matcher} {x : PatternError}
    → Effect m p r
    → r ≡ err x
    → IsMalformed p
Effect-refuses (bad _ b) e = b
Effect-refuses (blank _) e = cc
Effect-refuses (all _) e = cc
Effect-refuses (wild _ _ _ _) e = cc
Effect-refuses (plain _ _) e = cc

pub load_fails_iff :
    (ps : List Bytes) (m : Matcher)
    → ((e : PatternError) × (load m ps ≡ err e)) ↔ ((p : Bytes) × In p ps × IsMalformed p)
unfolding load
load_fails_iff [] m = ((λ (x, e). cc), λ (p, i, b). absurd i)
load_fails_iff (p ∷ ps) m = elim (Result-cases (add_pattern m p)) [
  | inl (m₁, q) ↦
      let rest = load_fails_iff ps m₁ in
      rw (q, load)
        (
          (λ h. let (r, i, b) = rest.0 h in (r, inr i, b)),
          λ (r, i, b). elim i [
            | inl f ↦
                absurd (Effect-accepts (add_pattern-Effect m p) q (subst IsMalformed (sym f) b))
            | inr j ↦ rest.1 (r, j, b)
          ],
        )
  | inr (x, q) ↦
      rw (q, load) ((λ h. (p, inl refl, Effect-refuses (add_pattern-Effect m p) q)), λ h. (x, refl))
]

-- No pattern adds more than one entry.
add_key-length : (k : Bytes) (ks : List Bytes) → length (add_key k ks) ≤ length ks + 1
unfolding add_key
add_key-length k ks = ground arith

Effect-len :
    {m : Matcher} {p : Bytes} {r : Result PatternError Matcher} {m' : Matcher}
    → Effect m p r
    → r ≡ ok m'
    → len m' ≤ len m + 1
unfolding len
Effect-len (blank z) e = ground arith
Effect-len (all z) e = ground arith
Effect-len {m = m} (wild root f ne pl) e = ground (arith, add_key-length root m.wildcard)
Effect-len {m = m} {p = p} (plain nz pl) e = ground (arith, add_key-length (entry_of p) m.roots)
Effect-len (bad _ _) e = cc

pub len-load-le :
    (ps : List Bytes) (m : Matcher) {m' : Matcher} → load m ps ≡ ok m' → len m' ≤ len m + length ps
unfolding load
len-load-le [] m e = ground arith
len-load-le (p ∷ ps) m e = elim (Result-cases (add_pattern m p)) [
  | inl (m₁, q) ↦
      omega (arith, Effect-len (add_pattern-Effect m p) q, len-load-le ps m₁ (rw q at e))
  | inr (x, q) ↦ let f = rw q at e in cc
]
