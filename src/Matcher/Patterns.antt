-- ===== src/Matcher/Patterns.antt =====
-- What each pattern adds to the sets, and which patterns are refused.
use true_dns.Base.{
  ◌≡◌, ◌≢◌, refl, ◌↔◌, ◌⊎◌, inl, inr, true, false, ◌||◌, List, [], ◌∷◌, arith, In, Bool-cases,
  subst,
}
use true_dns.Base.Result.{Result, ok, err}
use true_dns.Text.{
  Bytes, is_empty, bytes_eq, bytes_eq_iff, trim_space, to_lower, trim_suffix, has_prefix,
  trim_prefix, contains_byte,
}
use true_dns.Matcher.Defs.{
  Matcher, PatternError, dot, star, star_dot, member, add_key, add_entry, add_pattern,
}
use true_dns.Matcher.Walk.{Under, UnderEntry, member_iff}

abbrev pub clean_pattern : Bytes → Bytes
clean_pattern p = to_lower (trim_space p)

abbrev pub entry_of : Bytes → Bytes
entry_of p = trim_suffix (clean_pattern p) dot

-- Pattern `p`, as the package comment describes it, covers the clean name `name`.
pub data Covers (p name : Bytes) : Type 0 where
  everything : clean_pattern p ≡ star ∷ [] → Covers p name
  strict :
      (root : Bytes)
      → entry_of p ≡ star ∷ dot ∷ root
      → root ≢ []
      → contains_byte root star ≡ false
      → Under root name
      → Covers p name
  itself :
      clean_pattern p ≢ []
      → contains_byte (entry_of p) star ≡ false
      → entry_of p ≡ name
      → Covers p name
  below :
      clean_pattern p ≢ []
      → contains_byte (entry_of p) star ≡ false
      → Under (entry_of p) name
      → Covers p name

-- A star somewhere else than in "*" and in a leading "*." before a root.
pub record IsMalformed (p : Bytes) : Type 0 where
  pub not_all : clean_pattern p ≢ star ∷ []
  pub starred : contains_byte (entry_of p) star ≡ true
  pub no_root :
      (root : Bytes) → entry_of p ≡ star ∷ dot ∷ root → root ≢ [] → contains_byte root star ≡ true

-- What `add_pattern` makes of each pattern.
pub data Effect (m : Matcher) (p : Bytes) : Result PatternError Matcher → Type 0 where
  blank : clean_pattern p ≡ [] → Effect m p (ok m)
  all : clean_pattern p ≡ star ∷ [] → Effect m p (ok (record m { match_all = true }))
  wild :
      (root : Bytes)
      → entry_of p ≡ star ∷ dot ∷ root
      → root ≢ []
      → contains_byte root star ≡ false
      → Effect m p (ok (record m { wildcard = add_key root m.wildcard }))
  plain :
      clean_pattern p ≢ []
      → contains_byte (entry_of p) star ≡ false
      → Effect m p (ok (record m { roots = add_key (entry_of p) m.roots }))
  bad : (e : PatternError) → IsMalformed p → Effect m p (err e)

has_prefix-star_dot :
    (s : Bytes) → has_prefix s star_dot ≡ true → s ≡ star ∷ dot ∷ trim_prefix s star_dot
unfolding has_prefix trim_prefix
has_prefix-star_dot [] h = cc
has_prefix-star_dot (c ∷ []) h = ground arith
has_prefix-star_dot (c ∷ d ∷ s) h = ground arith

not_star_dot : (s root : Bytes) → has_prefix s star_dot ≡ false → s ≢ star ∷ dot ∷ root
unfolding has_prefix
not_star_dot s root h e = let k = subst (λ t. has_prefix t star_dot ≡ false) e h in cc

is_empty_iff : (s : Bytes) → (is_empty s ≡ true) ↔ (s ≡ [])
is_empty_iff [] = ground arith
is_empty_iff (c ∷ s) = ground arith

pub starred_of : (s root : Bytes) → s ≡ star ∷ dot ∷ root → contains_byte s star ≡ true
unfolding contains_byte
starred_of s root e = rw e

root_starred :
    (root : Bytes)
    → is_empty root || contains_byte root star ≡ true
    → root ≢ []
    → contains_byte root star ≡ true
root_starred [] h ne = absurd (ne refl)
root_starred (c ∷ s) h ne = h

root_plain :
    (root : Bytes)
    → is_empty root || contains_byte root star ≡ false
    → (root ≢ []) × (contains_byte root star ≡ false)
root_plain [] h = cc
root_plain (c ∷ s) h = ((λ e. cc), h)

module _ (m : Matcher) (p : Bytes) where
  add_wild :
      clean_pattern p ≢ star ∷ []
      → has_prefix (entry_of p) star_dot ≡ true
      → Effect m p (add_entry m (entry_of p))
  unfolding add_entry
  add_wild not_all h =
      let e = has_prefix-star_dot (entry_of p) h in
      let root = trim_prefix (entry_of p) star_dot in
      elim (Bool-cases (is_empty root || contains_byte root star)) [
        | inl b ↦
            rw (h, b)
              (bad _ (record {
                not_all = not_all;
                starred = starred_of _ root e;
                no_root = λ r f ne.
                    subst (λ t. contains_byte t star ≡ true) (cc)
                      (root_starred root b (λ z. ne (cc)));
              }))
        | inr g ↦ rw (h, g) (wild root e (root_plain root g).0 (root_plain root g).1)
      ]

  add_plain :
      clean_pattern p ≢ []
      → clean_pattern p ≢ star ∷ []
      → has_prefix (entry_of p) star_dot ≡ false
      → Effect m p (add_entry m (entry_of p))
  unfolding add_entry
  add_plain not_blank not_all h = elim (Bool-cases (contains_byte (entry_of p) star)) [
    | inl b ↦
        rw (h, b)
          (bad _ (record {
            not_all = not_all;
            starred = b;
            no_root = λ r f _. absurd (not_star_dot (entry_of p) r h f);
          }))
    | inr g ↦ rw (h, g) (plain not_blank g)
  ]

  pub add_pattern-Effect : Effect m p (add_pattern m p)
  unfolding add_pattern
  add_pattern-Effect = elim (Bool-cases (is_empty (clean_pattern p))) [
    | inl z ↦ rw z (blank ((is_empty_iff (clean_pattern p)).0 z))
    | inr nz ↦
        let not_blank : clean_pattern p ≢ [] =
          λ e. ground (arith, is_empty_iff (clean_pattern p)) in
        elim (Bool-cases (bytes_eq (clean_pattern p) (star ∷ []))) [
          | inl a ↦ rw (nz, a) (all ((bytes_eq_iff (clean_pattern p) (star ∷ [])).0 a))
          | inr na ↦
              let not_all : clean_pattern p ≢ star ∷ [] =
                λ e. ground (arith, bytes_eq_iff (clean_pattern p) (star ∷ [])) in
              elim (Bool-cases (has_prefix (entry_of p) star_dot)) [
                | inl w ↦ rw (nz, na) (add_wild not_all w)
                | inr pl ↦ rw (nz, na) (add_plain not_blank not_all pl)
              ]
        ]
  ]

-- The clean name is in the matcher's sets, or below an entry of them.
abbrev pub Hits : Matcher → Bytes → Type 0
Hits m name = (m.match_all ≡ true) ⊎ In name m.roots ⊎ UnderEntry m name

pub In-add_key : (k j : Bytes) (ks : List Bytes) → In k (add_key j ks) ↔ ((j ≡ k) ⊎ In k ks)
unfolding add_key
In-add_key k j ks = elim (Bool-cases (member j ks)) [
  | inl b ↦
      rw b (inr, λ h. elim h [ inl e ↦ subst (λ t. In t ks) e ((member_iff j ks).0 b) | inr i ↦ i ])
  | inr b ↦ rw b ((λ h. h), λ h. h)
]
