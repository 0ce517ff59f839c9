-- ===== src/Platform/Normal.antt =====
-- What `normalizeAddrs` keeps.
use true_dns.Base.{
  ◌≡◌, ◌↔◌, ◌⊎◌, refl, inl, inr, Bool, true, false, none, some, List, [], ◌∷◌, arith, Bool-cases,
  Option-cases, In, ap, sym, ◌∙◌, subst,
}
use true_dns.Text.{Bytes, is_empty, bytes_eq, bytes_eq_iff, trim_space}
use true_dns.Net.{Net}
use true_dns.Matcher.{member}
use true_dns.Platform.Address.{
  normal_addr, normalize_from, normalize_addrs, IsRemote, normal_addr-IsRemote,
  IsRemote-normal_addr,
}

-- No element occurs twice.
abbrev pub IsUnique : List Bytes → Type 0
IsUnique [] = Unit
IsUnique (x ∷ xs) = ¬ In x xs × IsUnique xs

module _ (net : Net) (local : Bytes → Bool) where
  -- One of the addresses has the form `b`.
  abbrev HasForm : List Bytes → Bytes → Type 0
  HasForm l b = (a : Bytes) × In a l × (normal_addr net local a ≡ some b)

  skip_none :
      (seen l : List Bytes) (a : Bytes)
      → normal_addr net local a ≡ none
      → normalize_from net local seen (a ∷ l) ≡ normalize_from net local seen l
  unfolding normalize_from
  skip_none seen l a e = ground arith

  skip_seen :
      (seen l : List Bytes) (a c : Bytes)
      → normal_addr net local a ≡ some c
      → member c seen ≡ true
      → normalize_from net local seen (a ∷ l) ≡ normalize_from net local seen l
  unfolding normalize_from
  skip_seen seen l a c e m = ground arith

  keep_new :
      (seen l : List Bytes) (a c : Bytes)
      → normal_addr net local a ≡ some c
      → member c seen ≡ false
      → normalize_from net local seen (a ∷ l) ≡ c ∷ normalize_from net local (c ∷ seen) l
  unfolding normalize_from
  keep_new seen l a c e m = ground arith

  -- What happens to the first address.
  first-cases :
      (seen l : List Bytes) (a : Bytes)
      → ((normal_addr net local a ≡ none)
          × (normalize_from net local seen (a ∷ l) ≡ normalize_from net local seen l))
        ⊎ ((c : Bytes) × (normal_addr net local a ≡ some c)
            × (((member c seen ≡ true)
                  × (normalize_from net local seen (a ∷ l) ≡ normalize_from net local seen l))
                ⊎ ((member c seen ≡ false)
                    × (normalize_from net local seen (a ∷ l)
                        ≡ c ∷ normalize_from net local (c ∷ seen) l))))
  first-cases seen l a = elim (Option-cases (normal_addr net local a)) [
    | inl e ↦ inl (e, skip_none seen l a e)
    | inr (c, e) ↦ elim (Bool-cases (member c seen)) [
      | inl m ↦ inr (c, e, inl (m, skip_seen seen l a c e m))
      | inr m ↦ inr (c, e, inr (m, keep_new seen l a c e m))
    ]
  ]

  member_cons :
      (c b : Bytes) (seen : List Bytes) → member b (c ∷ seen) ≡ false → member b seen ≡ false
  unfolding member
  member_cons c b seen h = ground arith

  from_list :
      (seen l : List Bytes) (b : Bytes)
      → In b (normalize_from net local seen l)
      → (member b seen ≡ false) × HasForm l b
  unfolding normalize_from
  from_list seen [] b i = absurd i
  from_list seen (a ∷ l) b i = elim (first-cases seen l a) [
    | inl (e, same) ↦
        let (new, (x, j, f)) = from_list seen l b (subst (In b) same i) in (new, (x, inr j, f))
    | inr (c, e, inl (m, same)) ↦
        let (new, (x, j, f)) = from_list seen l b (subst (In b) same i) in (new, (x, inr j, f))
    | inr (c, e, inr (m, same)) ↦ elim (subst (In b) same i) [
      | inl equal ↦ (subst (λ x. member x seen ≡ false) equal m, (a, inl refl, e ∙ ap some equal))
      | inr j ↦
          let (new, (x, k, f)) = from_list (c ∷ seen) l b j in
          (member_cons c b seen new, (x, inr k, f))
    ]
  ]

  to_list :
      (seen l : List Bytes) (b : Bytes)
      → member b seen ≡ false
      → HasForm l b
      → In b (normalize_from net local seen l)
  unfolding member
  to_list seen [] b new (x, i, f) = absurd i
  to_list seen (a ∷ l) b new (x, i, f) = elim (first-cases seen l a) [
    | inl (e, same) ↦ elim i [
      | inl at ↦ absurd (cc)
      | inr j ↦ subst (In b) (sym same) (to_list seen l b new (x, j, f))
    ]
    | inr (c, e, inl (m, same)) ↦ elim i [
      | inl at ↦ absurd (ground arith)
      | inr j ↦ subst (In b) (sym same) (to_list seen l b new (x, j, f))
    ]
    | inr (c, e, inr (m, same)) ↦ subst (In b) (sym same) (elim (Bool-cases (bytes_eq c b)) [
      | inl s ↦ inl ((bytes_eq_iff c b).0 s)
      | inr s ↦ elim i [
        | inl at ↦ absurd (ground (arith, bytes_eq_iff c b))
        | inr j ↦ inr (to_list (c ∷ seen) l b (ground arith) (x, j, f))
      ]
    ])
  ]

  unique : (seen l : List Bytes) → IsUnique (normalize_from net local seen l)
  unfolding normalize_from member
  unique seen [] = tt
  unique seen (a ∷ l) = elim (first-cases seen l a) [
    | inl (e, same) ↦ subst IsUnique (sym same) (unique seen l)
    | inr (c, e, inl (m, same)) ↦ subst IsUnique (sym same) (unique seen l)
    | inr (c, e, inr (m, same)) ↦ subst IsUnique (sym same) (
      (λ i. ground (arith, bytes_eq_iff c c, (from_list (c ∷ seen) l c i).0)),
      unique (c ∷ seen) l,
    )
  ]

  -- `normalizeAddrs` keeps exactly the addresses of other machines: each is one of the given ones
  -- that parses, is no loopback, unspecified or own address, and stands there with its port, once.
  pub normalize_addrs_iff :
      (l : List Bytes)
      → IsUnique (normalize_addrs net local l)
        × ((b : Bytes)
            → In b (normalize_addrs net local l)
              ↔ ((a : Bytes) × In a l × (is_empty (trim_space a) ≡ false) × IsRemote net local a b))
  unfolding member
  normalize_addrs_iff l = (
    unique [] l,
    λ b. (
      (λ i.
          let (new, (a, j, f)) = from_list [] l b i in
          let (full, remote) = normal_addr-IsRemote net local a b f in (a, j, full, remote)),
      λ given.
          let (a, j, full, remote) = given in
          to_list [] l b refl (a, j, IsRemote-normal_addr net local a b full remote),
    ),
  )
