-- ===== src/Matcher/Walk.antt =====
-- The loop of `Match` against the relation "is a strict subdomain of".
use true_dns.Base.{
  ℕ, zero, suc, ◌≤◌, ◌<◌, ◌≡◌, ◌≢◌, refl, ◌↔◌, ◌⊎◌, inl, inr, Bool, true, ◌||◌, none, some, List,
  [], ◌∷◌, ◌++◌, arith, ap, length, drop, In, Option-cases, Bool-cases, ◌==◌, subst, sym,
  if◌then◌else◌,
}
use true_dns.Text.{Bytes, bytes_eq_iff, index_byte}
use true_dns.Matcher.Defs.{Matcher, dot, member, match_parents}

-- `name` is a name with a dot before `root`.
abbrev pub Under : Bytes → Bytes → Type 0
Under root name = (labels : Bytes) × (name ≡ labels ++ dot ∷ root)

pub member_iff : (k : Bytes) (ks : List Bytes) → (member k ks ≡ true) ↔ In k ks
unfolding member
member_iff k [] = ground arith
member_iff k (j ∷ ks) = ground (arith, bytes_eq_iff j k, member_iff k ks)

Under-cons : (c : ℕ) (root name : Bytes) → Under root name → Under root (c ∷ name)
Under-cons c root name (labels, e) = (c ∷ labels, ap (◌∷◌ c) e)

Under-cons_inv :
    (c : ℕ) (root name : Bytes)
    → Under root (c ∷ name)
    → ((c ≡ dot) × (name ≡ root)) ⊎ Under root name
Under-cons_inv c root name ([], e) = inl (cc, cc)
Under-cons_inv c root name (d ∷ labels, e) = inr (labels, cc)

no_dot : (root name : Bytes) → index_byte name dot ≡ none → ¬ Under root name
unfolding index_byte
no_dot root [] h ([], e) = cc
no_dot root [] h (d ∷ labels, e) = cc
no_dot root (c ∷ name) h u = elim (Under-cons_inv c root name u) [
  | inl p ↦ ground arith
  | inr v ↦ no_dot root name (ground arith) v
]

head_dot :
    (c : ℕ) (root name : Bytes)
    → c ≡ dot
    → Under root (c ∷ name) ↔ ((name ≡ root) ⊎ Under root name)
head_dot c root name e = (
  λ u. elim (Under-cons_inv c root name u) [ inl p ↦ inl p.1 | inr v ↦ inr v ],
  λ s. elim s [ inl p ↦ ([], ground arith) | inr v ↦ Under-cons c root name v ],
)

head_other : (c : ℕ) (root name : Bytes) → c ≢ dot → Under root (c ∷ name) ↔ Under root name
head_other c root name ne = (
  λ u. elim (Under-cons_inv c root name u) [ inl p ↦ absurd (ne p.0) | inr v ↦ v ],
  Under-cons c root name,
)

index_byte-cons :
    (c : ℕ) (name : Bytes) (i : ℕ)
    → index_byte (c ∷ name) dot ≡ some i
    → ((c ≡ dot) × (i ≡ 0)) ⊎ ((j : ℕ) × (c ≢ dot) × (i ≡ suc j) × (index_byte name dot ≡ some j))
unfolding index_byte
index_byte-cons c name i h = elim (Option-cases (index_byte name dot)) [
  | inl e ↦ inl (ground arith)
  | inr (j, e) ↦ elim (Bool-cases (c == dot)) [
    | inl q ↦ inl (ground arith)
    | inr q ↦ inr (j, ground arith, ground arith, e)
  ]
]

-- What stands behind the first dot is the nearest parent.
first_dot :
    (root name : Bytes) (i : ℕ)
    → index_byte name dot ≡ some i
    → Under root name ↔ ((drop (suc i) name ≡ root) ⊎ Under root (drop (suc i) name))
first_dot root [] i h = unfold index_byte in cc
first_dot root (c ∷ name) i h = elim (index_byte-cons c name i h) [
  | inl (d, z) ↦ rw z (head_dot c root name d)
  | inr (j, d, z, e) ↦ rw z (
    (λ u. (first_dot root name j e).0 ((head_other c root name d).0 u)),
    λ s. (head_other c root name d).1 ((first_dot root name j e).1 s),
  )
]

length-drop_lt :
    (name : Bytes) (i : ℕ) → index_byte name dot ≡ some i → length (drop (suc i) name) < length name
length-drop_lt [] i h = unfold index_byte in cc
length-drop_lt (c ∷ name) i h = elim (index_byte-cons c name i h) [
  | inl (d, z) ↦ rw z (omega arith)
  | inr (j, d, z, e) ↦ rw z (omega (arith, length-drop_lt name j e))
]

-- A strict subdomain of an entry.
abbrev pub UnderEntry : Matcher → Bytes → Type 0
UnderEntry m name = (root : Bytes) × (In root m.roots ⊎ In root m.wildcard) × Under root name

-- One round of the walk, given what the rest of it decides.
walk_round :
    (m : Matcher) (name parent : Bytes) (rest : Bool)
    → ((root : Bytes) → Under root name ↔ ((parent ≡ root) ⊎ Under root parent))
    → (rest ≡ true) ↔ UnderEntry m parent
    → ((if member parent m.roots || member parent m.wildcard then true else rest) ≡ true)
      ↔ UnderEntry m name
walk_round m name parent rest first ih = (
  λ h. elim (Bool-cases (member parent m.roots)) [
    | inl a ↦ (parent, inl ((member_iff parent m.roots).0 a), (first parent).1 (inl refl))
    | inr a ↦ elim (Bool-cases (member parent m.wildcard)) [
      | inl b ↦ (parent, inr ((member_iff parent m.wildcard).0 b), (first parent).1 (inl refl))
      | inr b ↦ let (root, entry, u) = ih.0 (ground arith) in (root, entry, (first root).1 (inr u))
    ]
  ],
  λ (root, entry, u). elim ((first root).0 u) [
    | inl e ↦ elim entry [
      | inl a ↦ ground (arith, (member_iff parent m.roots).1 (subst (λ r. In r m.roots) (sym e) a))
      | inr b ↦
          ground (arith, (member_iff parent m.wildcard).1 (subst (λ r. In r m.wildcard) (sym e) b))
    ]
    | inr v ↦ ground (arith, ih.1 (root, entry, v))
  ],
)

-- With fuel for every byte the walk finds a parent exactly when there is one.
pub match_parents_iff :
    (fuel : ℕ) (m : Matcher) (name : Bytes)
    → length name ≤ fuel
    → (match_parents fuel m name ≡ true) ↔ UnderEntry m name
unfolding match_parents
match_parents_iff zero m [] h =
    (λ e. cc, λ (root, _, u). absurd (no_dot root [] (unfold index_byte in refl) u))
match_parents_iff zero m (c ∷ name) h = absurd (omega arith)
match_parents_iff (suc fuel) m name h = elim (Option-cases (index_byte name dot)) [
  | inl e ↦ rw (e, match_parents) (λ f. cc, λ (root, _, u). absurd (no_dot root name e u))
  | inr (i, e) ↦
      let parent = drop (suc i) name in
      let ih = match_parents_iff fuel m parent (omega (arith, length-drop_lt name i e)) in
      rw (e, match_parents) (walk_round m name parent _ (λ root. first_dot root name i e) ih)
]
