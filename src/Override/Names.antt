-- ===== src/Override/Names.antt =====
-- `sort.Strings`: the result does not depend on the order of the names.
use true_dns.Base.{
  ◌≡◌, refl, true, false, List, [], ◌∷◌, arith, Bool-cases, inl, inr, ap, ◌∙◌, In, ◌⊎◌, ◌↔◌,
}
use mathlib.Core.List.{Permᴰ}
use true_dns.Text.{Bytes}
use true_dns.Override.Defs.{bytes_lt, insert_name, sort_names}

bytes_lt_total : (s t : Bytes) → bytes_lt s t ≡ false → bytes_lt t s ≡ false → s ≡ t
unfolding bytes_lt
bytes_lt_total [] [] h k = refl
bytes_lt_total [] (d ∷ t) h k = cc
bytes_lt_total (c ∷ s) [] h k = cc
bytes_lt_total (c ∷ s) (d ∷ t) h k = ground (arith, bytes_lt_total s t)

bytes_lt_asym : (s t : Bytes) → bytes_lt s t ≡ true → bytes_lt t s ≡ false
unfolding bytes_lt
bytes_lt_asym [] [] h = refl
bytes_lt_asym [] (d ∷ t) h = refl
bytes_lt_asym (c ∷ s) [] h = cc
bytes_lt_asym (c ∷ s) (d ∷ t) h = ground (arith, bytes_lt_asym s t)

bytes_lt_trans : (s t u : Bytes) → bytes_lt s t ≡ true → bytes_lt t u ≡ true → bytes_lt s u ≡ true
unfolding bytes_lt
bytes_lt_trans (c ∷ s) (d ∷ t) (e ∷ u) h k = ground (arith, bytes_lt_trans s t u)
bytes_lt_trans _ _ _ h k = ground arith

bytes_le_lt_trans :
    (x z y : Bytes) → bytes_lt z x ≡ false → bytes_lt z y ≡ true → bytes_lt x y ≡ true
bytes_le_lt_trans x z y h k = elim (Bool-cases (bytes_lt x z)) [
  | inl a ↦ bytes_lt_trans x z y a k
  | inr a ↦ ap (λ t. bytes_lt t y) (bytes_lt_total x z a h) ∙ k
]

insert_name_comm :
    (x y : Bytes) (l : List Bytes)
    → insert_name x (insert_name y l) ≡ insert_name y (insert_name x l)
unfolding insert_name
insert_name_comm x y [] = elim (Bool-cases (bytes_lt x y)) [
  | inl a ↦ ground (arith, bytes_lt_asym x y)
  | inr a ↦ elim (Bool-cases (bytes_lt y x)) [
    | inl b ↦ ground arith
    | inr b ↦ ground (arith, bytes_lt_total x y)
  ]
]
insert_name_comm x y (z ∷ l) = ground (
  arith,
  insert_name_comm x y l,
  bytes_le_lt_trans x z y,
  bytes_le_lt_trans y z x,
  bytes_lt_asym x y,
  bytes_lt_asym y x,
  bytes_lt_total x y,
)

pub sort_names-perm : {xs ys : List Bytes} → Permᴰ xs ys → sort_names xs ≡ sort_names ys
unfolding sort_names
sort_names-perm Permᴰ.nil = refl
sort_names-perm (Permᴰ.cons e p) = λ i. insert_name (e i) (sort_names-perm p i)
sort_names-perm (Permᴰ.swap {a} {b} {a'} {b'} {l} e f) =
    insert_name_comm a b (sort_names l) ∙ λ i. insert_name (f i) (insert_name (e i) (sort_names l))
sort_names-perm (Permᴰ.trans p q) = sort_names-perm p ∙ sort_names-perm q

In-insert_name : (k x : Bytes) (l : List Bytes) → In k (insert_name x l) ↔ ((x ≡ k) ⊎ In k l)
unfolding insert_name
In-insert_name k x [] = ((λ i. i), λ i. i)
In-insert_name k x (y ∷ l) = elim (Bool-cases (bytes_lt y x)) [
  | inl b ↦ rw b (
    (λ i. elim i [
      | inl e ↦ inr (inl e)
      | inr j ↦ elim ((In-insert_name k x l).0 j) [ inl e ↦ inl e | inr h ↦ inr (inr h) ]
    ]),
    λ i. elim i [
      | inl e ↦ inr ((In-insert_name k x l).1 (inl e))
      | inr j ↦ elim j [ inl e ↦ inl e | inr h ↦ inr ((In-insert_name k x l).1 (inr h)) ]
    ],
  )
  | inr b ↦ rw b ((λ i. i), λ i. i)
]

pub In-sort_names : (k : Bytes) (l : List Bytes) → In k l → In k (sort_names l)
unfolding sort_names
In-sort_names k [] i = i
In-sort_names k (x ∷ l) (inl e) = (In-insert_name k x (sort_names l)).1 (inl e)
In-sort_names k (x ∷ l) (inr i) = (In-insert_name k x (sort_names l)).1 (inr (In-sort_names k l i))
