-- ===== src/Cache/Links.antt =====
-- The list of elements: what finding, removing and moving an element does to the others.
use true_dns.Base.{
  ℕ, suc, ◌+◌, ◌<◌, ◌≡◌, refl, inl, inr, Option, none, some, List, [], ◌∷◌, arith, ◌==◌,
  if◌then◌else◌, length, Bool-cases,
}
use true_dns.Text.{Bytes, bytes_eq, bytes_eq_iff}
use true_dns.Cache.Defs.{Entry, Element, element, remove_element}

-- the number of the first element with the key
unfoldable pub id_of : Bytes → List Element → Option ℕ
id_of k [] = none
id_of k (e ∷ es) = if bytes_eq e.value.key k then some e.id else id_of k es

-- the first entry with the key
unfoldable pub find : Bytes → List Entry → Option Entry
find k [] = none
find k (e ∷ es) = if bytes_eq e.key k then some e else find k es

-- the list without the first entry with the key
unfoldable pub remove_key : Bytes → List Entry → List Entry
remove_key k [] = []
remove_key k (e ∷ es) = if bytes_eq e.key k then es else e ∷ remove_key k es

-- No two elements have one key or one number.
abbrev pub Distinct : List Element → Type 0
Distinct [] = Unit
Distinct (e ∷ es) = (id_of e.value.key es ≡ none) × (element e.id es ≡ none) × Distinct es

-- Every element has a number below `n`.
abbrev pub Below : ℕ → List Element → Type 0
Below n [] = Unit
Below n (e ∷ es) = (e.id < n) × Below n es

abbrev pub entries : List Element → List Entry
entries [] = []
entries (e ∷ es) = e.value ∷ entries es

-- The index's number leads to the element with the key.
pub element_of_id :
    (k : Bytes) (es : List Element) (i : ℕ)
    → Distinct es
    → id_of k es ≡ some i
    → (e : Element) × (element i es ≡ some e)
      × (e.value.key ≡ k)
      × (e.id ≡ i)
      × (find k (entries es) ≡ some e.value)
unfolding id_of element find
element_of_id k [] i d h = cc
element_of_id k (e ∷ es) i d h = elim (Bool-cases (bytes_eq e.value.key k)) [
  | inl b ↦ (e, ground arith, (bytes_eq_iff e.value.key k).0 b, ground arith, ground arith)
  | inr b ↦
      let (f, found, key, id, first) = element_of_id k es i d.2 (ground arith) in
      (f, ground arith, key, id, ground arith)
]

pub find-none : (k : Bytes) (es : List Element) → id_of k es ≡ none → find k (entries es) ≡ none
unfolding id_of find
find-none k [] h = refl
find-none k (e ∷ es) h = ground (arith, find-none k es)

pub element-id : (i : ℕ) (es : List Element) (e : Element) → element i es ≡ some e → e.id ≡ i
unfolding element
element-id i [] e h = cc
element-id i (f ∷ es) e h = ground (arith, element-id i es e)

pub id_of-element :
    (i : ℕ) (es : List Element) (e : Element)
    → Distinct es
    → element i es ≡ some e
    → id_of e.value.key es ≡ some i
unfolding element id_of
id_of-element i [] e d h = cc
id_of-element i (f ∷ es) e d h =
    ground (arith, bytes_eq_iff f.value.key e.value.key, id_of-element i es e d.2)

pub id_of-remove_element :
    (i : ℕ) (es : List Element) (e : Element) (k : Bytes)
    → Distinct es
    → element i es ≡ some e
    → id_of k (remove_element i es) ≡ (if bytes_eq e.value.key k then none else id_of k es)
unfolding element id_of remove_element
id_of-remove_element i [] e k d h = cc
id_of-remove_element i (f ∷ es) e k d h = ground (
  arith,
  bytes_eq_iff f.value.key e.value.key,
  bytes_eq_iff f.value.key k,
  bytes_eq_iff e.value.key k,
  id_of-element i es e d.2,
  id_of-remove_element i es e k d.2,
)

pub element-remove_element :
    (i j : ℕ) (es : List Element)
    → Distinct es
    → element j (remove_element i es) ≡ (if i == j then none else element j es)
unfolding element remove_element
element-remove_element i j [] d = ground arith
element-remove_element i j (f ∷ es) d = ground (arith, element-remove_element i j es d.2)

pub entries-remove_element :
    (i : ℕ) (es : List Element) (e : Element)
    → Distinct es
    → element i es ≡ some e
    → entries (remove_element i es) ≡ remove_key e.value.key (entries es)
unfolding element remove_element remove_key
entries-remove_element i [] e d h = cc
entries-remove_element i (f ∷ es) e d h = ground (
  arith,
  bytes_eq_iff f.value.key e.value.key,
  id_of-element i es e d.2,
  entries-remove_element i es e d.2,
)

pub length-remove_element :
    (i : ℕ) (es : List Element) (e : Element)
    → element i es ≡ some e
    → length (remove_element i es) + 1 ≡ length es
unfolding element remove_element
length-remove_element i [] e h = cc
length-remove_element i (f ∷ es) e h = ground (arith, length-remove_element i es e)

pub Below-remove_element :
    (n i : ℕ) (es : List Element) → Below n es → Below n (remove_element i es)
unfolding remove_element
Below-remove_element n i [] h = tt
Below-remove_element n i (f ∷ es) h = ground (arith, Below-remove_element n i es h.1)

-- A number that is not given out yet leads nowhere.
pub element-Below : (n : ℕ) (es : List Element) → Below n es → element n es ≡ none
unfolding element
element-Below n [] h = refl
element-Below n (e ∷ es) h = ground (arith, element-Below n es h.1)

pub Below-suc : (n : ℕ) (es : List Element) → Below n es → Below (suc n) es
Below-suc n [] h = tt
Below-suc n (e ∷ es) h = (omega arith, Below-suc n es h.1)

pub Below-element :
    (n i : ℕ) (es : List Element) (e : Element) → Below n es → element i es ≡ some e → i < n
unfolding element
Below-element n i [] e h f = cc
Below-element n i (g ∷ es) e h f = ground (arith, Below-element n i es e h.1)

Distinct-cons_remove :
    (i : ℕ) (f : Element) (es : List Element)
    → Distinct es
    → id_of f.value.key es ≡ none
    → id_of f.value.key (remove_element i es) ≡ none
unfolding id_of remove_element
Distinct-cons_remove i f [] d h = refl
Distinct-cons_remove i f (e ∷ es) d h = ground (arith, Distinct-cons_remove i f es d.2)

pub Distinct-remove_element :
    (i : ℕ) (es : List Element) → Distinct es → Distinct (remove_element i es)
unfolding remove_element
Distinct-remove_element i [] d = tt
Distinct-remove_element i (e ∷ es) d = elim (Bool-cases (e.id == i)) [
  | inl b ↦ ground arith
  | inr b ↦ ground (
    arith,
    Distinct-remove_element i es d.2,
    Distinct-cons_remove i e es d.2 d.0,
    element-remove_element i e.id es d.2,
  )
]
