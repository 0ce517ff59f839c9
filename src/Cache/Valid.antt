-- ===== src/Cache/Valid.antt =====
-- The invariant of the cache, and the two building blocks that keep it: removing an element that
-- the list has, and pushing a new one where there is room.
use true_dns.Base.{
  ℕ, suc, ◌≡◌, refl, false, none, some, List, [], ◌∷◌, arith, ◌==◌, zero, length, ℤ, pos, ◌≤ℤ◌,
  ◌<ℤ◌, inl, inr, Bool-cases, ==_iff, take,
}
use true_dns.Text.{Bytes}
use true_dns.Cache.Defs.{
  Cache, Entry, Element, new, element, remove_element, back, update, remove_locked, is_full,
  push_front, flush,
}
use true_dns.Cache.Links.{
  id_of, Distinct, Below, entries, id_of-remove_element, Below-remove_element,
  Distinct-remove_element, length-remove_element, element-Below, Below-suc,
}

pub record IsValid (c : Cache) : Type 0 where
  pub linked : (k : Bytes) → c.index k ≡ id_of k c.lru
  pub distinct : Distinct c.lru
  pub below : Below c.next c.lru
  pub positive : pos 0 <ℤ c.max
  pub bounded : pos (length c.lru) ≤ℤ c.max

-- A cache of positive capacity starts valid.
pub new-IsValid : (max max_ttl : ℤ) → pos 0 <ℤ max → IsValid (new max max_ttl)
unfolding new id_of
new-IsValid max max_ttl h = record {
  linked = λ k. refl;
  distinct = tt;
  below = tt;
  positive = h;
  bounded = omega arith;
}

pub flush-IsValid : (c : Cache) → IsValid c → IsValid (flush c)
unfolding flush id_of
flush-IsValid c v = record {
  linked = λ k. refl;
  distinct = tt;
  below = tt;
  positive = v.positive;
  bounded = let p = v.positive in omega arith;
}

module _ (c : Cache) (el : Element) (v : IsValid c) (here : element el.id c.lru ≡ some el) where
  pub remove_locked-IsValid : IsValid (remove_locked el c)
  unfolding remove_locked update
  remove_locked-IsValid = record {
    linked = λ k.
        let gone = id_of-remove_element el.id c.lru el k v.distinct here in
        let before = v.linked k in ground arith;
    distinct = Distinct-remove_element el.id c.lru v.distinct;
    below = Below-remove_element c.next el.id c.lru v.below;
    positive = v.positive;
    bounded = let b = v.bounded in omega (arith, length-remove_element el.id c.lru el here);
  }

  pub remove_locked-room : is_full (remove_locked el c) ≡ false
  unfolding remove_locked
  remove_locked-room =
      let b = v.bounded in ground (arith, length-remove_element el.id c.lru el here)

pub push_front-IsValid :
    (c : Cache) (e : Entry)
    → IsValid c
    → is_full c ≡ false
    → id_of e.key c.lru ≡ none
    → IsValid (push_front e c)
unfolding push_front update id_of
push_front-IsValid c e v room fresh = record {
  linked = λ k. let before = v.linked k in ground arith;
  distinct = (fresh, element-Below c.next c.lru v.below, v.distinct);
  below = (omega arith, Below-suc c.next c.lru v.below);
  positive = v.positive;
  bounded = ground arith;
}

-- The last element is in the list.
pub element-back :
    (es : List Element) (el : Element)
    → Distinct es
    → back es ≡ some el
    → element el.id es ≡ some el
unfolding back element
element-back [] el d h = cc
element-back (e ∷ []) el d h = ground arith
element-back (e ∷ f ∷ es) el d h = let ih = element-back (f ∷ es) el d.2 h in ground arith

pub back-cons : (e : Element) (es : List Element) → (el : Element) × (back (e ∷ es) ≡ some el)
unfolding back
back-cons e [] = (e, refl)
back-cons e (f ∷ es) = back-cons f es

-- Without its last element the list holds all entries but the last.
pub entries-remove_back :
    (n : ℕ) (es : List Element) (el : Element)
    → Distinct es
    → back es ≡ some el
    → length es ≡ suc n
    → entries (remove_element el.id es) ≡ take n (entries es)
unfolding back remove_element element
entries-remove_back n [] el d h l = cc
entries-remove_back zero (e ∷ []) el d h l = ground arith
entries-remove_back (suc n) (e ∷ []) el d h l = absurd (omega arith)
entries-remove_back zero (e ∷ f ∷ es) el d h l = absurd (omega arith)
entries-remove_back (suc n) (e ∷ f ∷ es) el d h l =
    let ih = entries-remove_back n (f ∷ es) el d.2 h (omega arith) in
    let there = element-back (f ∷ es) el d.2 h in
    elim (Bool-cases (e.id == el.id)) [
      | inl b ↦ absurd (ground (arith, ==_iff e.id el.id))
      | inr b ↦ rw (b, ih)
    ]
