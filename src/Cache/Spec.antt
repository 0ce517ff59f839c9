-- ===== src/Cache/Spec.antt =====
-- The cache as a list of entries, most recently used first, and the refinement: on a valid cache
-- no operation follows a stale pointer, and each does to the list of elements and the index what
-- the specification does to the list of entries.
use true_dns.Base.{
  ℕ, ◌≡◌, refl, true, false, Option, none, some, List, ◌∷◌, arith, if◌then◌else◌, ℤ, pos, ◌+ℤ◌,
  ◌-ℤ◌, ltb_ℤ, leb_ℤ, inl, inr, Bool-cases, Option-cases, take, ap, ◌∙◌,
}
use true_dns.Text.{Bytes, bytes_eq_iff}
use true_dns.Dns.{Msg}
use true_dns.Cache.Defs.{
  Cache, Entry, Element, element, remove_element, set_ttls, ceil_seconds, get_element, get,
  remove_locked, move_to_front, uint64_inc, miss,
}
use true_dns.Cache.Links.{
  id_of, find, remove_key, entries, element_of_id, find-none, id_of-element, id_of-remove_element,
  element-remove_element, entries-remove_element, length-remove_element, Below-remove_element,
  Below-element, Distinct-remove_element,
}
use true_dns.Cache.Valid.{IsValid, remove_locked-IsValid}

-- `Get`: a dead entry is dropped, and a live one moves to the front.
unfoldable pub spec_get : ℤ → Bytes → List Entry → List Entry × Option Msg
spec_get now key es = elim (find key es) [
  | none ↦ (es, none)
  | some e ↦
      if leb_ℤ (e.expires -ℤ now) (pos 0)
      then (remove_key key es, none)
      else (e ∷ remove_key key es, some (set_ttls (ceil_seconds (e.expires -ℤ now)) e.msg))
]

-- `Put`: the entry moves to the front, and the first `max` entries stay.
unfoldable pub spec_put : ℕ → Entry → List Entry → List Entry
spec_put max e es = take max (e ∷ remove_key e.key es)

abbrev pub expiry : Cache → ℤ → ℤ → ℤ
expiry c now ttl = now +ℤ (if ltb_ℤ c.max_ttl ttl then c.max_ttl else ttl)

-- `c'` is a valid cache with the entries `es`, and has the limits of `c`.
pub record Holds (c c' : Cache) (es : List Entry) : Type 0 where
  pub valid : IsValid c'
  pub view : entries c'.lru ≡ es
  pub max_same : c'.max ≡ c.max
  pub max_ttl_same : c'.max_ttl ≡ c.max_ttl

-- A replaced value at the front, with the same key and number.
module _ (c : Cache) (i : ℕ) (el : Element) (v : IsValid c) (here : element i c.lru ≡ some el)
    (same : el.id ≡ i) where
  pub touch-IsValid :
      (e : Entry) (hits : ℕ)
      → e.key ≡ el.value.key
      → IsValid (record c {
        lru = record { id = el.id; value = e } ∷ remove_element el.id c.lru;
        hits = hits;
      })
  unfolding id_of
  touch-IsValid e hits k = record {
    linked = λ q.
        let gone = id_of-remove_element i c.lru el q v.distinct here in
        let before = v.linked q in
        let own = id_of-element i c.lru el v.distinct here in
        ground (arith, bytes_eq_iff el.value.key q, bytes_eq_iff e.key q);
    distinct = (
      ground (
        arith,
        id_of-remove_element i c.lru el e.key v.distinct here,
        bytes_eq_iff el.value.key e.key,
      ),
      ground (arith, element-remove_element i i c.lru v.distinct),
      Distinct-remove_element el.id c.lru v.distinct,
    );
    below = (
      ground (arith, Below-element c.next i c.lru el v.below here),
      Below-remove_element c.next el.id c.lru v.below,
    );
    positive = v.positive;
    bounded = let b = v.bounded in ground (arith, length-remove_element i c.lru el here);
  }

miss-IsValid : (c : Cache) → IsValid c → IsValid (miss c)
miss-IsValid c v = record {
  linked = v.linked;
  distinct = v.distinct;
  below = v.below;
  positive = v.positive;
  bounded = v.bounded;
}

module _ (now : ℤ) (key : Bytes) (c : Cache) (el : Element) (v : IsValid c)
    (here : element el.id c.lru ≡ some el) (k : el.value.key ≡ key)
    (found : find key (entries c.lru) ≡ some el.value) where
  drop_dead :
      leb_ℤ (el.value.expires -ℤ now) (pos 0) ≡ true
      → Holds c (get_element now el c).0 (spec_get now key (entries c.lru)).0
        × ((get_element now el c).1 ≡ (spec_get now key (entries c.lru)).1)
  unfolding get_element remove_locked spec_get remove_key
  drop_dead dead =
      let run : get_element now el c ≡ (miss (remove_locked el c), none) = rw (get_element, dead) in
      let spec : spec_get now key (entries c.lru) ≡ (remove_key key (entries c.lru), none) =
        rw (found, spec_get, dead) in
      rw (run, spec)
        (
          record {
            valid = miss-IsValid _ (remove_locked-IsValid c el v here);
            view = entries-remove_element el.id c.lru el v.distinct here ∙ rw k;
            max_same = refl;
            max_ttl_same = refl;
          },
          refl,
        )

  serve_live :
      leb_ℤ (el.value.expires -ℤ now) (pos 0) ≡ false
      → Holds c (get_element now el c).0 (spec_get now key (entries c.lru)).0
        × ((get_element now el c).1 ≡ (spec_get now key (entries c.lru)).1)
  unfolding get_element spec_get remove_key
  serve_live live =
      let run : get_element now el c ≡ (
        record c { hits = uint64_inc c.hits; lru = move_to_front el c.lru },
        some (set_ttls (ceil_seconds (el.value.expires -ℤ now)) el.value.msg),
      ) =
        rw (get_element, live) in
      let spec : spec_get now key (entries c.lru) ≡ (
        el.value ∷ remove_key key (entries c.lru),
        some (set_ttls (ceil_seconds (el.value.expires -ℤ now)) el.value.msg),
      ) =
        rw (found, spec_get, live) in
      rw (run, spec)
        (
          record {
            valid = touch-IsValid c el.id el v here refl el.value (uint64_inc c.hits) refl;
            view = ap (◌∷◌ el.value) (entries-remove_element el.id c.lru el v.distinct here ∙ rw k);
            max_same = refl;
            max_ttl_same = refl;
          },
          refl,
        )

  get_element-Holds :
      Holds c (get_element now el c).0 (spec_get now key (entries c.lru)).0
      × ((get_element now el c).1 ≡ (spec_get now key (entries c.lru)).1)
  get_element-Holds = elim (Bool-cases (leb_ℤ (el.value.expires -ℤ now) (pos 0))) [
    | inl dead ↦ drop_dead dead
    | inr live ↦ serve_live live
  ]

-- On a valid cache `Get` follows no stale pointer. It keeps the cache valid, and answers and
-- leaves the entries as the specification says.
pub get-spec_get :
    (now : ℤ) (key : Bytes) (c : Cache)
    → IsValid c
    → (c' : Cache) × (r : Option Msg) × (get now key c ≡ some (c', r))
      × Holds c c' (spec_get now key (entries c.lru)).0
      × (r ≡ (spec_get now key (entries c.lru)).1)
unfolding get spec_get
get-spec_get now key c v = elim (Option-cases (id_of key c.lru)) [
  | inl absent ↦
      let none_found = find-none key c.lru absent in
      let unlinked : c.index key ≡ none = v.linked key ∙ absent in
      (
        miss c,
        none,
        rw (unlinked, get),
        record {
          valid = miss-IsValid c v;
          view = rw (none_found, spec_get);
          max_same = refl;
          max_ttl_same = refl;
        },
        rw (none_found, spec_get),
      )
  | inr (i, linked) ↦
      let (el, here, k, same, found) = element_of_id key c.lru i v.distinct linked in
      let pointer : c.index key ≡ some i = v.linked key ∙ linked in
      let at_id : element el.id c.lru ≡ some el = rw same here in
      let result = get_element-Holds now key c el v at_id k found in
      (
        (get_element now el c).0,
        (get_element now el c).1,
        rw (pointer, get, here),
        result.0,
        result.1,
      )
]
