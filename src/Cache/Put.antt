-- ===== src/Cache/Put.antt =====
-- How `Put` makes room, and its refinement.
use true_dns.Base.{
  ℕ, zero, suc, ◌-◌, ◌≡◌, refl, true, false, none, some, List, [], ◌∷◌, arith, length, ℤ, pos,
  pos_part, leb_ℤ, ◌<ℤ◌, inl, inr, Bool-cases, Option-cases, take, ap, sym, subst, ◌∙◌, ◌≤◌, ◌<◌,
  take_of_length-le,
}
use true_dns.Text.{Bytes}
use true_dns.Dns.{Msg}
use true_dns.Cache.Defs.{
  Cache, Entry, Element, element, remove_element, back, is_full, evict_expired, evict_back,
  remove_locked, push_front, put_element, put_new, put, move_to_front,
}
use true_dns.Cache.Links.{
  id_of, remove_key, entries, element_of_id, id_of-remove_element, entries-remove_element,
  length-remove_element,
}
use true_dns.Cache.Valid.{
  IsValid, remove_locked-IsValid, remove_locked-room, push_front-IsValid, element-back, back-cons,
  entries-remove_back,
}
use true_dns.Cache.Spec.{Holds, spec_put, expiry, touch-IsValid}

evict_expired_room :
    (fuel : ℕ) (tick : ℕ → ℤ) (c : Cache) → is_full c ≡ false → evict_expired fuel tick c ≡ c
unfolding evict_expired
evict_expired_room zero tick c h = refl
evict_expired_room (suc fuel) tick c h = ground arith

evict_back_room : (c : Cache) → is_full c ≡ false → evict_back c ≡ some c
unfolding evict_back
evict_back_room c h = ground arith

-- A valid cache is never more than full.
full_length :
    (c : Cache)
    → IsValid c
    → is_full c ≡ true
    → (length c.lru ≡ pos_part c.max) × (pos_part c.max ≡ suc (pos_part c.max - 1))
full_length c v full = let b = v.bounded in let p = v.positive in ground arith

room_length : (c : Cache) → IsValid c → is_full c ≡ false → length c.lru < pos_part c.max
room_length c v room = let p = v.positive in ground arith

-- Where a valid cache is full, both evictions together take the least recently used element and
-- no other, whatever the clock says.
pub evict_full :
    (tick : ℕ → ℤ) (c : Cache) (el : Element)
    → IsValid c
    → is_full c ≡ true
    → back c.lru ≡ some el
    → evict_back (evict_expired (length c.lru) tick c) ≡ some (remove_locked el c)
unfolding evict_expired evict_back back
evict_full tick c el v full last = go (length c.lru) (let l = full_length c v full in omega arith)
  where
    room : is_full (remove_locked el c) ≡ false
    room = remove_locked-room c el v (element-back c.lru el v.distinct last)

    go : (n : ℕ) → 0 < n → evict_back (evict_expired n tick c) ≡ some (remove_locked el c)
    go zero h = absurd (omega arith)
    go (suc n) h = ground (
      arith,
      evict_expired_room n tick (remove_locked el c) room,
      evict_back_room (remove_locked el c) room,
    )

length-entries : (es : List Element) → length (entries es) ≡ length es
length-entries [] = refl
length-entries (e ∷ es) = ap suc (length-entries es)

remove_key_absent :
    (k : Bytes) (es : List Element) → id_of k es ≡ none → remove_key k (entries es) ≡ entries es
unfolding id_of remove_key
remove_key_absent k [] h = refl
remove_key_absent k (e ∷ es) h = ground (arith, remove_key_absent k es)

back_of : (n : ℕ) (es : List Element) → length es ≡ suc n → (el : Element) × (back es ≡ some el)
back_of n [] h = absurd (omega arith)
back_of n (e ∷ es) h = back-cons e es

module _ (c : Cache) (e : Entry) (v : IsValid c) where
  abbrev wanted : List Entry
  wanted = spec_put (pos_part c.max) e (entries c.lru)

  put_element-Holds :
      (i : ℕ) (el : Element)
      → element i c.lru ≡ some el
      → el.id ≡ i
      → el.value.key ≡ e.key
      → (c' : Cache) × (put_element e.key e.msg e.expires i c ≡ some c') × Holds c c' wanted
  unfolding put_element spec_put
  put_element-Holds i el here same k = (
    record c {
      lru =
          move_to_front
            (record el { value = record { key = el.value.key; msg = e.msg; expires = e.expires } })
            c.lru;
    },
    ground arith,
    record {
      valid =
          touch-IsValid c i el v here same
            (record { key = el.value.key; msg = e.msg; expires = e.expires }) c.hits refl;
      view =
          let k' : record e { key = el.value.key } ≡ e = λ j. record e { key = k j } in
          let gone : entries (remove_element el.id c.lru) ≡ remove_key e.key (entries c.lru) =
            rw same (
              subst (λ q. entries (remove_element i c.lru) ≡ remove_key q (entries c.lru)) k
                (entries-remove_element i c.lru el v.distinct here)) in
          let b = v.bounded in
          let bound : suc (length (remove_key e.key (entries c.lru))) ≤ pos_part c.max = omega (
            arith,
            ap length gone,
            length-entries (remove_element el.id c.lru),
            length-remove_element el.id c.lru el (simp same here),
          ) in
          (λ j. k' j ∷ gone j)
          ∙ sym (take_of_length-le (pos_part c.max) (e ∷ remove_key e.key (entries c.lru)) bound);
      max_same = refl;
      max_ttl_same = refl;
    },
  )

  put_new-Holds :
      (tick : ℕ → ℤ)
      → id_of e.key c.lru ≡ none
      → (c' : Cache) × (put_new tick e c ≡ some c') × Holds c c' wanted
  unfolding put_new spec_put
  put_new-Holds tick absent = elim (Bool-cases (is_full c)) [
    | inl full ↦
        let l = full_length c v full in
        let (el, last) = back_of (pos_part c.max - 1) c.lru (l.0 ∙ l.1) in
        let here = element-back c.lru el v.distinct last in
        (
          push_front e (remove_locked el c),
          rw (evict_full tick c el v full last, put_new),
          record {
            valid =
                push_front-IsValid (remove_locked el c) e (remove_locked-IsValid c el v here)
                  (remove_locked-room c el v here)
                  (unfold remove_locked in
                    ground (arith, id_of-remove_element el.id c.lru el e.key v.distinct here));
            view =
                unfold push_front remove_locked in
                (ap (◌∷◌ e)
                    (entries-remove_back (pos_part c.max - 1) c.lru el v.distinct last (l.0 ∙ l.1))
                  ∙ λ j. take (sym l.1 j) (e ∷ sym (remove_key_absent e.key c.lru absent) j));
            max_same = unfold push_front remove_locked in refl;
            max_ttl_same = unfold push_front remove_locked in refl;
          },
        )
    | inr room ↦ (
      push_front e c,
      ground (arith, evict_expired_room (length c.lru) tick c room, evict_back_room c room),
      record {
        valid = push_front-IsValid c e v room absent;
        view =
            unfold push_front in
            (ap (◌∷◌ e) (sym (remove_key_absent e.key c.lru absent))
              ∙ sym (
                  take_of_length-le (pos_part c.max) (e ∷ remove_key e.key (entries c.lru)) (
                    let r = room_length c v room in
                    let gone = ap length (remove_key_absent e.key c.lru absent) in
                    omega (arith, gone, length-entries c.lru))));
        max_same = unfold push_front in refl;
        max_ttl_same = unfold push_front in refl;
      },
    )
  ]

-- On a valid cache `Put` of a message for a positive time follows no stale pointer and keeps the
-- cache valid. The entry, with the time cut to the cache's maximum, moves to the front, and the
-- first `max` entries stay, whatever the clock says during the eviction.
pub put-spec_put :
    (tick : ℕ → ℤ) (now : ℤ) (key : Bytes) (m : Msg) (ttl : ℤ) (c : Cache)
    → IsValid c
    → pos 0 <ℤ ttl
    → (c' : Cache) × (put tick now key (some m) ttl c ≡ some c')
      × Holds c c' (
          spec_put
            (pos_part c.max)
            (record { key = key; msg = m; expires = expiry c now ttl })
            (entries c.lru))
unfolding put
put-spec_put tick now key m ttl c v positive =
    let e : Entry = record { key = key; msg = m; expires = expiry c now ttl } in
    let test : leb_ℤ ttl (pos 0) ≡ false = ground arith in
    elim (Option-cases (id_of key c.lru)) [
      | inl absent ↦
          let unlinked : c.index key ≡ none = v.linked key ∙ absent in
          let (c', run, held) = put_new-Holds c e v tick absent in
          (c', rw (test, put, unlinked) run, held)
      | inr (i, linked) ↦
          let pointer : c.index key ≡ some i = v.linked key ∙ linked in
          let (el, here, k, same, _) = element_of_id key c.lru i v.distinct linked in
          let (c', run, held) = put_element-Holds c e v i el here same k in
          (c', rw (test, put, pointer) run, held)
    ]
