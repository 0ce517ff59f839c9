-- ===== src/Cache/Defs.antt =====
-- The state and the operations. The list of `container/list` is a list of elements, the front
-- first; a pointer to an element is its number, and `next` numbers the next element. Following a
-- pointer to an element that is not in the list, or to nil, is a fault, `none`. A point in time
-- and a duration are in nanoseconds. `Msg` is a value here, so `Copy` is the value itself. Each
-- operation holds the lock from start to end.
use true_dns.Base.{
  ℕ, zero, suc, ◌+◌, ◌*◌, ◌/◌, ◌%◌, ◌^◌, Bool, true, false, Option, none, some, List, [], ◌∷◌, ◌==◌,
  ltb, if◌then◌else◌, length, ℤ, pos, pos_part, ◌+ℤ◌, ◌-ℤ◌, ltb_ℤ, leb_ℤ, ◌-◌, ◌++◌,
}
use true_dns.Text.{Bytes, bytes_eq, to_lower}
use true_dns.Dns.{Msg, Question, Rr, RrData, type_opt}

pub record Entry : Type 0 where
  pub key : Bytes
  pub msg : Msg
  pub expires : ℤ

-- `list.Element`
pub record Element : Type 0 where
  pub id : ℕ
  pub value : Entry

pub record Cache : Type 0 where
  pub lru : List Element
  pub index : Bytes → Option ℕ
  pub next : ℕ
  pub max : ℤ
  pub max_ttl : ℤ
  pub hits : ℕ
  pub misses : ℕ

abbrev pub second : ℕ
second = 1_000_000_000

-- `New`
unfoldable pub new : ℤ → ℤ → Cache
new max_entries max_ttl = record {
  lru = [];
  index = λ _. none;
  next = 0;
  max = max_entries;
  max_ttl = max_ttl;
  hits = 0;
  misses = 0;
}

-- `Key`; the two tables are `dns.TypeToString` and `dns.ClassToString`
unfoldable pub cache_key : (ℕ → Bytes) → (ℕ → Bytes) → Question → Bytes
cache_key type_to_string class_to_string q =
    to_lower q.name ++ (b'|' ∷ (type_to_string q.qtype ++ (b'|' ∷ class_to_string q.qclass)))

-- the element that a pointer points to
unfoldable pub element : ℕ → List Element → Option Element
element i [] = none
element i (e ∷ es) = if e.id == i then some e else element i es

-- `lru.Remove`
unfoldable pub remove_element : ℕ → List Element → List Element
remove_element i [] = []
remove_element i (e ∷ es) = if e.id == i then es else e ∷ remove_element i es

-- `lru.Back`
unfoldable pub back : List Element → Option Element
back [] = none
back (e ∷ []) = some e
back (e ∷ f ∷ es) = back (f ∷ es)

-- `index[k] = v`, or `delete(index, k)` where the value is `none`
unfoldable pub update : (Bytes → Option ℕ) → Bytes → Option ℕ → Bytes → Option ℕ
update index k v j = if bytes_eq k j then v else index j

abbrev pub uint64_inc : ℕ → ℕ
uint64_inc n = (n + 1) % 2 ^ 64

unfoldable pub remove_locked : Element → Cache → Cache
remove_locked el c = record c {
  index = update c.index el.value.key none;
  lru = remove_element el.id c.lru;
}

-- `setTTLs` on one section
unfoldable pub set_section_ttls : ℕ → List Rr → List Rr
set_section_ttls ttl [] = []
set_section_ttls ttl (rr ∷ rrs) =
    (if rr.rrtype == type_opt then rr else record rr { ttl = ttl }) ∷ set_section_ttls ttl rrs

unfoldable pub set_ttls : ℕ → Msg → Msg
set_ttls ttl m = record m { answer = set_section_ttls ttl m.answer; ns = set_section_ttls ttl m.ns }

-- the remaining lifetime in whole seconds, rounded up, as a `uint32`, and at least 1
unfoldable pub ceil_seconds : ℤ → ℕ
ceil_seconds remaining =
    let ttl = (pos_part remaining + (second - 1)) / second % 2 ^ 32 in if ltb ttl 1 then 1 else ttl

abbrev pub miss : Cache → Cache
miss c = record c { misses = uint64_inc c.misses }

-- `MoveToFront`
abbrev pub move_to_front : Element → List Element → List Element
move_to_front el es = el ∷ remove_element el.id es

-- `Get` behind a hit of the index
unfoldable pub get_element : ℤ → Element → Cache → Cache × Option Msg
unfolding remove_locked
get_element now el c =
    let remaining = el.value.expires -ℤ now in
    if leb_ℤ remaining (pos 0) then (miss (remove_locked el c), none) else (
      record c { hits = uint64_inc c.hits; lru = move_to_front el c.lru },
      some (set_ttls (ceil_seconds remaining) el.value.msg),
    )

-- `Get` at time `now`
unfoldable pub get : ℤ → Bytes → Cache → Option (Cache × Option Msg)
unfolding get_element
get now key c = elim (c.index key) [
  | none ↦ some (miss c, none)
  | some i ↦ elim (element i c.lru) [ none ↦ none | some el ↦ some (get_element now el c) ]
]

-- whether the list has as many elements as allowed, or more
abbrev pub is_full : Cache → Bool
is_full c = leb_ℤ c.max (pos (length c.lru))

-- The loop of `Put`: `tick` gives the readings of the clock. Each round removes an element, so
-- the number of elements is fuel enough.
unfoldable pub evict_expired : ℕ → (ℕ → ℤ) → Cache → Cache
evict_expired zero tick c = c
evict_expired (suc fuel) tick c = elim (back c.lru) [
  | none ↦ c
  | some el ↦
      let rest = evict_expired fuel tick (remove_locked el c) in
      if is_full c then (if ltb_ℤ el.value.expires (tick fuel) then rest else c) else c
]

-- the second eviction: the least recently used element, if there is still no room
unfoldable pub evict_back : Cache → Option Cache
evict_back c =
    if is_full c
    then elim (back c.lru) [ none ↦ none | some el ↦ some (remove_locked el c) ]
    else some c

unfoldable pub push_front : Entry → Cache → Cache
push_front e c = record c {
  lru = record { id = c.next; value = e } ∷ c.lru;
  index = update c.index e.key (some c.next);
  next = suc c.next;
}

-- `Put` for a key that the index has
unfoldable pub put_element : Bytes → Msg → ℤ → ℕ → Cache → Option Cache
put_element key msg expires i c = elim (element i c.lru) [
  | none ↦ none
  | some el ↦ some (record c {
    lru =
        move_to_front
          (record el { value = record { key = el.value.key; msg = msg; expires = expires } }) c.lru;
  })
]

-- `Put` for a new key
unfoldable pub put_new : (ℕ → ℤ) → Entry → Cache → Option Cache
put_new tick e c = elim (evict_back (evict_expired (length c.lru) tick c)) [
  | none ↦ none
  | some c' ↦ some (push_front e c')
]

-- `Put`: `now` is the reading of the clock for the expiry, and `msg` is `none` for nil
unfoldable pub put : (ℕ → ℤ) → ℤ → Bytes → Option Msg → ℤ → Cache → Option Cache
put tick now key none ttl c = some c
put tick now key (some msg) ttl c =
    if leb_ℤ ttl (pos 0)
    then some c
    else (let expires = now +ℤ (if ltb_ℤ c.max_ttl ttl then c.max_ttl else ttl) in
        elim (c.index key) [
          | some i ↦ put_element key msg expires i c
          | none ↦ put_new tick (record { key = key; msg = msg; expires = expires }) c
        ])

-- `Flush`
unfoldable pub flush : Cache → Cache
flush c = record c { lru = []; index = λ _. none }

-- `Stats`
unfoldable pub stats : Cache → ℕ × ℕ × ℕ
stats c = (length c.lru, c.hits, c.misses)

abbrev pub max_duration : ℕ
max_duration = 2 ^ 63 - 1

-- the lifetime of one record: for a SOA record the smaller of its TTL and its minimum field
unfoldable pub rr_lifetime : Rr → ℕ
rr_lifetime rr = elim rr.rdata [
  | RrData.soa minttl ↦
      if ltb (minttl * second) (rr.ttl * second) then minttl * second else rr.ttl * second
  | _ ↦ rr.ttl * second
]

abbrev pub lesser : ℕ → ℕ → ℕ
lesser t ttl = if ltb t ttl then t else ttl

-- the loop of `TTLFromMsg` over a section: whether a record was found, and the least lifetime
unfoldable pub scan_section : Bool → ℕ → List Rr → Bool × ℕ
scan_section found ttl [] = (found, ttl)
scan_section found ttl (rr ∷ rrs) =
    scan_section (if rr.rrtype == type_opt then found else true)
      (if rr.rrtype == type_opt then ttl else lesser (rr_lifetime rr) ttl) rrs

-- `TTLFromMsg` behind the two loops
unfoldable pub cap_ttl : Bool → ℕ → ℤ → ℤ
cap_ttl found ttl max_ttl =
    if found
    then (let capped = if ltb_ℤ max_ttl (pos ttl) then max_ttl else pos ttl in
        if leb_ℤ capped (pos 0) then pos 0 else capped)
    else pos 0

-- `TTLFromMsg`
unfoldable pub ttl_from_msg : Option Msg → ℤ → ℤ
unfolding scan_section rr_lifetime cap_ttl
ttl_from_msg none max_ttl = pos 0
ttl_from_msg (some m) max_ttl =
    if m.truncated
    then pos 0
    else (let (f, t) = scan_section false max_duration m.answer in
        let (found, ttl) = scan_section f t m.ns in cap_ttl found ttl max_ttl)
