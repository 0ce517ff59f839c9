-- ===== src/Probe/Bound.antt =====
-- The cache of results never holds more than its maximum.
use true_dns.Base.{
  suc, ◌≡◌, ◌≤◌, ◌<◌, ◌⊎◌, refl, inl, inr, none, some, List, [], ◌∷◌, arith, subst, sym, length,
  leb, ℤ, ltb_ℤ, Bool-cases, Option-cases, pos,
}
use true_dns.Text.{Bytes, bytes_eq, bytes_eq_iff}
use true_dns.Override.{get_key, set_key}
use true_dns.Probe.Filter.{ProbeResult}
use true_dns.Probe.Store.{
  CacheEntry, Prober, cache_max_entries, delete_key, sweep_expired, oldest_key, evict_oldest,
  make_room, settle, look, fresh_at, in_flight,
}

length-set_key-le :
    {V : Type 0} (k : Bytes) (v : V) (m : List (Bytes × V))
    → length (set_key k v m) ≤ suc (length m)
unfolding set_key
length-set_key-le k v [] = omega arith
length-set_key-le k v ((j, w) ∷ m) = ground (arith, length-set_key-le k v m)

length-set_key_old :
    {V : Type 0} (k : Bytes) (v w : V) (m : List (Bytes × V))
    → get_key k m ≡ some w
    → length (set_key k v m) ≡ length m
unfolding set_key get_key
length-set_key_old k v w [] h = cc
length-set_key_old k v w ((j, u) ∷ m) h = ground (arith, length-set_key_old k v w m)

length-delete_key-le :
    {V : Type 0} (k : Bytes) (m : List (Bytes × V)) → length (delete_key k m) ≤ length m
unfolding delete_key
length-delete_key-le k [] = omega arith
length-delete_key-le k ((j, w) ∷ m) = ground (arith, length-delete_key-le k m)

length-delete_key-lt :
    {V : Type 0} (k : Bytes) (w : V) (m : List (Bytes × V))
    → get_key k m ≡ some w
    → length (delete_key k m) < length m
unfolding delete_key get_key
length-delete_key-lt k w [] h = cc
length-delete_key-lt k w ((j, u) ∷ m) h =
    ground (arith, length-delete_key-le k m, length-delete_key-lt k w m)

length-sweep_expired-le :
    (now : ℤ) (m : List (Bytes × CacheEntry)) → length (sweep_expired now m) ≤ length m
unfolding sweep_expired
length-sweep_expired-le now [] = omega arith
length-sweep_expired-le now ((k, e) ∷ m) = ground (arith, length-sweep_expired-le now m)

get_key_cons :
    (k j : Bytes) (e w : CacheEntry) (m : List (Bytes × CacheEntry))
    → get_key k m ≡ some w
    → (u : CacheEntry) × (get_key k ((j, e) ∷ m) ≡ some u)
unfolding get_key
get_key_cons k j e w m h = elim (Bool-cases (bytes_eq j k)) [
  | inl b ↦ (e, rw b refl)
  | inr b ↦ (w, rw b h)
]

get_key_head :
    (k : Bytes) (e : CacheEntry) (m : List (Bytes × CacheEntry)) → get_key k ((k, e) ∷ m) ≡ some e
unfolding get_key
get_key_head k e m = ground (arith, bytes_eq_iff k k)

-- The key that is found is the first one or a key of the rest.
oldest_key_found :
    (k : Bytes) (t : ℤ) (m : List (Bytes × CacheEntry))
    → (oldest_key k t m ≡ k) ⊎ ((w : CacheEntry) × (get_key (oldest_key k t m) m ≡ some w))
unfolding oldest_key
oldest_key_found k t [] = inl refl
oldest_key_found k t ((j, e) ∷ m) = elim (Bool-cases (ltb_ℤ e.inserted t)) [
  | inl b ↦ rw b (elim (oldest_key_found j e.inserted m) [
    | inl same ↦ inr (e, rw same (get_key_head j e m))
    | inr (w, h) ↦ inr (get_key_cons (oldest_key j e.inserted m) j e w m h)
  ])
  | inr b ↦ rw b (elim (oldest_key_found k t m) [
    | inl same ↦ inl same
    | inr (w, h) ↦ inr (get_key_cons (oldest_key k t m) j e w m h)
  ])
]

length-evict_oldest-lt :
    (m : List (Bytes × CacheEntry)) → 0 < length m → length (evict_oldest m) < length m
unfolding evict_oldest
length-evict_oldest-lt [] h = absurd (omega arith)
length-evict_oldest-lt ((k, e) ∷ m) h = elim (oldest_key_found k e.inserted m) [
  | inl same ↦
      length-delete_key-lt (oldest_key k e.inserted m) e ((k, e) ∷ m)
        (subst (λ j. get_key j ((k, e) ∷ m) ≡ some e) (sym same) (get_key_head k e m))
  | inr (w, g) ↦
      let (u, f) = get_key_cons (oldest_key k e.inserted m) k e w m g in
      length-delete_key-lt (oldest_key k e.inserted m) u ((k, e) ∷ m) f
]

-- A new key has room.
length-make_room-lt :
    (now : ℤ) (key : Bytes) (m : List (Bytes × CacheEntry))
    → length m ≤ cache_max_entries
    → get_key key m ≡ none
    → length (make_room now key m) < cache_max_entries
unfolding make_room
length-make_room-lt now key m h absent =
    let swept = sweep_expired now m in
    elim (Bool-cases (leb cache_max_entries (length m))) [
      | inr b ↦ rw (absent, make_room, b) (ground arith)
      | inl b ↦ elim (Bool-cases (leb cache_max_entries (length swept))) [
        | inr d ↦ rw (absent, make_room, b, d) (ground arith)
        | inl d ↦
            rw (absent, make_room, b, d)
              (ground (arith, length-evict_oldest-lt swept, length-sweep_expired-le now m))
      ]
    ]

make_room_old :
    (now : ℤ) (key : Bytes) (w : CacheEntry) (m : List (Bytes × CacheEntry))
    → get_key key m ≡ some w
    → make_room now key m ≡ m
unfolding make_room
make_room_old now key w m here = rw (here, make_room) refl

stored_le :
    (now : ℤ) (key : Bytes) (v : CacheEntry) (m : List (Bytes × CacheEntry))
    → length m ≤ cache_max_entries
    → length (set_key key v (make_room now key m)) ≤ cache_max_entries
stored_le now key v m h = elim (Option-cases (get_key key m)) [
  | inl absent ↦
      omega (
        arith,
        length-make_room-lt now key m h absent,
        length-set_key-le key v (make_room now key m),
      )
  | inr (w, here) ↦
      rw (make_room_old now key w m here) (omega (arith, length-set_key_old key v w m here))
]

stored_bounded :
    (now : ℤ) (key : Bytes) (res : ProbeResult) (p : Prober)
    → length p.cache ≤ cache_max_entries
    → length (settle now key res p).cache ≤ cache_max_entries
unfolding settle
stored_bounded now key res p h = elim (Bool-cases (ltb_ℤ (pos 0) p.ttl)) [
  | inl b ↦ rw (b, settle) (stored_le now key _ p.cache h)
  | inr b ↦ rw (b, settle) h
]

look_same : (now : ℤ) (key : Bytes) (p : Prober) → (look now key p).0.cache ≡ p.cache
unfolding look
look_same now key p = elim (Option-cases (fresh_at now (get_key key p.cache))) [
  | inr (res, f) ↦ rw (f, look) refl
  | inl f ↦ elim (Bool-cases (in_flight key p.inflight)) [
    | inl b ↦ rw (f, look, b) refl
    | inr b ↦ rw (f, look, b) refl
  ]
]

-- Storing the outcome of a dial keeps the cache within its maximum of 4096 results, whatever the
-- other callers stored since the look, and a look changes nothing in it.
pub settle_bounded :
    (now : ℤ) (key : Bytes) (res : ProbeResult) (p : Prober)
    → length p.cache ≤ cache_max_entries
    → (length (settle now key res p).cache ≤ cache_max_entries)
      × ((look now key p).0.cache ≡ p.cache)
settle_bounded now key res p h = (stored_bounded now key res p h, look_same now key p)
