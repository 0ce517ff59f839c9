-- ===== src/Probe/Store.antt =====
-- `Check`: the cache of results and the dials in flight. A caller first looks (`look`), with the
-- lock held; if it dials, the outcome is stored (`settle`) with the lock held again. Between the
-- two, other callers take steps of their own.
use true_dns.Base.{
  ℕ, ◌+◌, Bool, false, ◌||◌, Option, none, some, List, [], ◌∷◌, if◌then◌else◌, length, leb, ℤ, pos,
  ◌+ℤ◌, ltb_ℤ, ◌%◌, ◌^◌,
}
use true_dns.Text.{Bytes, bytes_eq}
use true_dns.Override.{get_key, set_key}
use true_dns.Probe.Filter.{ProbeResult}

pub record CacheEntry : Type 0 where
  pub res : ProbeResult
  pub expires : ℤ
  pub inserted : ℤ

pub record Prober : Type 0 where
  pub cache : List (Bytes × CacheEntry)
  pub inflight : List Bytes
  pub ttl : ℤ
  pub checks : ℕ

abbrev pub cache_max_entries : ℕ
cache_max_entries = 4096

-- `delete(m, k)`
unfoldable pub delete_key : {V : Type 0} → Bytes → List (Bytes × V) → List (Bytes × V)
delete_key k [] = []
delete_key k ((j, v) ∷ m) =
    let rest = delete_key k m in if bytes_eq j k then rest else (j, v) ∷ rest

unfoldable pub in_flight : Bytes → List Bytes → Bool
in_flight k [] = false
in_flight k (j ∷ l) = bytes_eq j k || in_flight k l

unfoldable pub land : Bytes → List Bytes → List Bytes
land k [] = []
land k (j ∷ l) = let rest = land k l in if bytes_eq j k then rest else j ∷ rest

-- `New`
abbrev pub new_prober : ℤ → Prober
new_prober ttl = record { cache = []; inflight = []; ttl = ttl; checks = 0 }

-- what a caller does after it has looked: return a cached result, wait for the dial in flight, or
-- dial
pub data Look : Type 0 where
  cached : ProbeResult → Look
  waits dials : Look

-- a cached result that has not expired at time `now`
abbrev pub fresh_at : ℤ → Option CacheEntry → Option ProbeResult
fresh_at now none = none
fresh_at now (some e) = if ltb_ℤ now e.expires then some e.res else none

-- the first critical section of `Check`
unfoldable pub look : ℤ → Bytes → Prober → Prober × Look
look now key p = elim (fresh_at now (get_key key p.cache)) [
  | some res ↦ (p, cached res)
  | none ↦
      if in_flight key p.inflight
      then (p, waits)
      else (record p { inflight = key ∷ p.inflight }, dials)
]

-- `sweepExpiredLocked`
unfoldable pub sweep_expired : ℤ → List (Bytes × CacheEntry) → List (Bytes × CacheEntry)
sweep_expired now [] = []
sweep_expired now ((k, e) ∷ m) =
    let rest = sweep_expired now m in if ltb_ℤ now e.expires then (k, e) ∷ rest else rest

-- the loop of `evictOldestLocked`, from the oldest key so far and its time
unfoldable pub oldest_key : Bytes → ℤ → List (Bytes × CacheEntry) → Bytes
oldest_key k t [] = k
oldest_key k t ((j, e) ∷ m) =
    oldest_key (if ltb_ℤ e.inserted t then j else k) (if ltb_ℤ e.inserted t then e.inserted else t)
      m

-- `evictOldestLocked`
unfoldable pub evict_oldest : List (Bytes × CacheEntry) → List (Bytes × CacheEntry)
unfolding oldest_key delete_key
evict_oldest [] = []
evict_oldest ((k, e) ∷ m) = delete_key (oldest_key k e.inserted m) ((k, e) ∷ m)

-- the room that is made for a new key
unfoldable pub make_room : ℤ → Bytes → List (Bytes × CacheEntry) → List (Bytes × CacheEntry)
unfolding evict_oldest sweep_expired
make_room now key m = elim (get_key key m) [
  | some e ↦ m
  | none ↦
      if leb cache_max_entries (length m)
      then (let swept = sweep_expired now m in
          if leb cache_max_entries (length swept) then evict_oldest swept else swept)
      else m
]

-- the second critical section of `Check`, with the time of the look
unfoldable pub settle : ℤ → Bytes → ProbeResult → Prober → Prober
unfolding make_room
settle now key res p = record p {
  checks = (p.checks + 1) % 2 ^ 64;
  inflight = land key p.inflight;
  cache =
      if ltb_ℤ (pos 0) p.ttl
      then set_key key (record { res = res; expires = now +ℤ p.ttl; inserted = now })
          (make_room now key p.cache)
      else p.cache;
}
