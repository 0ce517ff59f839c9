-- ===== src/Cache/Examples.antt =====
-- Runs of the cache, and its theorems at concrete caches.
use true_dns.Base.{
  ℕ, ◌≡◌, ◌↔◌, refl, true, false, Option, none, some, [], ◌∷◌, ◌*◌, ℤ, pos, ◌+ℤ◌, ◌-ℤ◌, arith, inl,
  pos_part, ◌==◌, if◌then◌else◌,
}
use true_dns.Text.{Bytes, codes, bytes_eq, to_lower, contains_byte}
use true_dns.Dns.{Msg, Question, Rr, RrData}
use true_dns.Cache.Defs.{
  Cache, new, cache_key, get, put, put_new, put_element, push_front, evict_expired, evict_back,
  update, element, remove_element, back, second, set_ttls, set_section_ttls, ceil_seconds,
  ttl_from_msg,
}
use true_dns.Cache.Links.{entries}
use true_dns.Cache.Valid.{IsValid, new-IsValid}
use true_dns.Cache.Spec.{Holds, spec_get, spec_put, expiry, get-spec_get}
use true_dns.Cache.Put.{put-spec_put}
use true_dns.Cache.Ttl.{IsLifetime, ttl_from_msg-IsLifetime}
use true_dns.Cache.Key.{cache_key_iff}

program : Unit {0}
unfolding new get put put_new put_element push_front evict_expired evict_back update element
    remove_element back set_ttls set_section_ttls ceil_seconds ttl_from_msg bytes_eq ◌+ℤ◌ ◌-ℤ◌
program = tt

abbrev no_flags : Msg
no_flags = record {
  id = 0;
  rcode = 0;
  response = true;
  truncated = false;
  recursion_desired = true;
  recursion_available = true;
  checking_disabled = false;
  question = [];
  answer = [];
  ns = [];
  extra = [];
}

abbrev address : ℕ → Rr
address ttl = record {
  rr_name = codes "a.";
  rrtype = 1;
  class = 1;
  ttl = ttl;
  rdata = RrData.a (1 ∷ 2 ∷ 3 ∷ 4 ∷ []);
}

abbrev authority : Rr
authority = record { rr_name = codes "a."; rrtype = 6; class = 1; ttl = 900; rdata = RrData.soa 60 }

abbrev reply : Msg
reply = record no_flags { answer = address 300 ∷ []; ns = authority ∷ [] }

abbrev hour : ℤ
hour = pos (3600 * second)

abbrev start : Cache
start = new (pos 2) hour

abbrev zero_clock : ℕ → ℤ
zero_clock _ = pos 0

-- The minimum field of the SOA record is the least.
lifetime : ttl_from_msg (some reply) hour ≡ pos (60 * second)
unfolding program
lifetime = refl

start-IsValid : IsValid start
start-IsValid = new-IsValid (pos 2) hour (omega arith)

abbrev minute : ℤ
minute = pos (60 * second)

abbrev stored : Cache
stored = record start {
  lru = record { id = 0; value = record { key = codes "a"; msg = reply; expires = minute } } ∷ [];
  index = update (λ _. none) (codes "a") (some 0);
  next = 1;
}

-- Half a second before the end a hit serves one second; at the end it is a miss.
get_run :
    (get (pos (59 * second)) (codes "a") stored
      ≡ some (record stored { hits = 1 }, some (set_ttls 1 reply)))
    × (get minute (codes "a") stored
        ≡ some (
          record start { index = update stored.index (codes "a") none; next = 1; misses = 1 },
          none,
        ))
unfolding program
get_run = (refl, refl)

get-spec_get_example :
    (c' : Cache) × (r : Option Msg) × (get (pos 5) (codes "a") start ≡ some (c', r))
    × Holds start c' (spec_get (pos 5) (codes "a") (entries start.lru)).0
    × (r ≡ (spec_get (pos 5) (codes "a") (entries start.lru)).1)
unfolding new
get-spec_get_example = get-spec_get (pos 5) (codes "a") start start-IsValid

put-spec_put_example :
    (c' : Cache) × (put zero_clock (pos 0) (codes "a") (some reply) minute start ≡ some c')
    × Holds start c' (
        spec_put
          (pos_part start.max)
          (record { key = codes "a"; msg = reply; expires = expiry start (pos 0) minute })
          (entries start.lru))
put-spec_put_example =
    put-spec_put zero_clock (pos 0) (codes "a") reply minute start start-IsValid (omega arith)

ttl_from_msg-IsLifetime_example :
    (n : ℕ) × (ttl_from_msg (some reply) hour ≡ pos n) × IsLifetime reply hour n
ttl_from_msg-IsLifetime_example =
    ttl_from_msg-IsLifetime reply hour (address 300) refl (inl (inl refl), omega arith)
      (omega arith)

abbrev types : ℕ → Bytes
types t = if t == 1 then codes "A" else []

abbrev classes : ℕ → Bytes
classes t = if t == 1 then codes "IN" else []

abbrev ask : ℕ → Question
ask t = record { name = codes "a."; qtype = t; qclass = 1 }

no_bar_types : (t : ℕ) → contains_byte (types t) b'|' ≡ false
unfolding contains_byte
no_bar_types t = ground arith

no_bar_classes : (t : ℕ) → contains_byte (classes t) b'|' ≡ false
unfolding contains_byte
no_bar_classes t = ground arith

cache_key_iff_example :
    (cache_key types classes (ask 65280) ≡ cache_key types classes (ask 65281)) ↔ (
      (to_lower (codes "a.") ≡ to_lower (codes "a."))
      × (types 65280 ≡ types 65281)
      × (classes 1 ≡ classes 1))
cache_key_iff_example =
    cache_key_iff types classes no_bar_types no_bar_classes (ask 65280) (ask 65281)

-- Two private types share a key.
shared_key : cache_key types classes (ask 65280) ≡ cache_key types classes (ask 65281)
shared_key = cache_key_iff_example.1 (refl, refl, refl)
