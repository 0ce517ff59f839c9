-- ===== src/Cache/Serve.antt =====
-- What `Get` answers after a `Put`, and which entries a `Put` can drop.
use true_dns.Base.{
  ℕ, zero, suc, ◌*◌, ◌≤◌, ◌<◌, ◌≡◌, inl, inr, Option, none, some, List, arith, if◌then◌else◌, ℤ,
  pos, pos_part, ◌+ℤ◌, ◌-ℤ◌, ◌≤ℤ◌, ◌<ℤ◌, ltb_ℤ, leb_ℤ, +ℤ_parts, -ℤ_parts, Bool-cases, ap, ◌∙◌,
  subst,
}
use true_dns.Text.{Bytes, bytes_eq_iff}
use true_dns.Dns.{Msg, Rr}
use true_dns.Cache.Defs.{Cache, Entry, second, set_ttls, ceil_seconds, get, put, ttl_from_msg}
use true_dns.Cache.Links.{find, entries}
use true_dns.Cache.Valid.{IsValid}
use true_dns.Cache.Spec.{spec_get, spec_put, expiry, get-spec_get}
use true_dns.Cache.Put.{put-spec_put}
use true_dns.Cache.Ttl.{
  Bears, IsWire, ttl_from_msg-le, ceil_seconds_pos, ceil_seconds_bounds, rr_lifetime-le,
}

-- The time that is left of `ttl` at `later`, if the entry was stored at `now`.
abbrev pub left : Cache → ℤ → ℤ → ℤ → ℤ
left c now ttl later = expiry c now ttl -ℤ later

-- What a hit answers at `later`.
abbrev pub answer_at : Cache → ℤ → ℤ → ℤ → Msg → Option Msg
answer_at c now ttl later m =
    if leb_ℤ (left c now ttl later) (pos 0)
    then none
    else some (set_ttls (ceil_seconds (left c now ttl later)) m)

find-spec_put :
    (max : ℕ) (e : Entry) (es : List Entry) → 0 < max → find e.key (spec_put max e es) ≡ some e
unfolding spec_put find
find-spec_put zero e es h = absurd (omega arith)
find-spec_put (suc n) e es h = ground (arith, bytes_eq_iff e.key e.key)

spec_get_found :
    (now : ℤ) (key : Bytes) (es : List Entry) (e : Entry)
    → find key es ≡ some e
    → (spec_get now key es).1 ≡ (
        if leb_ℤ (e.expires -ℤ now) (pos 0)
        then none
        else some (set_ttls (ceil_seconds (e.expires -ℤ now)) e.msg))
unfolding spec_get
spec_get_found now key es e found = elim (Bool-cases (leb_ℤ (e.expires -ℤ now) (pos 0))) [
  | inl dead ↦ ground arith
  | inr live ↦ ground arith
]

pub get-put :
    (tick : ℕ → ℤ) (now later : ℤ) (key : Bytes) (m : Msg) (ttl : ℤ) (c : Cache) {c' : Cache}
    → IsValid c
    → pos 0 <ℤ ttl
    → put tick now key (some m) ttl c ≡ some c'
    → (c'' : Cache) × (get later key c' ≡ some (c'', answer_at c now ttl later m))
get-put tick now later key m ttl c {c'} v positive stored =
    let e : Entry = record { key = key; msg = m; expires = expiry c now ttl } in
    let (d, run, held) = put-spec_put tick now key m ttl c v positive in
    let (c'', r, got, _, answer) = get-spec_get later key d held.valid in
    let room = v.positive in
    let found : find key (entries d.lru) ≡ some e =
      ap (find key) held.view ∙ find-spec_put (pos_part c.max) e (entries c.lru) (omega arith) in
    let same : d ≡ c' = ground arith in
    (
      c'',
      subst (λ x. get later key x ≡ some (c'', answer_at c now ttl later m)) same
          (got
            ∙ ap (λ o. some (c'', o)) (answer ∙ spec_get_found later key (entries d.lru) e found)),
    )

left-le :
    (c : Cache) (now later ttl : ℤ) (n : ℕ)
    → now ≤ℤ later
    → ttl ≤ℤ pos n
    → left c now ttl later ≤ℤ pos n
left-le c now later ttl n order h =
    let cut = if ltb_ℤ c.max_ttl ttl then c.max_ttl else ttl in
    let small : cut ≤ℤ ttl = ground arith in
    omega (arith, +ℤ_parts now cut, -ℤ_parts (now +ℤ cut) later)

-- The cache never serves a record longer than its origin allowed: of a response that is stored
-- for the time that `TTLFromMsg` gives it, every later hit is the response with one TTL in all
-- records that bear one, which is at least 1 and at most the TTL that each of them came with.
served_ttl-le :
    (tick : ℕ → ℤ) (now later : ℤ) (key : Bytes) (m : Msg) (cap : ℤ) (c : Cache) {c' c'' : Cache}
    {r : Msg}
    → IsValid c
    → pos 0 <ℤ ttl_from_msg (some m) cap
    → put tick now key (some m) (ttl_from_msg (some m) cap) c ≡ some c'
    → now ≤ℤ later
    → get later key c' ≡ some (c'', some r)
    → (t : ℕ) × (r ≡ set_ttls t m) × (1 ≤ t) × ((rr : Rr) → Bears m rr → IsWire rr → t ≤ rr.ttl)
served_ttl-le tick now later key m cap c {c'} {c''} {r} v positive stored order hit =
    let ttl = ttl_from_msg (some m) cap in
    let life = left c now ttl later in
    let (d, got) = get-put tick now later key m ttl c v positive stored in
    elim (Bool-cases (leb_ℤ life (pos 0))) [
      | inl dead ↦ ground arith
      | inr live ↦ (
        ceil_seconds life,
        ground arith,
        ceil_seconds_pos life,
        λ rr b w.
            (ceil_seconds_bounds life rr.ttl (ground arith)
              (left-le c now later ttl (rr.ttl * second) order
                (let l = ttl_from_msg-le m cap rr b in omega (arith, rr_lifetime-le rr)))
              w.0).1,
      )
    ]
