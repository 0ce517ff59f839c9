-- ===== src/Cache/Ttl.antt =====
-- `TTLFromMsg`: the lifetime of a response is the least of its records' and of the maximum, it
-- fits an int64, and a served record never outlives the record that was received.
use true_dns.Base.{
  ℕ, ◌*◌, ◌^◌, ◌≤◌, ◌<◌, ◌≡◌, ◌≢◌, refl, ◌⊎◌, inl, inr, Bool, true, false, some, List, [], ◌∷◌,
  arith, ◌==◌, ltb, if◌then◌else◌, ℤ, pos, pos_part, ◌≤ℤ◌, ◌<ℤ◌, ltb_ℤ, Bool-cases, In, ap, ◌∙◌,
}
use true_dns.Dns.{Msg, Rr, RrData, soa, type_opt}
use true_dns.Cache.Defs.{
  second, max_duration, rr_lifetime, scan_section, cap_ttl, ttl_from_msg, ceil_seconds, lesser,
}

-- The record is in one of the sections that bear a TTL, and is no OPT record.
abbrev pub Bears : Msg → Rr → Type 0
Bears m rr = (In rr m.answer ⊎ In rr m.ns) × (rr.rrtype ≢ type_opt)

-- A record's TTL and the minimum of a SOA record are 32-bit numbers.
abbrev pub minimum_of : RrData → ℕ
minimum_of (soa minttl) = minttl
minimum_of _ = 0

abbrev pub IsWire : Rr → Type 0
IsWire rr = (rr.ttl < 2 ^ 32) × (minimum_of rr.rdata < 2 ^ 32)

pub rr_lifetime-le : (rr : Rr) → rr_lifetime rr ≤ rr.ttl * second
unfolding rr_lifetime
rr_lifetime-le rr = ground arith

-- No multiplication leaves the int64 range.
rr_lifetime_bound :
    (rr : Rr) → IsWire rr → (rr.ttl * second < 2 ^ 63) × (minimum_of rr.rdata * second < 2 ^ 63)
rr_lifetime_bound rr w = omega arith

abbrev found_with : Bool → Rr → Bool
found_with f rr = if rr.rrtype == type_opt then f else true

abbrev least_with : ℕ → Rr → ℕ
least_with t rr = if rr.rrtype == type_opt then t else lesser (rr_lifetime rr) t

scan_section-le : (f : Bool) (t : ℕ) (rrs : List Rr) → (scan_section f t rrs).1 ≤ t
unfolding scan_section
scan_section-le f t [] = omega arith
scan_section-le f t (rr ∷ rrs) =
    ground (arith, scan_section-le (found_with f rr) (least_with t rr) rrs)

scan_section-found : (t : ℕ) (rrs : List Rr) → (scan_section true t rrs).0 ≡ true
unfolding scan_section
scan_section-found t [] = refl
scan_section-found t (rr ∷ rrs) = ground (arith, scan_section-found (least_with t rr) rrs)

-- A record that counts is found, and the result is at most its lifetime.
scan_section-In :
    (f : Bool) (t : ℕ) (rrs : List Rr) (rr : Rr)
    → In rr rrs
    → rr.rrtype ≢ type_opt
    → ((scan_section f t rrs).0 ≡ true) × ((scan_section f t rrs).1 ≤ rr_lifetime rr)
unfolding scan_section
scan_section-In f t [] rr i ne = absurd i
scan_section-In f t (x ∷ rrs) rr (inl e) ne =
    let same : rr_lifetime x ≡ rr_lifetime rr = ap rr_lifetime e in
    let kind : x.rrtype ≡ rr.rrtype = ap (λ r. r.rrtype) e in
    ground (
      arith,
      scan_section-found (least_with t x) rrs,
      scan_section-le (found_with f x) (least_with t x) rrs,
    )
scan_section-In f t (x ∷ rrs) rr (inr i) ne =
    scan_section-In (found_with f x) (least_with t x) rrs rr i ne

-- The result is where the scan started, or the lifetime of a record that counts.
scan_section-attained :
    (f : Bool) (t : ℕ) (rrs : List Rr)
    → ((scan_section f t rrs).1 ≡ t)
      ⊎ ((rr : Rr) × In rr rrs
          × (rr.rrtype ≢ type_opt)
          × ((scan_section f t rrs).1 ≡ rr_lifetime rr))
unfolding scan_section
scan_section-attained f t [] = inl refl
scan_section-attained f t (x ∷ rrs) =
    elim (scan_section-attained (found_with f x) (least_with t x) rrs) [
      | inl e ↦ elim (Bool-cases (x.rrtype == type_opt)) [
        | inl o ↦ inl (ground arith)
        | inr n ↦ elim (Bool-cases (ltb (rr_lifetime x) t)) [
          | inl l ↦ inr (x, inl refl, ground arith, ground arith)
          | inr g ↦ inl (ground arith)
        ]
      ]
      | inr (rr, i, ne, e) ↦ inr (rr, inr i, ne, e)
    ]

abbrev scan : Msg → Bool × ℕ
scan m = let (f, t) = scan_section false max_duration m.answer in scan_section f t m.ns

scan-Bears : (m : Msg) (rr : Rr) → Bears m rr → ((scan m).0 ≡ true) × ((scan m).1 ≤ rr_lifetime rr)
scan-Bears m rr (inl i, ne) =
    let first = scan_section-In false max_duration m.answer rr i ne in
    let t = (scan_section false max_duration m.answer).1 in
    let later = scan_section-le (scan_section false max_duration m.answer).0 t m.ns in
    (rw (first.0) (scan_section-found t m.ns), omega arith)
scan-Bears m rr (inr i, ne) =
    scan_section-In (scan_section false max_duration m.answer).0
      (scan_section false max_duration m.answer).1 m.ns rr i ne

scan_attained :
    (m : Msg)
    → ((scan m).1 ≡ max_duration) ⊎ ((rr : Rr) × Bears m rr × ((scan m).1 ≡ rr_lifetime rr))
scan_attained m =
    let f = (scan_section false max_duration m.answer).0 in
    let t = (scan_section false max_duration m.answer).1 in
    elim (scan_section-attained f t m.ns) [
      | inr (rr, i, ne, e) ↦ inr (rr, (inr i, ne), e)
      | inl e ↦ elim (scan_section-attained false max_duration m.answer) [
        | inl e' ↦ inl (e ∙ e')
        | inr (rr, i, ne, e') ↦ inr (rr, (inl i, ne), e ∙ e')
      ]
    ]

pub ttl_from_msg-le :
    (m : Msg) (max_ttl : ℤ) (rr : Rr)
    → Bears m rr
    → ttl_from_msg (some m) max_ttl ≤ℤ pos (rr_lifetime rr)
unfolding ttl_from_msg cap_ttl
ttl_from_msg-le m max_ttl rr b =
    let l : (scan m).1 ≤ rr_lifetime rr = (scan-Bears m rr b).1 in ground arith

-- `n` is the lifetime of a response with the maximum `max_ttl`: at most the maximum and the
-- lifetime of each record that counts, and equal to one of these, but 0 where the maximum is not
-- positive.
pub record IsLifetime (m : Msg) (max_ttl : ℤ) (n : ℕ) : Type 0 where
  pub within_max : n ≤ pos_part max_ttl
  pub within_records : (rr : Rr) → Bears m rr → n ≤ rr_lifetime rr
  pub attained : (n ≡ pos_part max_ttl) ⊎ ((rr : Rr) × Bears m rr × (n ≡ rr_lifetime rr))

-- The lifetime of a response that is not truncated and has a record that bears a TTL is the
-- least of the records' lifetimes and the maximum.
pub ttl_from_msg-IsLifetime :
    (m : Msg) (max_ttl : ℤ) (rr : Rr)
    → m.truncated ≡ false
    → Bears m rr
    → IsWire rr
    → (n : ℕ) × (ttl_from_msg (some m) max_ttl ≡ pos n) × IsLifetime m max_ttl n
unfolding ttl_from_msg
ttl_from_msg-IsLifetime m max_ttl rr whole bears wire =
    let t = (scan m).1 in
    let found = (scan-Bears m rr bears).0 in
    let run : ttl_from_msg (some m) max_ttl ≡ cap_ttl true t max_ttl =
      rw (whole, ttl_from_msg) (ap (λ b. cap_ttl b t max_ttl) found) in
    elim (Bool-cases (ltb_ℤ max_ttl (pos t))) [
      | inl over ↦ (
        pos_part max_ttl,
        run ∙ (unfold cap_ttl in ground arith),
        record {
          within_max = omega arith;
          within_records = λ r b. let l = (scan-Bears m r b).1 in ground arith;
          attained = inl refl;
        },
      )
      | inr under ↦ (
        t,
        run ∙ (unfold cap_ttl in ground arith),
        record {
          within_max = ground arith;
          within_records = λ r b. (scan-Bears m r b).1;
          attained = elim (scan_attained m) [
            | inl e ↦
                let l = (scan-Bears m rr bears).1 in
                absurd (omega (arith, rr_lifetime-le rr, rr_lifetime_bound rr wire))
            | inr hit ↦ inr hit
          ];
        },
      )
    ]

scan_nothing :
    (f : Bool) (t : ℕ) (rrs : List Rr)
    → ((rr : Rr) → In rr rrs → ¬ (rr.rrtype ≢ type_opt))
    → (scan_section f t rrs).0 ≡ f
unfolding scan_section
scan_nothing f t [] h = refl
scan_nothing f t (x ∷ rrs) h = elim (Bool-cases (x.rrtype == type_opt)) [
  | inl o ↦ ground (arith, scan_nothing (found_with f x) (least_with t x) rrs (λ r i. h r (inr i)))
  | inr n ↦ absurd (h x (inl refl) (ground arith))
]

-- A truncated response, and one with no record that bears a TTL, are not cached.
ttl_from_msg_uncached :
    (m : Msg) (max_ttl : ℤ)
    → (m.truncated ≡ true) ⊎ ((rr : Rr) → ¬ Bears m rr)
    → ttl_from_msg (some m) max_ttl ≡ pos 0
ttl_from_msg_uncached m max_ttl (inl t) = unfold ttl_from_msg in rw (t, ttl_from_msg)
ttl_from_msg_uncached m max_ttl (inr none_bears) =
    let first = scan_nothing false max_duration m.answer (λ r i ne. none_bears r (inl i, ne)) in
    let f = (scan_section false max_duration m.answer).0 in
    let t = (scan_section false max_duration m.answer).1 in
    let next = scan_nothing f t m.ns (λ r i ne. none_bears r (inr i, ne)) in
    unfold ttl_from_msg cap_ttl in ground arith

pub ceil_seconds_pos : (remaining : ℤ) → 1 ≤ ceil_seconds remaining
unfolding ceil_seconds
ceil_seconds_pos remaining = ground arith

-- The remaining lifetime in whole seconds: at least 1, not below the lifetime, and not above the
-- number of seconds that the lifetime fits in.
pub ceil_seconds_bounds :
    (remaining : ℤ) (n : ℕ)
    → pos 0 <ℤ remaining
    → remaining ≤ℤ pos (n * second)
    → n < 2 ^ 32
    → (1 ≤ ceil_seconds remaining)
      × (ceil_seconds remaining ≤ n)
      × (remaining ≤ℤ pos (ceil_seconds remaining * second))
unfolding ceil_seconds
ceil_seconds_bounds remaining n positive fits small = ground arith
