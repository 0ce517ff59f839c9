-- ===== src/Probe/Drop.antt =====
-- What `Filter` keeps in the mode "drop".
use true_dns.Base.{
  In-append, In-append_left, In-append_right, ℕ, zero, suc, ◌<◌, ◌≡◌, ◌≢◌, ◌⊎◌, refl, inl, inr,
  true, false, List, [], ◌∷◌, length, take, drop, ℤ, Bool-cases, In, ap, ◌∙◌, sym, subst, lt→ltb,
}
use true_dns.Dns.{Ip}
use true_dns.Probe.Filter.{
  drop_mode, ProbeResult, reachable_ips, probe_all, limit_of, filter_ips, keep_or_all,
}

module _ (check : Ip → ProbeResult) where
  abbrev kept : List Ip → List Ip
  kept ips = reachable_ips (probe_all check ips)

  kept-In : (ips : List Ip) (ip : Ip) → In ip ips → (check ip).reachable ≡ true → In ip (kept ips)
  unfolding reachable_ips
  kept-In [] ip i r = absurd i
  kept-In (x ∷ ips) ip (inl e) r =
      let k : (check x).reachable ≡ true = ap (λ t. (check t).reachable) e ∙ r in rw k (inl e)
  kept-In (x ∷ ips) ip (inr i) r = elim (Bool-cases (check x).reachable) [
    | inl b ↦ rw b (inr (kept-In ips ip i r))
    | inr b ↦ rw b (kept-In ips ip i r)
  ]

  In-kept : (ips : List Ip) (ip : Ip) → In ip (kept ips) → In ip ips × ((check ip).reachable ≡ true)
  unfolding reachable_ips
  In-kept [] ip = λ i. absurd i
  In-kept (x ∷ ips) ip = elim (Bool-cases (check x).reachable) [
    | inl b ↦ rw b (λ i. elim i [
      | inl e ↦ (inl e, ap (λ t. (check t).reachable) (sym e) ∙ b)
      | inr j ↦ let (h, r) = In-kept ips ip j in (inr h, r)
    ])
    | inr b ↦ rw b (λ i. let (h, r) = In-kept ips ip i in (inr h, r))
  ]

  kept_none : (ips : List Ip) → kept ips ≡ [] → (ip : Ip) → In ip ips → (check ip).reachable ≡ false
  kept_none ips e ip i = elim (Bool-cases (check ip).reachable) [
    | inl b ↦ absurd (subst (In ip) e (kept-In ips ip i b))
    | inr b ↦ b
  ]

In-take-drop : (n : ℕ) (ip : Ip) (xs : List Ip) → In ip xs → In ip (take n xs) ⊎ In ip (drop n xs)
In-take-drop zero ip xs i = inr i
In-take-drop (suc n) ip [] i = absurd i
In-take-drop (suc n) ip (x ∷ xs) (inl e) = inl (inl e)
In-take-drop (suc n) ip (x ∷ xs) (inr i) = elim (In-take-drop n ip xs i) [
  | inl j ↦ inl (inr j)
  | inr j ↦ inr j
]

In-take : (n : ℕ) (ip : Ip) (xs : List Ip) → In ip (take n xs) → In ip xs
In-take zero ip xs i = absurd i
In-take (suc n) ip [] i = i
In-take (suc n) ip (x ∷ xs) (inl e) = inl e
In-take (suc n) ip (x ∷ xs) (inr i) = inr (In-take n ip xs i)

In-drop : (n : ℕ) (ip : Ip) (xs : List Ip) → In ip (drop n xs) → In ip xs
In-drop zero ip xs i = i
In-drop (suc n) ip [] i = i
In-drop (suc n) ip (x ∷ xs) i = inr (In-drop n ip xs i)

-- What the mode "drop" makes of `ips`, of which the first `n` are probed: never an empty answer,
-- no new address, every reachable address, and an unreachable one only if it was not probed or if
-- none of the probed ones is reachable.
pub record Drops (check : Ip → ProbeResult) (n : ℕ) (ips result : List Ip) : Type 0 where
  pub not_empty : ips ≢ [] → result ≢ []
  pub no_new : (ip : Ip) → In ip result → In ip ips
  pub keeps_reachable : (ip : Ip) → In ip ips → (check ip).reachable ≡ true → In ip result
  pub drops_unreachable :
      (ip : Ip)
      → In ip result
      → ((check ip).reachable ≡ true)
        ⊎ In ip (drop n ips)
        ⊎ ((jp : Ip) → In jp (take n ips) → (check jp).reachable ≡ false)

keep_or_all-Drops :
    (check : Ip → ProbeResult) (n : ℕ) (ips : List Ip) (k : List Ip)
    → kept check (take n ips) ≡ k
    → Drops check n ips (keep_or_all k (drop n ips) ips)
keep_or_all-Drops check n ips [] e = record {
  not_empty = λ h. h;
  no_new = λ ip i. i;
  keeps_reachable = λ ip i r. i;
  drops_unreachable = λ ip i. inr (inr (kept_none check (take n ips) e));
}
keep_or_all-Drops check n ips (x ∷ k) e = record {
  not_empty = λ h z. cc;
  no_new = λ ip i. elim (In-append ip (x ∷ k) (drop n ips) i) [
    | inl j ↦ In-take n ip ips (In-kept check (take n ips) ip (subst (In ip) (sym e) j)).0
    | inr j ↦ In-drop n ip ips j
  ];
  keeps_reachable = λ ip i r. elim (In-take-drop n ip ips i) [
    | inl j ↦
        In-append_left ip (x ∷ k) (drop n ips) (subst (In ip) e (kept-In check (take n ips) ip j r))
    | inr j ↦ In-append_right ip (x ∷ k) (drop n ips) j
  ];
  drops_unreachable = λ ip i. elim (In-append ip (x ∷ k) (drop n ips) i) [
    | inl j ↦ inl (In-kept check (take n ips) ip (subst (In ip) (sym e) j)).1
    | inr j ↦ inr (inl j)
  ];
}

-- The mode "drop" on two addresses or more: the result is not empty, has no address that was not
-- there and every one that is reachable; an unreachable one is in it only if it stands beyond the
-- limit, or if none of those up to the limit is reachable.
pub filter_ips-Drops :
    (check : Ip → ProbeResult) (max : ℤ) (ips : List Ip)
    → 1 < length ips
    → Drops check (limit_of max ips) ips (filter_ips check drop_mode max ips)
unfolding filter_ips
filter_ips-Drops check max ips more =
    rw (lt→ltb 1 (length ips) more, filter_ips)
      (keep_or_all-Drops check (limit_of max ips) ips _ refl)
