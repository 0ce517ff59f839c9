-- ===== src/Probe/Order.antt =====
-- What `Filter` keeps, and in which order.
use true_dns.Base.{
  ℕ, zero, suc, ◌≤◌, ◌⊎◌, ◌≡◌, refl, inl, inr, Bool, true, false, List, [], ◌∷◌, ◌++◌, arith,
  if◌then◌else◌, ltb, length, take, drop, ℤ, Bool-cases, In, ap, ◌∙◌, subst, not, ◌&&◌, ◌==◌,
}
use true_dns.Base.Perms.{In-Permᴰ}
use mathlib.Core.List.{Permᴰ}
use mathlib.Core.List.Permᴰ
use true_dns.Dns.{Ip}
use true_dns.Probe.Filter.{
  prefer, ProbeResult, Probed, less, insert_stable, sort_stable, probe_all, ips_of, limit_of,
  filter_ips,
}

insert_stable-perm : (x : Probed) (xs : List Probed) → Permᴰ (insert_stable x xs) (x ∷ xs)
unfolding insert_stable
insert_stable-perm x [] = Permᴰ.refl (x ∷ [])
insert_stable-perm x (y ∷ ys) = elim (Bool-cases (less y x)) [
  | inl b ↦ rw b (Permᴰ.trans (Permᴰ.cons refl (insert_stable-perm x ys)) (Permᴰ.swap refl refl))
  | inr b ↦ rw b (Permᴰ.refl (x ∷ y ∷ ys))
]

sort_stable-perm : (xs : List Probed) → Permᴰ (sort_stable xs) xs
unfolding sort_stable
sort_stable-perm [] = Permᴰ.nil
sort_stable-perm (x ∷ xs) =
    Permᴰ.trans (insert_stable-perm x (sort_stable xs)) (Permᴰ.cons refl (sort_stable-perm xs))

-- `x` may stand before `y`: `y` is unreachable, or `x` is reachable and has no longer latency.
abbrev pub MayPrecede : ProbeResult → ProbeResult → Type 0
MayPrecede x y = (y.reachable ≡ false) ⊎ ((x.reachable ≡ true) × (x.latency ≤ y.latency))

-- Every address may stand before each of the later ones.
abbrev pub IsSorted : List Probed → Type 0
IsSorted [] = Unit
IsSorted (x ∷ xs) = ((y : Probed) → In y xs → MayPrecede x.res y.res) × IsSorted xs

-- No later address is less than an earlier one.
abbrev IsUnbeaten : List Probed → Type 0
IsUnbeaten [] = Unit
IsUnbeaten (x ∷ xs) = ((y : Probed) → In y xs → less y x ≡ false) × IsUnbeaten xs

less-MayPrecede : (x y : Probed) → less y x ≡ false → MayPrecede x.res y.res
less-MayPrecede x y h = elim (Bool-cases y.res.reachable) [
  | inr b ↦ inl b
  | inl b ↦ inr (ground arith, ground arith)
]

IsUnbeaten-IsSorted : (xs : List Probed) → IsUnbeaten xs → IsSorted xs
IsUnbeaten-IsSorted [] s = tt
IsUnbeaten-IsSorted (x ∷ xs) s =
    ((λ y i. less-MayPrecede x y (s.0 y i)), IsUnbeaten-IsSorted xs s.1)

less_asym : (x y : Probed) → less y x ≡ true → less x y ≡ false
less_asym x y h = ground arith

less_trans : (x y z : Probed) → less y x ≡ false → less z y ≡ false → less z x ≡ false
less_trans x y z h k = ground arith

insert_stable-IsUnbeaten :
    (x : Probed) (xs : List Probed) → IsUnbeaten xs → IsUnbeaten (insert_stable x xs)
unfolding insert_stable
insert_stable-IsUnbeaten x [] s = ((λ y i. absurd i), tt)
insert_stable-IsUnbeaten x (y ∷ ys) s = elim (Bool-cases (less y x)) [
  | inl b ↦ rw b (
    (λ z i. elim (In-Permᴰ z (insert_stable-perm x ys) i) [
      | inl e ↦ subst (λ t. less t y ≡ false) e (less_asym x y b)
      | inr j ↦ s.0 z j
    ]),
    insert_stable-IsUnbeaten x ys s.1,
  )
  | inr b ↦ rw b (
    (λ z i. elim i [
      | inl e ↦ subst (λ t. less t x ≡ false) e b
      | inr j ↦ less_trans x y z b (s.0 z j)
    ]),
    s,
  )
]

sort_stable-IsUnbeaten : (xs : List Probed) → IsUnbeaten (sort_stable xs)
unfolding sort_stable
sort_stable-IsUnbeaten [] = tt
sort_stable-IsUnbeaten (x ∷ xs) =
    insert_stable-IsUnbeaten x (sort_stable xs) (sort_stable-IsUnbeaten xs)

-- Addresses that are not told apart by the order keep their places: of the addresses with one
-- outcome, the sort leaves the sequence as it is.
abbrev pub of_outcome : (ProbeResult → Bool) → List Probed → List Ip
of_outcome p [] = []
of_outcome p (x ∷ xs) = if p x.res then x.ip ∷ of_outcome p xs else of_outcome p xs

pub record IsStable (sorted probed : List Probed) : Type 0 where
  pub unreachable :
      of_outcome (λ r. not r.reachable) sorted ≡ of_outcome (λ r. not r.reachable) probed
  pub same_latency :
      (l : ℕ)
      → of_outcome (λ r. r.reachable && r.latency == l) sorted
        ≡ of_outcome (λ r. r.reachable && r.latency == l) probed

module _ (p : ProbeResult → Bool)
    (alike : (x y : Probed) → p x.res ≡ true → p y.res ≡ true → less y x ≡ false) where
  insert_stable-of_outcome :
      (x : Probed) (xs : List Probed) → of_outcome p (insert_stable x xs) ≡ of_outcome p (x ∷ xs)
  unfolding insert_stable
  insert_stable-of_outcome x [] = refl
  insert_stable-of_outcome x (y ∷ ys) = ground (arith, insert_stable-of_outcome x ys, alike x y)

  sort_stable-of_outcome : (xs : List Probed) → of_outcome p (sort_stable xs) ≡ of_outcome p xs
  unfolding sort_stable
  sort_stable-of_outcome [] = refl
  sort_stable-of_outcome (x ∷ xs) =
      insert_stable-of_outcome x (sort_stable xs) ∙ step (sort_stable-of_outcome xs)
    where
      step :
          of_outcome p (sort_stable xs) ≡ of_outcome p xs
          → of_outcome p (x ∷ sort_stable xs) ≡ of_outcome p (x ∷ xs)
      step e = rw e

ips_of-perm : {xs ys : List Probed} → Permᴰ xs ys → Permᴰ (ips_of xs) (ips_of ys)
ips_of-perm Permᴰ.nil = Permᴰ.nil
ips_of-perm (Permᴰ.cons e p) = Permᴰ.cons (ap (λ x. x.ip) e) (ips_of-perm p)
ips_of-perm (Permᴰ.swap e f) = Permᴰ.swap (ap (λ x. x.ip) e) (ap (λ x. x.ip) f)
ips_of-perm (Permᴰ.trans p q) = Permᴰ.trans (ips_of-perm p) (ips_of-perm q)

ips_of-probe_all : (check : Ip → ProbeResult) (ips : List Ip) → ips_of (probe_all check ips) ≡ ips
ips_of-probe_all check [] = refl
ips_of-probe_all check (ip ∷ ips) = ap (◌∷◌ ip) (ips_of-probe_all check ips)

append-perm : {xs ys : List Ip} (zs : List Ip) → Permᴰ xs ys → Permᴰ (xs ++ zs) (ys ++ zs)
append-perm zs Permᴰ.nil = Permᴰ.refl zs
append-perm zs (Permᴰ.cons e p) = Permᴰ.cons e (append-perm zs p)
append-perm zs (Permᴰ.swap e f) = Permᴰ.swap e f
append-perm zs (Permᴰ.trans p q) = Permᴰ.trans (append-perm zs p) (append-perm zs q)

take-append-drop : (n : ℕ) (xs : List Ip) → take n xs ++ drop n xs ≡ xs
take-append-drop zero xs = refl
take-append-drop (suc n) [] = refl
take-append-drop (suc n) (x ∷ xs) = ap (◌∷◌ x) (take-append-drop n xs)

unreachable_alike :
    (x y : Probed) → not x.res.reachable ≡ true → not y.res.reachable ≡ true → less y x ≡ false
unreachable_alike x y h k = ground arith

latency_alike :
    (l : ℕ) (x y : Probed)
    → x.res.reachable && x.res.latency == l ≡ true
    → y.res.reachable && y.res.latency == l ≡ true
    → less y x ≡ false
latency_alike l x y h k = ground arith

-- In the mode "prefer" no address is lost or added. The probed ones stand first, reachable before
-- unreachable and by rising latency, and addresses of one latency and unreachable ones keep their
-- order; behind them the others keep their places. A list of at most one address is left as it is.
pub filter_prefer :
    (check : Ip → ProbeResult) (max : ℤ) (ips : List Ip)
    → Permᴰ (filter_ips check prefer max ips) ips
      × ((sorted : List Probed) × Permᴰ sorted (probe_all check (take (limit_of max ips) ips))
          × IsSorted sorted
          × IsStable sorted (probe_all check (take (limit_of max ips) ips))
          × (((length ips ≤ 1) × (filter_ips check prefer max ips ≡ ips))
              ⊎ (filter_ips check prefer max ips ≡ ips_of sorted ++ drop (limit_of max ips) ips)))
unfolding filter_ips
filter_prefer check max ips =
    let n = limit_of max ips in
    let probed = probe_all check (take n ips) in
    let whole =
      subst (Permᴰ (ips_of (sort_stable probed) ++ drop n ips))
        (ap (λ t. t ++ drop n ips) (ips_of-probe_all check (take n ips)) ∙ take-append-drop n ips)
        (append-perm (drop n ips) (ips_of-perm (sort_stable-perm probed))) in
    (
      elim (Bool-cases (ltb 1 (length ips))) [
        | inl b ↦ rw (b, filter_ips) whole
        | inr b ↦ rw (b, filter_ips) (Permᴰ.refl ips)
      ],
      (
        sort_stable probed,
        sort_stable-perm probed,
        IsUnbeaten-IsSorted (sort_stable probed) (sort_stable-IsUnbeaten probed),
        record {
          unreachable = sort_stable-of_outcome _ unreachable_alike probed;
          same_latency = λ l. sort_stable-of_outcome _ (latency_alike l) probed;
        },
        elim (Bool-cases (ltb 1 (length ips))) [
          | inl b ↦ inr (rw (b, filter_ips) refl)
          | inr b ↦ inl (ground arith, rw (b, filter_ips) refl)
        ],
      ),
    )
