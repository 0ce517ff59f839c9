-- ===== src/Override/Lookups.antt =====
-- The whole table: what loading a source changes, and what `Lookup` finds.
use true_dns.Base.{
  In-append, ◌≡◌, ◌⊎◌, refl, inl, inr, Bool, true, false, ◌||◌, ◌&&◌, Option, none, some, List, [],
  ◌∷◌, ◌++◌, arith, if◌then◌else◌, Bool-cases, In, ap, subst, sym, ◌∙◌, ℤ,
}
use mathlib.Core.List.{Permᴰ}
use true_dns.Text.{Bytes, bytes_eq, bytes_eq_iff}
use true_dns.Dns.{Ip}
use true_dns.Net.{Net}
use true_dns.Override.Defs.{
  Hosts, Table, source_ips, get_key, ips_at, clean_host, sort_names, names_of, total_hosts,
  refresh_meta, contains_ip, add_ip, parse_lines, load_source, merge_ips, merge_sources, lookup,
}
use true_dns.Override.Hosts.{get_key-set_key, Unique, add_ip-Unique}
use true_dns.Override.Names.{sort_names-perm, In-sort_names}

module _ (net : Net) where
  -- A source that is read to the end replaces its entries and no others; one that breaks off
  -- changes no entry and records the error. The number of entries is brought up to date.
  pub load_source_replaces :
      (now : ℤ) (e src : Bytes) (lines : List Bytes) (complete : Bool) (t : Table)
      → ((s : Bytes)
          → get_key s (load_source net now e src lines complete t).0.sources ≡ (
              if complete && bytes_eq src s
              then some (parse_lines net lines [])
              else get_key s t.sources))
        × ((load_source net now e src lines complete t).0.meta.last_error
            ≡ (if complete then t.meta.last_error else e))
        × ((load_source net now e src lines complete t).0.meta.entries
            ≡ total_hosts (load_source net now e src lines complete t).0.sources)
  unfolding load_source refresh_meta
  load_source_replaces now e src lines true t =
      ((λ s. get_key-set_key s src (parse_lines net lines []) t.sources), refl, refl)
  load_source_replaces now e src lines false t = ((λ s. refl), refl, refl)

  merge_ips-Unique : (out ips : List Ip) → Unique net out → Unique net (merge_ips net out ips)
  unfolding merge_ips
  merge_ips-Unique out [] u = u
  merge_ips-Unique out (ip ∷ ips) u =
      merge_ips-Unique (add_ip net out ip) ips (add_ip-Unique net out ip u)

  In-add_ip : (q : Ip) (out : List Ip) (ip : Ip) → In q (add_ip net out ip) → In q out ⊎ (ip ≡ q)
  unfolding add_ip
  In-add_ip q out ip = elim (Bool-cases (contains_ip net out ip)) [
    | inl b ↦ rw b inl
    | inr b ↦ rw b (λ i. elim (In-append q out (ip ∷ []) i) [
      | inl j ↦ inl j
      | inr j ↦ elim j [ inl e ↦ inr e | inr z ↦ absurd z ]
    ])
  ]

  In-merge_ips : (q : Ip) (out ips : List Ip) → In q (merge_ips net out ips) → In q out ⊎ In q ips
  unfolding merge_ips
  In-merge_ips q out [] i = inl i
  In-merge_ips q out (ip ∷ ips) i = elim (In-merge_ips q (add_ip net out ip) ips i) [
    | inl j ↦ elim (In-add_ip q out ip j) [ inl k ↦ inl k | inr e ↦ inr (inl e) ]
    | inr j ↦ inr (inr j)
  ]

  In-source_ips :
      (q : Ip) (name : Bytes) (o : Option Hosts)
      → In q (source_ips name o)
      → (hosts : Hosts) × (o ≡ some hosts) × In q (ips_at name hosts)
  In-source_ips q name none i = absurd i
  In-source_ips q name (some hosts) i = (hosts, refl, i)

  In-merge_sources :
      (q : Ip) (name : Bytes) (sources : List (Bytes × Hosts)) (out : List Ip) (srcs : List Bytes)
      → In q (merge_sources net name sources out srcs)
      → In q out
        ⊎ ((s : Bytes) × (hosts : Hosts) × (get_key s sources ≡ some hosts)
            × In q (ips_at name hosts))
  unfolding merge_sources
  In-merge_sources q name sources out [] i = inl i
  In-merge_sources q name sources out (s ∷ srcs) i =
      elim (In-merge_sources q name sources
        (merge_ips net out (source_ips name (get_key s sources))) srcs i) [
          | inr found ↦ inr found
          | inl j ↦ elim (In-merge_ips q out (source_ips name (get_key s sources)) j) [
            | inl k ↦ inl k
            | inr k ↦
                let (hosts, e, m) = In-source_ips q name (get_key s sources) k in
                inr (s, hosts, e, m)
          ]
        ]

  merge_sources-Unique :
      (name : Bytes) (sources : List (Bytes × Hosts)) (out : List Ip) (srcs : List Bytes)
      → Unique net out
      → Unique net (merge_sources net name sources out srcs)
  unfolding merge_sources
  merge_sources-Unique name sources out [] u = u
  merge_sources-Unique name sources out (s ∷ srcs) u =
      merge_sources-Unique name sources (merge_ips net out (source_ips name (get_key s sources)))
        srcs (merge_ips-Unique out (source_ips name (get_key s sources)) u)

  contains_self :
      (q : Ip) (ips : List Ip) → net.ip_equal q q ≡ true → In q ips → contains_ip net ips q ≡ true
  unfolding contains_ip
  contains_self q [] r i = absurd i
  contains_self q (p ∷ ips) r (inl e) =
      subst (λ t. net.ip_equal t q || contains_ip net ips q ≡ true) (sym e) (ground arith)
  contains_self q (p ∷ ips) r (inr i) = ground (arith, contains_self q ips r i)

  contains-append :
      (q : Ip) (xs ys : List Ip)
      → contains_ip net (xs ++ ys) q ≡ (contains_ip net xs q || contains_ip net ys q)
  unfolding contains_ip
  contains-append q [] ys = refl
  contains-append q (x ∷ xs) ys = ground (arith, contains-append q xs ys)

  contains-add_ip :
      (q : Ip) (out : List Ip) (ip : Ip)
      → contains_ip net out q ≡ true
      → contains_ip net (add_ip net out ip) q ≡ true
  unfolding add_ip
  contains-add_ip q out ip h = ground (arith, contains-append q out (ip ∷ []))

  contains_added :
      (out : List Ip) (ip : Ip)
      → net.ip_equal ip ip ≡ true
      → contains_ip net (add_ip net out ip) ip ≡ true
  unfolding add_ip contains_ip
  contains_added out ip r = ground (arith, contains-append ip out (ip ∷ []))

  merge_ips_keeps :
      (q : Ip) (out ips : List Ip)
      → contains_ip net out q ≡ true
      → contains_ip net (merge_ips net out ips) q ≡ true
  unfolding merge_ips
  merge_ips_keeps q out [] h = h
  merge_ips_keeps q out (ip ∷ ips) h =
      merge_ips_keeps q (add_ip net out ip) ips (contains-add_ip q out ip h)

  merge_ips_adds :
      (q : Ip) (out ips : List Ip)
      → net.ip_equal q q ≡ true
      → In q ips
      → contains_ip net (merge_ips net out ips) q ≡ true
  unfolding merge_ips
  merge_ips_adds q out [] r i = absurd i
  merge_ips_adds q out (ip ∷ ips) r (inl e) =
      merge_ips_keeps q (add_ip net out ip) ips
        (subst (λ t. contains_ip net (add_ip net out t) q ≡ true) (sym e) (contains_added out q r))
  merge_ips_adds q out (ip ∷ ips) r (inr i) = merge_ips_adds q (add_ip net out ip) ips r i

  merge_sources_keeps :
      (q : Ip) (name : Bytes) (sources : List (Bytes × Hosts)) (out : List Ip) (srcs : List Bytes)
      → contains_ip net out q ≡ true
      → contains_ip net (merge_sources net name sources out srcs) q ≡ true
  unfolding merge_sources
  merge_sources_keeps q name sources out [] h = h
  merge_sources_keeps q name sources out (s ∷ srcs) h =
      merge_sources_keeps q name sources (merge_ips net out (source_ips name (get_key s sources)))
        srcs (merge_ips_keeps q out (source_ips name (get_key s sources)) h)

  merge_sources_adds :
      (q : Ip) (name : Bytes) (sources : List (Bytes × Hosts)) (out : List Ip) (srcs : List Bytes)
      (s : Bytes)
      → net.ip_equal q q ≡ true
      → In s srcs
      → In q (source_ips name (get_key s sources))
      → contains_ip net (merge_sources net name sources out srcs) q ≡ true
  unfolding merge_sources
  merge_sources_adds q name sources out [] s r i m = absurd i
  merge_sources_adds q name sources out (k ∷ srcs) s r (inl e) m =
      let new_ips = source_ips name (get_key k sources) in
      merge_sources_keeps q name sources (merge_ips net out new_ips) srcs (
        merge_ips_adds q out new_ips r
          (subst (λ t. In q (source_ips name (get_key t sources))) (sym e) m))
  merge_sources_adds q name sources out (k ∷ srcs) s r (inr i) m =
      merge_sources_adds q name sources (merge_ips net out (source_ips name (get_key k sources)))
        srcs s r i m

  In-names_of :
      {V : Type 0} (k : Bytes) (v : V) (m : List (Bytes × V))
      → get_key k m ≡ some v
      → In k (names_of m)
  unfolding get_key
  In-names_of k v [] h = cc
  In-names_of k v ((j, w) ∷ m) h = elim (Bool-cases (bytes_eq j k)) [
    | inl b ↦ inl ((bytes_eq_iff j k).0 b)
    | inr b ↦ inr (In-names_of k v m (ground arith))
  ]

  -- A lookup merges the sources, if every address equals itself: no address of the result equals
  -- an earlier one, each stands under the cleaned name in some source, and every address that
  -- stands there in some source equals an address of the result.
  pub lookup_merges :
      (t : Table) (raw : Bytes)
      → ((q : Ip) → net.ip_equal q q ≡ true)
      → Unique net (lookup net t raw)
        × ((q : Ip)
            → In q (lookup net t raw)
            → (s : Bytes) × (hosts : Hosts) × (get_key s t.sources ≡ some hosts)
              × In q (ips_at (clean_host raw) hosts))
        × ((q : Ip) (s : Bytes) (hosts : Hosts)
            → get_key s t.sources ≡ some hosts
            → In q (ips_at (clean_host raw) hosts)
            → contains_ip net (lookup net t raw) q ≡ true)
  unfolding lookup
  lookup_merges t raw reflexive =
      let srcs = sort_names (names_of t.sources) in
      (
        merge_sources-Unique (clean_host raw) t.sources [] srcs tt,
        (λ q i. elim (In-merge_sources q (clean_host raw) t.sources [] srcs i) [
          | inl z ↦ absurd z
          | inr found ↦ found
        ]),
        λ q s hosts h i.
            merge_sources_adds q (clean_host raw) t.sources [] srcs s (reflexive q)
              (In-sort_names s (names_of t.sources) (In-names_of s hosts t.sources h))
              (subst (λ o. In q (source_ips (clean_host raw) o)) (sym h) i),
      )

  merge_sources_cong :
      (name : Bytes) (m n : List (Bytes × Hosts))
      → ((s : Bytes) → get_key s m ≡ get_key s n)
      → (out : List Ip) (srcs : List Bytes)
      → merge_sources net name m out srcs ≡ merge_sources net name n out srcs
  unfolding merge_sources
  merge_sources_cong name m n same out [] = refl
  merge_sources_cong name m n same out (s ∷ srcs) =
      ap (λ o. merge_sources net name m (merge_ips net out (source_ips name o)) srcs) (same s)
      ∙ merge_sources_cong name m n same (merge_ips net out (source_ips name (get_key s n))) srcs

  -- Two tables whose maps hold the same entries, whatever order they are ranged over in, give the
  -- same result.
  lookup_order :
      (t u : Table) (raw : Bytes)
      → ((s : Bytes) → get_key s t.sources ≡ get_key s u.sources)
      → Permᴰ (names_of t.sources) (names_of u.sources)
      → lookup net t raw ≡ lookup net u raw
  unfolding lookup
  lookup_order t u raw same p =
      merge_sources_cong (clean_host raw) t.sources u.sources same []
        (sort_names (names_of t.sources))
      ∙ ap (merge_sources net (clean_host raw) u.sources []) (sort_names-perm p)
