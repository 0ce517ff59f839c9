-- ===== src/Override/Hosts.antt =====
-- Laws of the maps, and what parsing a source keeps: hostnames are clean and have addresses, and
-- no address stands twice.
use true_dns.Base.{
  ◌≡◌, ◌≢◌, ◌⊎◌, refl, inl, inr, false, ◌||◌, some, List, [], ◌∷◌, ◌++◌, arith, if◌then◌else◌,
  Bool-cases, Option-cases, In, subst,
}
use true_dns.Text.{Bytes, is_empty, bytes_eq, bytes_eq_iff, trim_space, has_prefix, fields}
use true_dns.Dns.{Ip}
use true_dns.Net.{Net}
use true_dns.Override.Defs.{
  Hosts, get_key, set_key, ips_at, clean_host, contains_ip, add_ip, add_host, add_names, add_fields,
  add_line, parse_lines, cut_comment,
}

pub get_key-set_key :
    {V : Type 0} (j k : Bytes) (v : V) (m : List (Bytes × V))
    → get_key j (set_key k v m) ≡ (if bytes_eq k j then some v else get_key j m)
unfolding get_key set_key
get_key-set_key j k v [] = ground arith
get_key-set_key j k v ((i, w) ∷ m) =
    ground (arith, bytes_eq_iff i k, bytes_eq_iff i j, bytes_eq_iff k j, get_key-set_key j k v m)

filled : (s : Bytes) → is_empty s ≡ false → s ≢ []
filled [] h e = cc
filled (c ∷ s) h e = cc

module _ (net : Net) where
  -- No address equals an earlier one.
  abbrev pub Unique : List Ip → Type 0
  Unique [] = Unit
  Unique (p ∷ ips) = ((q : Ip) → In q ips → net.ip_equal p q ≡ false) × Unique ips

  contains_none :
      (ips : List Ip) (ip p : Ip)
      → contains_ip net ips ip ≡ false
      → In p ips
      → net.ip_equal p ip ≡ false
  unfolding contains_ip
  contains_none [] ip p h i = absurd i
  contains_none (q ∷ ips) ip p h (inl e) = subst (λ t. net.ip_equal t ip ≡ false) e (ground arith)
  contains_none (q ∷ ips) ip p h (inr i) = contains_none ips ip p (ground arith) i

  In-snoc : (ips : List Ip) (ip q : Ip) → In q (ips ++ (ip ∷ [])) → In q ips ⊎ (ip ≡ q)
  In-snoc [] ip q (inl e) = inr e
  In-snoc [] ip q (inr i) = absurd i
  In-snoc (p ∷ ips) ip q (inl e) = inl (inl e)
  In-snoc (p ∷ ips) ip q (inr i) = elim (In-snoc ips ip q i) [ inl j ↦ inl (inr j) | inr e ↦ inr e ]

  Unique-snoc :
      (ips : List Ip) (ip : Ip)
      → Unique ips
      → ((p : Ip) → In p ips → net.ip_equal p ip ≡ false)
      → Unique (ips ++ (ip ∷ []))
  Unique-snoc [] ip u h = ((λ q i. absurd i), tt)
  Unique-snoc (p ∷ ips) ip u h = (
    (λ q i. elim (In-snoc ips ip q i) [
      | inl j ↦ u.0 q j
      | inr e ↦ subst (λ t. net.ip_equal p t ≡ false) e (h p (inl refl))
    ]),
    Unique-snoc ips ip u.1 (λ q j. h q (inr j)),
  )

  pub add_ip-Unique : (ips : List Ip) (ip : Ip) → Unique ips → Unique (add_ip net ips ip)
  unfolding add_ip
  add_ip-Unique ips ip u = elim (Bool-cases (contains_ip net ips ip)) [
    | inl b ↦ rw b u
    | inr b ↦ rw b (Unique-snoc ips ip u (λ p. contains_none ips ip p b))
  ]

  -- Every hostname of the map is clean and not empty, and has addresses with none of them twice.
  abbrev pub IsCleanEntry : Bytes → List Ip → Type 0
  IsCleanEntry name ips =
      (ips ≢ []) × Unique ips × (name ≢ []) × ((raw : Bytes) × (name ≡ clean_host raw))

  abbrev pub IsClean : Hosts → Type 0
  IsClean hosts =
      (name : Bytes) (ips : List Ip) → get_key name hosts ≡ some ips → IsCleanEntry name ips

  set_key-IsClean :
      (k : Bytes) (v : List Ip) (hosts : Hosts)
      → IsClean hosts
      → IsCleanEntry k v
      → IsClean (set_key k v hosts)
  set_key-IsClean k v hosts c ok_entry name ips h = elim (Bool-cases (bytes_eq k name)) [
    | inl b ↦
        let same : k ≡ name = (bytes_eq_iff k name).0 b in
        let value : v ≡ ips = ground (arith, get_key-set_key name k v hosts) in
        subst (λ n. IsCleanEntry n ips) same (subst (IsCleanEntry k) value ok_entry)
    | inr b ↦ c name ips (ground (arith, get_key-set_key name k v hosts))
  ]

  ips_at-Unique : (name : Bytes) (hosts : Hosts) → IsClean hosts → Unique (ips_at name hosts)
  ips_at-Unique name hosts c = elim (Option-cases (get_key name hosts)) [
    | inl e ↦ rw e tt
    | inr (ips, e) ↦ rw e (c name ips e).1
  ]

  snoc_ne : (ips : List Ip) (ip : Ip) → ips ++ (ip ∷ []) ≢ []
  snoc_ne [] ip e = cc
  snoc_ne (p ∷ ips) ip e = cc

  add_host-IsClean :
      (ip : Ip) (raw : Bytes) (hosts : Hosts) → IsClean hosts → IsClean (add_host net ip raw hosts)
  unfolding add_host
  add_host-IsClean ip raw hosts c = elim (Bool-cases (is_empty (clean_host raw))) [
    | inl e ↦ rw (e, add_host) c
    | inr e ↦ elim (Bool-cases (contains_ip net (ips_at (clean_host raw) hosts) ip)) [
      | inl b ↦ rw (e, add_host, b) c
      | inr b ↦
          let old = ips_at (clean_host raw) hosts in
          rw (e, add_host, b)
            (set_key-IsClean (clean_host raw) (old ++ (ip ∷ [])) hosts c (
              snoc_ne old ip,
              Unique-snoc old ip (ips_at-Unique (clean_host raw) hosts c)
                  (λ p. contains_none old ip p b),
              filled (clean_host raw) e,
              (raw, refl),
            ))
    ]
  ]

  add_names-IsClean :
      (ip : Ip) (names : List Bytes) (hosts : Hosts)
      → IsClean hosts
      → IsClean (add_names net ip names hosts)
  unfolding add_names
  add_names-IsClean ip [] hosts c = c
  add_names-IsClean ip (n ∷ names) hosts c =
      add_names-IsClean ip names (add_host net ip n hosts) (add_host-IsClean ip n hosts c)

  add_fields-IsClean :
      (fs : List Bytes) (hosts : Hosts) → IsClean hosts → IsClean (add_fields net fs hosts)
  add_fields-IsClean [] hosts c = c
  add_fields-IsClean (f ∷ []) hosts c = c
  add_fields-IsClean (f ∷ n ∷ names) hosts c = elim (Option-cases (net.parse_ip f)) [
    | inl e ↦ rw (e, add_fields) c
    | inr (ip, e) ↦ rw (e, add_fields) (add_names-IsClean ip (n ∷ names) hosts c)
  ]

  add_line-IsClean :
      (raw : Bytes) (hosts : Hosts) → IsClean hosts → IsClean (add_line net raw hosts)
  unfolding add_line
  add_line-IsClean raw hosts c =
      elim (Bool-cases (is_empty (trim_space raw) || has_prefix (trim_space raw) (b'#' ∷ []))) [
        | inl b ↦ rw (b, add_line) c
        | inr b ↦
            rw (b, add_line)
              (add_fields-IsClean (fields (cut_comment net (trim_space raw))) hosts c)
      ]

  parse_lines-keeps :
      (ls : List Bytes) (hosts : Hosts) → IsClean hosts → IsClean (parse_lines net ls hosts)
  unfolding parse_lines
  parse_lines-keeps [] hosts c = c
  parse_lines-keeps (l ∷ ls) hosts c =
      parse_lines-keeps ls (add_line net l hosts) (add_line-IsClean l hosts c)

  -- Whatever the lines hold, each hostname of the map that is read from them is not empty, in
  -- the form that a lookup cleans names into, and has an address and none that equals an earlier
  -- one.
  parse_lines-IsClean : (ls : List Bytes) → IsClean (parse_lines net ls [])
  unfolding get_key
  parse_lines-IsClean ls = parse_lines-keeps ls [] (λ name ips h. cc)
