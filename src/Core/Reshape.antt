-- ===== src/Core/Reshape.antt =====
-- What `filterAnswerIPs` leaves of an answer.
use true_dns.Base.{
  ◌≡◌, refl, inl, inr, ◌⊎◌, ◌&&◌, Option, some, List, [], ◌∷◌, ◌++◌, arith, Bool-cases, length, leb,
  ltb, In, In-append, In-append_left, ℤ, ap, ltb→lt, subst, sym, ◌∙◌,
}
use true_dns.Base.Perms.{In-Permᴰ}
use true_dns.Text.{Bytes, bytes_eq, bytes_eq_iff}
use true_dns.Dns.{Ip, Rr, RrData}
use true_dns.Net.{Net}
use true_dns.Override.{get_key, set_key, get_key-set_key}
use true_dns.Probe.{Mode, ProbeResult, filter_ips, filter_prefer, filter_ips-Drops}
use true_dns.Core.Library.{Config}
use true_dns.Core.Answer.{
  v4_cons, v6_cons, others_cons, index_rr, v4_of, v6_of, others_of, by_ip, records_at, present,
  filter_answer_ips,
}

-- Probing adds no address, in either mode.
In-filter_ips :
    (check : Ip → ProbeResult) (mode : Mode) (max : ℤ) (ips : List Ip) (ip : Ip)
    → In ip (filter_ips check mode max ips)
    → In ip ips
In-filter_ips check Mode.prefer max ips ip = In-Permᴰ ip (filter_prefer check max ips).0
In-filter_ips check Mode.drop_mode max ips ip = elim (Bool-cases (ltb 1 (length ips))) [
  | inl b ↦ (filter_ips-Drops check max ips (ltb→lt 1 (length ips) b)).no_new ip
  | inr b ↦ unfold filter_ips in rw (b, filter_ips) (λ i. i)
]

module _ (net : Net) where
  -- The map has a record under the key.
  abbrev Has : Bytes → List (Bytes × Rr) → Type 0
  Has k m = (rr : Rr) × (get_key k m ≡ some rr)

  -- Every record of the map is one of the answer's.
  abbrev AreFrom : List Rr → List (Bytes × Rr) → Type 0
  AreFrom answer m = (k : Bytes) (rr : Rr) → get_key k m ≡ some rr → In rr answer

  set_key-Has_self : (k : Bytes) (rr : Rr) (m : List (Bytes × Rr)) → Has k (set_key k rr m)
  set_key-Has_self k rr m = (rr, ground (arith, get_key-set_key k k rr m, bytes_eq_iff k k))

  set_key-Has : (j k : Bytes) (rr : Rr) (m : List (Bytes × Rr)) → Has j m → Has j (set_key k rr m)
  set_key-Has j k rr m (old, h) = elim (Bool-cases (bytes_eq k j)) [
    | inl b ↦ (rr, ground (arith, get_key-set_key j k rr m))
    | inr b ↦ (old, ground (arith, get_key-set_key j k rr m))
  ]

  index_rr-Has :
      (k : Bytes) (rr : Rr) (d : RrData) (m : List (Bytes × Rr))
      → Has k m
      → Has k (index_rr net rr d m)
  index_rr-Has k rr (RrData.a ip) m h = set_key-Has k (net.ip_string ip) rr m h
  index_rr-Has k rr (RrData.aaaa ip) m h = set_key-Has k (net.ip_string ip) rr m h
  index_rr-Has k rr (RrData.soa n) m h = h
  index_rr-Has k rr (RrData.opt o) m h = h
  index_rr-Has k rr (RrData.other_data b) m h = h

  by_ip-Has :
      (k : Bytes) (m : List (Bytes × Rr)) (rrs : List Rr) → Has k m → Has k (by_ip net m rrs)
  unfolding by_ip
  by_ip-Has k m [] h = h
  by_ip-Has k m (rr ∷ rrs) h =
      by_ip-Has k (index_rr net rr rr.rdata m) rrs (index_rr-Has k rr rr.rdata m h)

  v4_cons-Has :
      (ip : Ip) (rr : Rr) (d : RrData) (l : List Ip) (m : List (Bytes × Rr))
      → In ip (v4_cons net d l)
      → Has (net.ip_string ip) (index_rr net rr d m) ⊎ In ip l
  v4_cons-Has ip rr (RrData.a jp) l m (inl e) = inl (
      subst (λ x. Has (net.ip_string x) (set_key (net.ip_string jp) rr m)) e
        (set_key-Has_self (net.ip_string jp) rr m))
  v4_cons-Has ip rr (RrData.a jp) l m (inr i) = inr i
  v4_cons-Has ip rr (RrData.aaaa jp) l m i = inr i
  v4_cons-Has ip rr (RrData.soa n) l m i = inr i
  v4_cons-Has ip rr (RrData.opt o) l m i = inr i
  v4_cons-Has ip rr (RrData.other_data b) l m i = inr i

  v6_cons-Has :
      (ip : Ip) (rr : Rr) (d : RrData) (l : List Ip) (m : List (Bytes × Rr))
      → In ip (v6_cons net d l)
      → Has (net.ip_string ip) (index_rr net rr d m) ⊎ In ip l
  v6_cons-Has ip rr (RrData.aaaa jp) l m (inl e) = inl (
      subst (λ x. Has (net.ip_string x) (set_key (net.ip_string jp) rr m)) e
        (set_key-Has_self (net.ip_string jp) rr m))
  v6_cons-Has ip rr (RrData.aaaa jp) l m (inr i) = inr i
  v6_cons-Has ip rr (RrData.a jp) l m i = inr i
  v6_cons-Has ip rr (RrData.soa n) l m i = inr i
  v6_cons-Has ip rr (RrData.opt o) l m i = inr i
  v6_cons-Has ip rr (RrData.other_data b) l m i = inr i

  -- Every address of the answer has a record in the map.
  v4_of-Has :
      (ip : Ip) (rrs : List Rr) (m : List (Bytes × Rr))
      → In ip (v4_of net rrs)
      → Has (net.ip_string ip) (by_ip net m rrs)
  unfolding by_ip
  v4_of-Has ip [] m i = absurd i
  v4_of-Has ip (rr ∷ rrs) m i =
      let next = index_rr net rr rr.rdata m in
      elim (v4_cons-Has ip rr rr.rdata (v4_of net rrs) m i) [
        | inl h ↦ by_ip-Has (net.ip_string ip) next rrs h
        | inr j ↦ v4_of-Has ip rrs next j
      ]

  v6_of-Has :
      (ip : Ip) (rrs : List Rr) (m : List (Bytes × Rr))
      → In ip (v6_of net rrs)
      → Has (net.ip_string ip) (by_ip net m rrs)
  unfolding by_ip
  v6_of-Has ip [] m i = absurd i
  v6_of-Has ip (rr ∷ rrs) m i =
      let next = index_rr net rr rr.rdata m in
      elim (v6_cons-Has ip rr rr.rdata (v6_of net rrs) m i) [
        | inl h ↦ by_ip-Has (net.ip_string ip) next rrs h
        | inr j ↦ v6_of-Has ip rrs next j
      ]

  set_key-AreFrom :
      (answer : List Rr) (k : Bytes) (rr : Rr) (m : List (Bytes × Rr))
      → In rr answer
      → AreFrom answer m
      → AreFrom answer (set_key k rr m)
  set_key-AreFrom answer k rr m i f j got h = elim (Bool-cases (bytes_eq k j)) [
    | inl b ↦
        let same : rr ≡ got = ground (arith, get_key-set_key j k rr m) in
        subst (λ x. In x answer) same i
    | inr b ↦ f j got (ground (arith, get_key-set_key j k rr m))
  ]

  index_rr-AreFrom :
      (answer : List Rr) (rr : Rr) (d : RrData) (m : List (Bytes × Rr))
      → In rr answer
      → AreFrom answer m
      → AreFrom answer (index_rr net rr d m)
  index_rr-AreFrom answer rr (RrData.a ip) m i f =
      set_key-AreFrom answer (net.ip_string ip) rr m i f
  index_rr-AreFrom answer rr (RrData.aaaa ip) m i f =
      set_key-AreFrom answer (net.ip_string ip) rr m i f
  index_rr-AreFrom answer rr (RrData.soa n) m i f = f
  index_rr-AreFrom answer rr (RrData.opt o) m i f = f
  index_rr-AreFrom answer rr (RrData.other_data b) m i f = f

  by_ip-AreFrom :
      (answer : List Rr) (m : List (Bytes × Rr)) (rrs : List Rr)
      → ((rr : Rr) → In rr rrs → In rr answer)
      → AreFrom answer m
      → AreFrom answer (by_ip net m rrs)
  unfolding by_ip
  by_ip-AreFrom answer m [] sub f = f
  by_ip-AreFrom answer m (rr ∷ rrs) sub f =
      by_ip-AreFrom answer (index_rr net rr rr.rdata m) rrs (λ x i. sub x (inr i))
        (index_rr-AreFrom answer rr rr.rdata m (sub rr (inl refl)) f)

  In-others_cons :
      (x rr : Rr) (d : RrData) (l : List Rr) → In x (others_cons net rr d l) → (rr ≡ x) ⊎ In x l
  In-others_cons x rr (RrData.a ip) l i = inr i
  In-others_cons x rr (RrData.aaaa ip) l i = inr i
  In-others_cons x rr (RrData.soa n) l i = i
  In-others_cons x rr (RrData.opt o) l i = i
  In-others_cons x rr (RrData.other_data b) l i = i

  In-others_of : (x : Rr) (rrs : List Rr) → In x (others_of net rrs) → In x rrs
  In-others_of x [] i = i
  In-others_of x (rr ∷ rrs) i = elim (In-others_cons x rr rr.rdata (others_of net rrs) i) [
    | inl e ↦ inl e
    | inr j ↦ inr (In-others_of x rrs j)
  ]

  -- The element is a record of the answer.
  abbrev pub IsRecordOf : List Rr → Option Rr → Type 0
  IsRecordOf answer o = (rr : Rr) × (o ≡ some rr) × In rr answer

  present-IsRecordOf :
      (answer rrs : List Rr) (o : Option Rr)
      → ((rr : Rr) → In rr rrs → In rr answer)
      → In o (present net rrs)
      → IsRecordOf answer o
  present-IsRecordOf answer [] o sub i = absurd i
  present-IsRecordOf answer (rr ∷ rrs) o sub (inl e) = (rr, sym e, sub rr (inl refl))
  present-IsRecordOf answer (rr ∷ rrs) o sub (inr i) =
      present-IsRecordOf answer rrs o (λ x j. sub x (inr j)) i

  records_at-IsRecordOf :
      (answer : List Rr) (m : List (Bytes × Rr)) (ips : List Ip) (o : Option Rr)
      → AreFrom answer m
      → ((ip : Ip) → In ip ips → Has (net.ip_string ip) m)
      → In o (records_at net m ips)
      → IsRecordOf answer o
  unfolding records_at
  records_at-IsRecordOf answer m [] o f h i = absurd i
  records_at-IsRecordOf answer m (ip ∷ ips) o f h (inl e) =
      let (rr, found) = h ip (inl refl) in (rr, sym e ∙ found, f (net.ip_string ip) rr found)
  records_at-IsRecordOf answer m (ip ∷ ips) o f h (inr i) =
      records_at-IsRecordOf answer m ips o f (λ jp j. h jp (inr j)) i

  In-present : (rr : Rr) (rrs : List Rr) → In rr rrs → In (some rr) (present net rrs)
  In-present rr [] i = absurd i
  In-present rr (x ∷ rrs) (inl e) = inl (ap some e)
  In-present rr (x ∷ rrs) (inr i) = inr (In-present rr rrs i)

  module _ (check : Ip → ProbeResult) (cfg : Config) (answer : List Rr) where
    abbrev kept_v4 : List (Option Rr)
    kept_v4 =
        records_at net (by_ip net [] answer)
          (filter_ips check cfg.probe_mode cfg.probe_max_ips (v4_of net answer))

    abbrev kept_v6 : List (Option Rr)
    kept_v6 =
        records_at net (by_ip net [] answer)
          (filter_ips check cfg.probe_mode cfg.probe_max_ips (v6_of net answer))

    indexed : AreFrom answer (by_ip net [] answer)
    unfolding get_key
    indexed = by_ip-AreFrom answer [] answer (λ rr i. i) (λ k rr h. cc)

    reshaped-IsRecordOf :
        (o : Option Rr)
        → In o (present net (others_of net answer) ++ (kept_v4 ++ kept_v6))
        → IsRecordOf answer o
    reshaped-IsRecordOf o i =
        elim (In-append o (present net (others_of net answer)) (kept_v4 ++ kept_v6) i) [
          | inl j ↦
              present-IsRecordOf answer (others_of net answer) o (λ rr. In-others_of rr answer) j
          | inr j ↦ elim (In-append o kept_v4 kept_v6 j) [
            | inl k ↦
                records_at-IsRecordOf answer (by_ip net [] answer) _ o indexed
                  (λ ip m.
                    v4_of-Has ip answer [] (
                      In-filter_ips check cfg.probe_mode cfg.probe_max_ips (v4_of net answer) ip m))
                  k
            | inr k ↦
                records_at-IsRecordOf answer (by_ip net [] answer) _ o indexed
                  (λ ip m.
                    v6_of-Has ip answer [] (
                      In-filter_ips check cfg.probe_mode cfg.probe_max_ips (v6_of net answer) ip m))
                  k
          ]
        ]

    pub filter_answer_ips_keeps :
        ((o : Option Rr) → In o (filter_answer_ips net check cfg answer) → IsRecordOf answer o)
        × ((rr : Rr)
            → In rr (others_of net answer)
            → In (some rr) (filter_answer_ips net check cfg answer))
    unfolding filter_answer_ips
    filter_answer_ips_keeps =
        elim (Bool-cases (leb (length (v4_of net answer)) 1 && leb (length (v6_of net answer)) 1)) [
          | inl b ↦
              rw (b, filter_answer_ips)
                (
                  (λ o. present-IsRecordOf answer answer o (λ rr i. i)),
                  λ rr i. In-present rr answer (In-others_of rr answer i),
                )
          | inr b ↦
              rw (b, filter_answer_ips)
                (
                  reshaped-IsRecordOf,
                  λ rr i.
                      In-append_left (some rr) (present net (others_of net answer))
                        (kept_v4 ++ kept_v6) (In-present rr (others_of net answer) i),
                )
        ]
