-- ===== src/Core/Answer.antt =====
-- The answers that the engine makes itself: `overrideHasFamily` and `synthesizeOverride`, and
-- `filterAnswerIPs` of internal/core/probe.go.
use true_dns.Base.{
  ℕ, ◌+◌, ◌/◌, ◌%◌, ◌^◌, ◌-◌, Bool, true, false, ◌||◌, ◌&&◌, Option, some, List, [], ◌∷◌, ◌++◌,
  if◌then◌else◌, ltb, leb, ◌==◌, ℤ, pos_part, neg_part, length,
}
use true_dns.Text.{Bytes}
use true_dns.Dns.{Msg, Question, Ip, Rr, RrData, type_a, type_aaaa, class_inet}
use true_dns.Net.{Net}
use true_dns.Cache.{second}
use true_dns.Override.{get_key, set_key}
use true_dns.Probe.{ProbeResult, filter_ips}
use true_dns.Core.Library.{DnsLib, Config}

-- `uint32(ttl / time.Second)`, but at least 1: the division rounds towards 0, and the conversion
-- keeps the last 32 bits.
unfoldable pub override_ttl32 : ℤ → ℕ
override_ttl32 ttl =
    let t = (2 ^ 32 + pos_part ttl / second % 2 ^ 32 - neg_part ttl / second % 2 ^ 32) % 2 ^ 32 in
    if ltb t 1 then 1 else t

abbrev pub is_empty : {A : Type 0} → List A → Bool
is_empty [] = true
is_empty (x ∷ xs) = false

module _ (net : Net) where
  -- the `switch` of `overrideHasFamily`: whether `ip` answers a query of type `qtype`
  abbrev pub has_family : ℕ → Ip → Bool
  has_family qtype ip =
      if qtype == type_a
      then net.is_v4 ip
      else if qtype == type_aaaa
      then (if net.is_v4 ip then false else true)
      else false

  -- `overrideHasFamily`
  unfoldable pub override_has_family : List Ip → ℕ → Bool
  override_has_family [] qtype = false
  override_has_family (ip ∷ ips) qtype = has_family qtype ip || override_has_family ips qtype

  -- the records that `synthesizeOverride` appends
  abbrev pub a_rr : Bytes → ℕ → Ip → Rr
  a_rr name ttl ip = record {
    rr_name = name;
    rrtype = type_a;
    class = class_inet;
    ttl = ttl;
    rdata = RrData.a (net.to4 ip);
  }

  abbrev pub aaaa_rr : Bytes → ℕ → Ip → Rr
  aaaa_rr name ttl ip = record {
    rr_name = name;
    rrtype = type_aaaa;
    class = class_inet;
    ttl = ttl;
    rdata = RrData.aaaa (net.to16 ip);
  }

  -- the loop of `synthesizeOverride`, with its own `switch`
  unfoldable pub override_rrs : Question → ℕ → List Ip → List Rr
  override_rrs q ttl [] = []
  override_rrs q ttl (ip ∷ ips) =
      let rest = override_rrs q ttl ips in
      if q.qtype == type_a
      then (if net.is_v4 ip then a_rr q.name ttl ip ∷ rest else rest)
      else if q.qtype == type_aaaa
      then (if net.is_v4 ip then rest else aaaa_rr q.name ttl ip ∷ rest)
      else rest

  -- `synthesizeOverride`
  unfoldable pub synthesize_override : DnsLib → Msg → Question → List Ip → ℤ → Msg
  unfolding override_rrs override_ttl32
  synthesize_override lib r q ips ttl =
      let m = lib.set_reply r in
      record m {
        recursion_available = true;
        answer = m.answer ++ override_rrs q (override_ttl32 ttl) ips;
      }

  -- the loop over the answer: the addresses of the two families, the other records, and `byIP`;
  -- each function has a case of the type switch
  abbrev pub v4_cons : RrData → List Ip → List Ip
  v4_cons (RrData.a ip) l = ip ∷ l
  v4_cons _ l = l

  abbrev pub v6_cons : RrData → List Ip → List Ip
  v6_cons (RrData.aaaa ip) l = ip ∷ l
  v6_cons _ l = l

  abbrev pub others_cons : Rr → RrData → List Rr → List Rr
  others_cons rr (RrData.a ip) l = l
  others_cons rr (RrData.aaaa ip) l = l
  others_cons rr _ l = rr ∷ l

  abbrev pub index_rr : Rr → RrData → List (Bytes × Rr) → List (Bytes × Rr)
  index_rr rr (RrData.a ip) m = set_key (net.ip_string ip) rr m
  index_rr rr (RrData.aaaa ip) m = set_key (net.ip_string ip) rr m
  index_rr rr _ m = m

  abbrev pub v4_of : List Rr → List Ip
  v4_of [] = []
  v4_of (rr ∷ rrs) = v4_cons rr.rdata (v4_of rrs)

  abbrev pub v6_of : List Rr → List Ip
  v6_of [] = []
  v6_of (rr ∷ rrs) = v6_cons rr.rdata (v6_of rrs)

  abbrev pub others_of : List Rr → List Rr
  others_of [] = []
  others_of (rr ∷ rrs) = others_cons rr rr.rdata (others_of rrs)

  unfoldable pub by_ip : List (Bytes × Rr) → List Rr → List (Bytes × Rr)
  by_ip m [] = m
  by_ip m (rr ∷ rrs) = by_ip (index_rr rr rr.rdata m) rrs

  -- the last two loops; an address without a record gives a nil record, `none`
  unfoldable pub records_at : List (Bytes × Rr) → List Ip → List (Option Rr)
  records_at m [] = []
  records_at m (ip ∷ ips) = get_key (net.ip_string ip) m ∷ records_at m ips

  abbrev pub present : List Rr → List (Option Rr)
  present [] = []
  present (rr ∷ rrs) = some rr ∷ present rrs

  -- `filterAnswerIPs`
  unfoldable pub filter_answer_ips : (Ip → ProbeResult) → Config → List Rr → List (Option Rr)
  unfolding records_at by_ip
  filter_answer_ips check cfg answer =
      let v4 = v4_of answer in
      let v6 = v6_of answer in
      let found = by_ip [] answer in
      if leb (length v4) 1 && leb (length v6) 1
      then present answer
      else present (others_of answer)
        ++ (records_at found (filter_ips check cfg.probe_mode cfg.probe_max_ips v4)
            ++ records_at found (filter_ips check cfg.probe_mode cfg.probe_max_ips v6))
