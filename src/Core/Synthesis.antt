-- ===== src/Core/Synthesis.antt =====
-- What the answers hold that `synthesizeOverride` of internal/core/engine.go makes.
use true_dns.Base.{
  ℕ, ◌≡◌, ◌≤◌, refl, inl, inr, true, false, List, [], ◌∷◌, ◌++◌, arith, if◌then◌else◌, Bool-cases,
  ◌==◌, ℤ, pos, negsuc, ◌/◌, ◌%◌, subst, ap, sym, ◌⊎◌, ◌∙◌,
}
use true_dns.Dns.{Msg, Question, Ip, Rr, RrData, type_a, type_aaaa, class_inet}
use true_dns.Net.{Net}
use true_dns.Core.Library.{DnsLib}
use true_dns.Core.Answer.{
  override_ttl32, is_empty, a_rr, aaaa_rr, override_rrs, override_has_family, synthesize_override,
}

module _ (net : Net) where
  -- The address is one of the family that the type asks for.
  abbrev pub IsAsked : ℕ → Ip → Type 0
  IsAsked qtype ip =
      ((qtype ≡ type_a) × (net.is_v4 ip ≡ true)) ⊎ ((qtype ≡ type_aaaa) × (net.is_v4 ip ≡ false))

  -- The data of a record of that type for the address.
  abbrev pub IsDataOf : ℕ → Ip → RrData → Type 0
  IsDataOf qtype ip d =
      ((qtype ≡ type_a) × (d ≡ RrData.a (net.to4 ip)))
      ⊎ ((qtype ≡ type_aaaa) × (d ≡ RrData.aaaa (net.to16 ip)))

  -- The TTL of a duration in nanoseconds: its whole seconds, of which the last 32 bits are kept, or 1
  -- if these are 0. For a negative duration, only that it is not 0.
  abbrev pub IsTtl : ℤ → ℕ → Type 0
  IsTtl (pos n) t =
      let seconds = n / 1_000_000_000 % 4_294_967_296 in
      ((seconds ≡ 0) × (t ≡ 1)) ⊎ ((1 ≤ seconds) × (t ≡ seconds))
  IsTtl (negsuc n) t = 1 ≤ t

  override_ttl32-IsTtl : (ttl : ℤ) → IsTtl ttl (override_ttl32 ttl)
  unfolding override_ttl32
  override_ttl32-IsTtl (pos n) = ground arith
  override_ttl32-IsTtl (negsuc n) = ground arith

  -- A record that answers the question with an address: its name, type and class are the
  -- question's, its data is the address, and it may be cached for a second at least.
  pub record IsAnswerTo (q : Question) (ttl : ℤ) (ip : Ip) (rr : Rr) : Type 0 where
    pub same_name : rr.rr_name ≡ q.name
    pub same_type : rr.rrtype ≡ q.qtype
    pub data_of : IsDataOf q.qtype ip rr.rdata
    pub internet : rr.class ≡ class_inet
    pub lifetime : IsTtl ttl rr.ttl
    pub lives : 1 ≤ rr.ttl

  -- The records answer with the addresses that are asked for, one each, in their order.
  pub data Gives (q : Question) (ttl : ℤ) : List Ip → List Rr → Type 0 where
    gives_none : Gives q ttl [] []
    gives :
        {ip : Ip} {rr : Rr} {ips : List Ip} {rrs : List Rr}
        → IsAsked q.qtype ip
        → IsAnswerTo q ttl ip rr
        → Gives q ttl ips rrs
        → Gives q ttl (ip ∷ ips) (rr ∷ rrs)
    passes :
        {ip : Ip} {ips : List Ip} {rrs : List Rr}
        → ¬ IsAsked q.qtype ip
        → Gives q ttl ips rrs
        → Gives q ttl (ip ∷ ips) rrs

  override_ttl32_pos : (ttl : ℤ) → 1 ≤ override_ttl32 ttl
  unfolding override_ttl32
  override_ttl32_pos ttl = ground arith

  a_rr-IsAnswerTo :
      (q : Question) (ttl : ℤ) (ip : Ip)
      → q.qtype ≡ type_a
      → IsAnswerTo q ttl ip (a_rr net q.name (override_ttl32 ttl) ip)
  a_rr-IsAnswerTo q ttl ip e = record {
    same_name = refl;
    same_type = sym e;
    data_of = inl (e, refl);
    internet = refl;
    lifetime = override_ttl32-IsTtl ttl;
    lives = override_ttl32_pos ttl;
  }

  aaaa_rr-IsAnswerTo :
      (q : Question) (ttl : ℤ) (ip : Ip)
      → q.qtype ≡ type_aaaa
      → IsAnswerTo q ttl ip (aaaa_rr net q.name (override_ttl32 ttl) ip)
  aaaa_rr-IsAnswerTo q ttl ip e = record {
    same_name = refl;
    same_type = sym e;
    data_of = inr (e, refl);
    internet = refl;
    lifetime = override_ttl32-IsTtl ttl;
    lives = override_ttl32_pos ttl;
  }

  override_rrs-Gives :
      (q : Question) (ttl : ℤ) (ips : List Ip)
      → Gives q ttl ips (override_rrs net q (override_ttl32 ttl) ips)
  unfolding override_rrs
  override_rrs-Gives q ttl [] = gives_none
  override_rrs-Gives q ttl (ip ∷ ips) =
      let rest = override_rrs-Gives q ttl ips in
      elim (Bool-cases (q.qtype == type_a)) [
        | inl a ↦
            let is_a : q.qtype ≡ type_a = ground arith in
            elim (Bool-cases (net.is_v4 ip)) [
              | inl v ↦
                  rw (a, override_rrs, v)
                    (gives (inl (is_a, v)) (a_rr-IsAnswerTo q ttl ip is_a) rest)
              | inr v ↦ rw (a, override_rrs, v) (passes (λ asked. ground arith) rest)
            ]
        | inr a ↦ elim (Bool-cases (q.qtype == type_aaaa)) [
          | inl b ↦
              let is_b : q.qtype ≡ type_aaaa = ground arith in
              elim (Bool-cases (net.is_v4 ip)) [
                | inl v ↦ rw (a, override_rrs, b, v) (passes (λ asked. ground arith) rest)
                | inr v ↦
                    rw (a, override_rrs, b, v)
                      (gives (inr (is_b, v)) (aaaa_rr-IsAnswerTo q ttl ip is_b) rest)
              ]
          | inr b ↦ rw (a, override_rrs, b) (passes (λ asked. ground arith) rest)
        ]
      ]

  override_rrs_empty :
      (q : Question) (ttl : ℕ) (ips : List Ip)
      → is_empty (override_rrs net q ttl ips)
        ≡ (if override_has_family net ips q.qtype then false else true)
  unfolding override_rrs override_has_family
  override_rrs_empty q ttl [] = refl
  override_rrs_empty q ttl (ip ∷ ips) = ground (arith, override_rrs_empty q ttl ips)

  -- A synthesised answer has one record for each address of the override that is of the queried
  -- family, in their order, with the queried name and type, that address as its data and the whole
  -- seconds of the configured TTL, in 32 bits and at least 1, and no other record; it has one just if `overrideHasFamily` says that the
  -- override has such an address. The reply that the DNS package sets up is to have no records of
  -- its own.
  pub synthesize_override_answers :
      (lib : DnsLib) (r : Msg) (q : Question) (ips : List Ip) (ttl : ℤ)
      → (lib.set_reply r).answer ≡ []
      → Gives q ttl ips (synthesize_override net lib r q ips ttl).answer
        × (is_empty (synthesize_override net lib r q ips ttl).answer
            ≡ (if override_has_family net ips q.qtype then false else true))
  unfolding synthesize_override
  synthesize_override_answers lib r q ips ttl bare =
      let same : (lib.set_reply r).answer ++ override_rrs net q (override_ttl32 ttl) ips
          ≡ override_rrs net q (override_ttl32 ttl) ips =
        ap (λ l. l ++ override_rrs net q (override_ttl32 ttl) ips) bare in
      (
        subst (Gives q ttl ips) (sym same) (override_rrs-Gives q ttl ips),
        ap is_empty same ∙ override_rrs_empty q (override_ttl32 ttl) ips,
      )
