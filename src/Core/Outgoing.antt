-- ===== src/Core/Outgoing.antt =====
-- `prepareOutgoing`, `finalizeEDNS` and `subnetOption`.
use true_dns.Base.{
  ℕ, ◌⊎◌, ◌≡◌, refl, inl, inr, Bool, true, false, Option, none, some, List, [], ◌∷◌, ◌++◌, arith,
  if◌then◌else◌, ◌||◌, Bool-cases, Option-cases, ap, ◌∙◌, ◌%◌,
}
use true_dns.Text.{Bytes, is_empty}
use true_dns.Dns.{Msg, Question, Ip, Opt, EdnsOption}
use true_dns.Net.{Net}
use true_dns.Core.Library.{DnsLib, IsLawful, Config, fresh_opt, with_extra}

-- the message of `prepareOutgoing` before it looks at the client's OPT record
abbrev pub plain_query : Msg → Question → Msg
plain_query r q = record {
  id = r.id;
  rcode = 0;
  response = false;
  truncated = false;
  recursion_desired = true;
  recursion_available = false;
  checking_disabled = r.checking_disabled;
  question = q ∷ [];
  answer = [];
  ns = [];
  extra = [];
}

abbrev pub add_options : List EdnsOption → Opt → Opt
add_options os o = record o { options = o.options ++ os }

abbrev pub set_do : Opt → Opt
set_do o = record o { do_bit = true }

abbrev pub not : Bool → Bool
not true = false
not false = true

abbrev pub is_some : {A : Type 0} → Option A → Bool
is_some none = false
is_some (some x) = true

module _ (lib : DnsLib) (net : Net) where
  -- `subnetOption`; `uint8(ones)` keeps the last byte
  unfoldable pub subnet_option : Bytes → Option EdnsOption
  subnet_option cidr = elim (net.parse_cidr cidr) [
    | none ↦ none
    | some (ip, ones) ↦
        if net.is_v4 ip
        then some (EdnsOption.subnet 1 (ones % 256) 0 (net.to4 ip))
        else some (EdnsOption.subnet 2 (ones % 256) 0 (net.to16 ip))
  ]

  -- the options of the second `switch`, from the client's OPT record
  unfoldable pub policy_options : Config → Opt → List EdnsOption
  unfolding subnet_option
  policy_options cfg opt =
      if is_empty cfg.ecs_spoof
      then if cfg.ecs_strip then [] else opt.options
      else elim (subnet_option cfg.ecs_spoof) [ none ↦ [] | some sub ↦ sub ∷ [] ]

  -- `ne` after the changes that are made through it
  abbrev pub doh_opt : Config → Opt → Opt → Opt
  doh_opt cfg opt ne = add_options (policy_options cfg opt) (if opt.do_bit then set_do ne else ne)

  -- `SetEdns0` has added an OPT record, so `IsEdns0` finds one.
  abbrev pub rebuild_opt : Config → Opt → Msg → Msg
  rebuild_opt cfg opt out = elim (lib.is_edns0 out) [
    | none ↦ out
    | some ne ↦ lib.write_opt (doh_opt cfg opt ne) out
  ]

  -- `prepareOutgoing`; `q` is `r.Question[0]`
  unfoldable pub prepare_outgoing : Msg → Question → Config → Bool → Msg
  prepare_outgoing r q cfg via_doh = elim (lib.is_edns0 r) [
    | none ↦ plain_query r q
    | some opt ↦
        if via_doh
        then rebuild_opt cfg opt (lib.set_edns0 4096 false (plain_query r q))
        else record (plain_query r q) { extra = lib.opt_rr opt ∷ [] }
  ]

  -- `finalizeEDNS`
  unfoldable pub finalize_edns : Msg → Msg → Msg
  finalize_edns req resp = elim (lib.is_edns0 req) [
    | none ↦ resp
    | some o ↦ elim (lib.is_edns0 resp) [ none ↦ lib.set_edns0 4096 false resp | some p ↦ resp ]
  ]

  -- A query with the client's DNSSEC bit, a buffer of 4096 bytes and the given options.
  abbrev pub doh_query_opt : Opt → List EdnsOption → Opt
  doh_query_opt opt os = record { udp_size = 4096; do_bit = opt.do_bit; options = os }

  -- The options that the policy of the configuration allows with a client's OPT record.
  abbrev pub IsPolicy : Config → Opt → List EdnsOption → Type 0
  IsPolicy cfg opt os =
      ((cfg.ecs_spoof ≡ []) × (cfg.ecs_strip ≡ true) × (os ≡ []))
      ⊎ (((cfg.ecs_spoof ≡ []) × (cfg.ecs_strip ≡ false) × (os ≡ opt.options))
          ⊎ (((is_empty cfg.ecs_spoof ≡ false) × (net.parse_cidr cfg.ecs_spoof ≡ none) × (os ≡ []))
              ⊎ ((is_empty cfg.ecs_spoof ≡ false)
                  × (ip : Ip) × (ones : ℕ) × (sub : EdnsOption) × (net.parse_cidr cfg.ecs_spoof
                      ≡ some (ip, ones))
                  × (((net.is_v4 ip ≡ true)
                        × (sub ≡ EdnsOption.subnet 1 (ones % 256) 0 (net.to4 ip)))
                      ⊎ ((net.is_v4 ip ≡ false)
                          × (sub ≡ EdnsOption.subnet 2 (ones % 256) 0 (net.to16 ip))))
                  × (os ≡ sub ∷ []))))

  is_empty_nil : (b : Bytes) → is_empty b ≡ true → b ≡ []
  is_empty_nil [] e = refl
  is_empty_nil (c ∷ b) e = absurd (ground arith)

  -- With options stripped or a spoofed subnet, the query that is prepared for DoH depends on
  -- nothing of the client's OPT record but the DNSSEC bit.
  pub prepare_outgoing_private :
      (r s : Msg) (q : Question) (cfg : Config) (o p : Opt)
      → lib.is_edns0 r ≡ some o
      → lib.is_edns0 s ≡ some p
      → plain_query r q ≡ plain_query s q
      → o.do_bit ≡ p.do_bit
      → (cfg.ecs_strip ≡ true) ⊎ (is_empty cfg.ecs_spoof ≡ false)
      → prepare_outgoing r q cfg true ≡ prepare_outgoing s q cfg true
  unfolding prepare_outgoing policy_options
  prepare_outgoing_private r s q cfg o p er es plain same guard =
      let options : policy_options cfg o ≡ policy_options cfg p = ground arith in
      let out = lib.set_edns0 4096 false (plain_query s q) in
      rw (er, prepare_outgoing, es, plain)
        (λ i. elim (lib.is_edns0 out) as (λ _. Msg) [
          | none ↦ out
          | some ne ↦ lib.write_opt (add_options (options i) (if same i then set_do ne else ne)) out
        ])

  module _ (lawful : IsLawful lib) where
    do_bit_kept :
        (b : Bool) (os : List EdnsOption)
        → add_options os (if b then set_do (fresh_opt 4096 false) else fresh_opt 4096 false)
          ≡ record { udp_size = 4096; do_bit = b; options = os }
    do_bit_kept true os = refl
    do_bit_kept false os = refl

    do_bits :
        (cfg : Config) (opt : Opt)
        → doh_opt cfg opt (fresh_opt 4096 false) ≡ doh_query_opt opt (policy_options cfg opt)
    do_bits cfg opt = do_bit_kept opt.do_bit (policy_options cfg opt)

    fresh_query : (r : Msg) (q : Question) → lib.is_edns0 (plain_query r q) ≡ none
    fresh_query r q = lawful.edns0_none (plain_query r q) refl

    rebuilt :
        (cfg : Config) (opt : Opt) (r : Msg) (q : Question)
        → lib.is_edns0 (rebuild_opt cfg opt (lib.set_edns0 4096 false (plain_query r q)))
          ≡ some (doh_query_opt opt (policy_options cfg opt))
    rebuilt cfg opt r q =
        let out = lib.set_edns0 4096 false (plain_query r q) in
        let found = lawful.edns0_set 4096 false (plain_query r q) (fresh_query r q) in
        ap
          (λ o. lib.is_edns0 (elim o as (λ _. Msg) [
            | none ↦ out
            | some ne ↦ lib.write_opt (doh_opt cfg opt ne) out
          ]))
          found
        ∙ lawful.edns0_write (doh_opt cfg opt (fresh_opt 4096 false)) (fresh_opt 4096 false) out
            found
        ∙ ap some (do_bits cfg opt)

    policy_options-IsPolicy : (cfg : Config) (opt : Opt) → IsPolicy cfg opt (policy_options cfg opt)
    unfolding policy_options subnet_option
    policy_options-IsPolicy cfg opt = elim (Bool-cases (is_empty cfg.ecs_spoof)) [
      | inl a ↦ elim (Bool-cases cfg.ecs_strip) [
        | inl b ↦ rw (a, policy_options, b) (inl (is_empty_nil cfg.ecs_spoof a, refl, refl))
        | inr b ↦ rw (a, policy_options, b) (inr (inl (is_empty_nil cfg.ecs_spoof a, refl, refl)))
      ]
      | inr a ↦ elim (Option-cases (net.parse_cidr cfg.ecs_spoof)) [
        | inl e ↦ rw (a, policy_options, subnet_option, e) (inr (inr (inl (refl, refl, refl))))
        | inr ((ip, ones), e) ↦ elim (Bool-cases (net.is_v4 ip)) [
          | inl v ↦
              rw (a, policy_options, subnet_option, e, v)
                (inr (inr (inr (refl, ip, ones, _, refl, inl (v, refl), refl))))
          | inr v ↦
              rw (a, policy_options, subnet_option, e, v)
                (inr (inr (inr (refl, ip, ones, _, refl, inr (v, refl), refl))))
        ]
      ]
    ]

    -- The OPT record of the prepared query, if the DNS package does what it documents: none if the
    -- client sent none; the client's own if the query is prepared for the system upstreams; and if
    -- it is prepared for DoH, one with the client's DNSSEC bit and a buffer of 4096 bytes, whose
    -- options are those of the policy: the subnet of the spoof, nothing if the spoof does not
    -- parse, and with no spoof nothing if options are stripped, and else the client's own.
    pub prepare_outgoing_opt :
        (r : Msg) (q : Question) (cfg : Config) (via_doh : Bool)
        → ((lib.is_edns0 r ≡ none) × (lib.is_edns0 (prepare_outgoing r q cfg via_doh) ≡ none))
          ⊎ ((opt : Opt) × (lib.is_edns0 r ≡ some opt)
              × (((via_doh ≡ false) × (lib.is_edns0 (prepare_outgoing r q cfg via_doh) ≡ some opt))
                  ⊎ ((os : List EdnsOption) × (via_doh ≡ true)
                      × IsPolicy cfg opt os
                      × (lib.is_edns0 (prepare_outgoing r q cfg via_doh)
                          ≡ some (record { udp_size = 4096; do_bit = opt.do_bit; options = os })))))
    unfolding prepare_outgoing
    prepare_outgoing_opt r q cfg via_doh = elim (Option-cases (lib.is_edns0 r)) [
      | inl e ↦ rw (e, prepare_outgoing) (inl (refl, fresh_query r q))
      | inr (opt, e) ↦ elim (Bool-cases via_doh) [
        | inl d ↦
            rw (e, prepare_outgoing, d)
              (inr (
                opt,
                refl,
                inr (
                  policy_options cfg opt,
                  refl,
                  policy_options-IsPolicy cfg opt,
                  rebuilt cfg opt r q,
                ),
              ))
        | inr d ↦
            rw (e, prepare_outgoing, d)
              (inr (
                opt,
                refl,
                inl (
                  refl,
                  lawful.edns0_opt_rr (record (plain_query r q) { extra = lib.opt_rr opt ∷ [] }) opt
                      refl,
                ),
              ))
      ]
    ]

    -- A response has an OPT record after `finalizeEDNS` if it had one or the query has one, and
    -- nothing but its additional section is changed, if the DNS package does what it documents.
    pub finalize_edns_lem :
        (req resp : Msg)
        → (is_some (lib.is_edns0 (finalize_edns req resp))
            ≡ (is_some (lib.is_edns0 req) || is_some (lib.is_edns0 resp)))
          × (finalize_edns req resp ≡ with_extra (finalize_edns req resp).extra resp)
    unfolding finalize_edns
    finalize_edns_lem req resp = elim (Option-cases (lib.is_edns0 req)) [
      | inl e ↦ rw (e, finalize_edns) (refl, refl)
      | inr (o, e) ↦ elim (Option-cases (lib.is_edns0 resp)) [
        | inl f ↦
            rw (e, finalize_edns, f)
              (
                ap is_some (lawful.edns0_set 4096 false resp f),
                lawful.set_edns0_extra 4096 false resp,
              )
        | inr (p, f) ↦ rw (e, finalize_edns, f) (ap is_some f, refl)
      ]
    ]
