-- ===== src/Core/Routing.antt =====
-- Which upstreams the handler consults: a run does not depend on what the others would answer.
use true_dns.Base.{
  ◌≡◌, refl, inl, inr, true, false, Bool, ◌||◌, ◌⊎◌, Option, some, List, Bool-cases, Option-cases,
  ap, ◌∙◌, sym,
}
use true_dns.Base.Result.{ok, err, Result-cases}
use true_dns.Dns.{Msg, Question, Opt}
use true_dns.Net.{Net}
use true_dns.Cache.{Cache}
use true_dns.Cache
use true_dns.Override.{lookup}
use true_dns.Core.Library.{DnsLib, RouteMode}
use true_dns.Matcher.{match_name}
use true_dns.Core.Outgoing.{plain_query, prepare_outgoing, prepare_outgoing_private}
use true_dns.Text.{is_empty}
use true_dns.Core.Upstreams.{Answered, uint64_inc}
use true_dns.Core.Answer.{override_has_family}
use true_dns.Core.Engine.{
  Engine, World, Route, is_full, via_doh, key_of, store, deliver, serve_override, ask_doh,
  ask_system, fall_back, route_query, probe_answer, finish, forward, serve_miss, serve_question,
  one_question, serve_dns,
}

or_true : (b : Bool) → (b || true) ≡ true
or_true true = refl
or_true false = refl

-- the world with other DoH upstreams, or with other system upstreams
abbrev pub with_doh : World → List (Msg → Answered) → (List Answered → List Answered) → World
with_doh w doh arrive = record w { doh = doh; arrive = arrive }

abbrev pub with_system : World → (Msg → Answered) → Option (Msg → Answered) → World
with_system w sys fb = record w { sys = sys; fb = fb }

module _ (lib : DnsLib) (net : Net) (w : World) (doh : List (Msg → Answered))
    (arrive : List Answered → List Answered) (sys : Msg → Answered)
    (fb : Option (Msg → Answered)) where
  -- both
  abbrev other : World
  other = with_system (with_doh w doh arrive) sys fb

  finish-other :
      (r : Msg) (q : Question) (asked : Engine × Answered × Route)
      → finish lib net w r q asked ≡ finish lib net other r q asked
  unfolding finish deliver store probe_answer
  finish-other r q (e, err text, route) = refl
  finish-other r q (e, ok resp, route) = refl

  forward-other :
      (r : Msg) (q : Question) (e : Engine)
      → ((out : Msg) → route_query lib net w q out e ≡ route_query lib net other q out e)
      → forward lib net w r q e ≡ forward lib net other r q e
  unfolding forward
  forward-other r q e same =
      let out = prepare_outgoing lib net r q e.cfg (via_doh e q) in
      elim (Bool-cases w.slot_free) [
        | inr b ↦ rw (b, forward) refl
        | inl b ↦ elim (Option-cases (route_query lib net w q out e)) [
          | inl f ↦ rw (b, forward, f, sym (same out) ∙ f) refl
          | inr (asked, f) ↦ rw (b, forward, f, sym (same out) ∙ f) (finish-other r q asked)
        ]
      ]

  serve_miss-other :
      (r : Msg) (q : Question) (e : Engine)
      → ((out : Msg) → route_query lib net w q out e ≡ route_query lib net other q out e)
      → serve_miss lib net w r q e ≡ serve_miss lib net other r q e
  unfolding serve_miss serve_override deliver store
  serve_miss-other r q e same = elim (Option-cases e.override_table) [
    | inl f ↦ rw (f, serve_miss) (forward-other r q e same)
    | inr (t, f) ↦ elim (Bool-cases (override_has_family net (lookup net t q.name) q.qtype)) [
      | inl b ↦ rw (f, serve_miss, b) refl
      | inr b ↦ rw (f, serve_miss, b) (forward-other r q e same)
    ]
  ]

  -- `e` after the count of the query and the look into the cache
  abbrev looked : Engine → Cache → Engine
  looked e c = record e { queries = uint64_inc e.queries; cache = c }

  serve_question-other :
      (r : Msg) (q : Question) (e : Engine)
      → ((c : Cache) (out : Msg)
          → route_query lib net w q out (record e { cache = c })
            ≡ route_query lib net other q out (record e { cache = c }))
      → serve_question lib net w r q e ≡ serve_question lib net other r q e
  unfolding serve_question
  serve_question-other r q e same =
      elim (Option-cases (Cache.get w.get_time (key_of lib net q) e.cache)) [
        | inl f ↦ rw (f, serve_question) refl
        | inr ((c, answer), f) ↦ elim (Option-cases answer) [
          | inl g ↦
              rw (f, serve_question, g) (serve_miss-other r q (record e { cache = c }) (same c))
          | inr (found, g) ↦ rw (f, serve_question, g) refl
        ]
      ]

  serve_dns-other :
      (r : Msg) (q : Question) (e : Engine)
      → one_question r.question ≡ some q
      → ((c : Cache) (out : Msg)
          → route_query lib net w q out (looked e c) ≡ route_query lib net other q out (looked e c))
      → serve_dns lib net w r e ≡ serve_dns lib net other r e
  unfolding serve_dns
  serve_dns-other r q e one same =
      rw (one, serve_dns)
        (serve_question-other r q (record e { queries = uint64_inc e.queries }) same)

  route_query_doh :
      (q : Question) (out : Msg) (e : Engine)
      → via_doh e q ≡ true
      → route_query lib net w q out e ≡ route_query lib net (with_system w sys fb) q out e
  unfolding route_query ask_doh
  route_query_doh q out e h = rw (h, route_query) refl

  fall_back_none :
      (out : Msg) (v : World) (e : Engine) (answered : Answered) (route : Route)
      → e.cfg.fallback_to_doh ≡ false
      → fall_back lib net v out (e, answered, route) ≡ some (e, answered, route)
  unfolding fall_back
  fall_back_none out v e (ok resp) route h = refl
  fall_back_none out v e (err text) route h = rw (h, fall_back) refl

  ask_system_keeps :
      (v : World) (out : Msg) (e : Engine) → (ask_system lib net v out e).0.cfg ≡ e.cfg
  unfolding ask_system
  ask_system_keeps v out e = elim (Result-cases (v.sys out)) [
    | inl (m, f) ↦ rw (f, ask_system) refl
    | inr (t, f) ↦ elim (Option-cases v.fb) [
      | inl g ↦ rw (f, ask_system, g) refl
      | inr (u, g) ↦ rw (f, ask_system, g) refl
    ]
  ]

  fall_back_off :
      (v : World) (out : Msg) (x : Engine × Answered × Route)
      → x.0.cfg.fallback_to_doh ≡ false
      → fall_back lib net v out x ≡ some x
  fall_back_off v out (e, answered, route) h = fall_back_none out v e answered route h

  system_off :
      (v : World) (out : Msg) (e : Engine)
      → e.cfg.fallback_to_doh ≡ false
      → fall_back lib net v out (ask_system lib net v out e) ≡ some (ask_system lib net v out e)
  system_off v out e h =
      fall_back_off v out (ask_system lib net v out e)
        (ap (λ c. c.fallback_to_doh) (ask_system_keeps v out e) ∙ h)

  route_query_system :
      (q : Question) (out : Msg) (e : Engine)
      → via_doh e q ≡ false
      → e.cfg.fallback_to_doh ≡ false
      → route_query lib net w q out e ≡ route_query lib net (with_doh w doh arrive) q out e
  unfolding route_query ask_system
  route_query_system q out e h off =
      rw (h, route_query)
        (system_off w out e off ∙ sym (system_off (with_doh w doh arrive) out e off))

via_doh_listed :
    (e : Engine) (q : Question)
    → (e.cfg.mode ≡ RouteMode.full) ⊎ (match_name e.matcher q.name ≡ true)
    → via_doh e q ≡ true
via_doh_listed e q (inl full) = rw full refl
via_doh_listed e q (inr listed) = rw listed (or_true (is_full e.cfg.mode))

module _ (lib : DnsLib) (net : Net) where
  -- In full mode, and for a name that the matcher finds in the list, no system upstream has a part
  -- in the answer to a query with one question: with any other system upstreams the handler does
  -- the same.
  pub serve_dns_private :
      (w : World) (sys : Msg → Answered) (fb : Option (Msg → Answered)) (r : Msg) (q : Question)
      (e : Engine)
      → one_question r.question ≡ some q
      → (e.cfg.mode ≡ RouteMode.full) ⊎ (match_name e.matcher q.name ≡ true)
      → serve_dns lib net w r e ≡ serve_dns lib net (with_system w sys fb) r e
  serve_dns_private w sys fb r q e one listed =
      serve_dns-other lib net w w.doh w.arrive sys fb r q e one (λ c out.
        route_query_doh lib net w w.doh w.arrive sys fb q out
          (looked lib net w w.doh w.arrive sys fb e c) (via_doh_listed e q listed))

  -- In split mode, with the fallback to DoH off, no DoH upstream has a part in the answer to a
  -- name that is not listed: with any other DoH upstreams the handler does the same.
  pub serve_dns_no_doh :
      (w : World) (doh : List (Msg → Answered)) (arrive : List Answered → List Answered) (r : Msg)
      (q : Question) (e : Engine)
      → one_question r.question ≡ some q
      → via_doh e q ≡ false
      → e.cfg.fallback_to_doh ≡ false
      → serve_dns lib net w r e ≡ serve_dns lib net (with_doh w doh arrive) r e
  serve_dns_no_doh w doh arrive r q e one unlisted off =
      serve_dns-other lib net w doh arrive w.sys w.fb r q e one (λ c out.
        route_query_system lib net w doh arrive w.sys w.fb q out
          (looked lib net w doh arrive w.sys w.fb e c) unlisted off)

  -- In full mode, and for a name that the matcher finds in the list, with options stripped or a
  -- spoofed subnet, nothing that a client writes into its OPT record but the DNSSEC bit reaches an
  -- upstream: two queries with OPT records that agree on that bit, on the id and on the CD bit are
  -- exchanged alike, whatever the upstreams would answer to each message. A name that goes to the
  -- system upstreams is left out, and so is the fallback to DoH after them, which forwards the
  -- query that was prepared for the system.
  pub route_query_private :
      (w : World) (r s : Msg) (q : Question) (e : Engine) (o p : Opt)
      → (e.cfg.mode ≡ RouteMode.full) ⊎ (match_name e.matcher q.name ≡ true)
      → lib.is_edns0 r ≡ some o
      → lib.is_edns0 s ≡ some p
      → r.id ≡ s.id
      → r.checking_disabled ≡ s.checking_disabled
      → o.do_bit ≡ p.do_bit
      → (e.cfg.ecs_strip ≡ true) ⊎ (is_empty e.cfg.ecs_spoof ≡ false)
      → route_query lib net w q (prepare_outgoing lib net r q e.cfg (via_doh e q)) e
        ≡ route_query lib net w q (prepare_outgoing lib net s q e.cfg (via_doh e q)) e
  route_query_private w r s q e o p listed er es ids cds same guard =
      let plain : plain_query r q ≡ plain_query s q =
        λ i. record (plain_query s q) { id = ids i; checking_disabled = cds i } in
      rw (via_doh_listed e q listed) (
        ap (λ out. route_query lib net w q out e)
          (prepare_outgoing_private lib net r s q e.cfg o p er es plain same guard))
