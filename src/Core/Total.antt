-- ===== src/Core/Total.antt =====
-- The handler answers: on a valid cache it reaches no fault and writes a message.
use true_dns.Base.{
  ℕ, ◌≡◌, ◌<◌, ◌^◌, ◌%◌, refl, inl, inr, ◌&&◌, Option, none, some, List, [], ◌∷◌, arith, Bool-cases,
  Option-cases, In, ap, ◌∙◌, sym, subst, ltb_ℤ, ℤ, ◌<ℤ◌, length, ◌==◌,
}
use true_dns.Base.Result.{ok, err, Result-cases}
use true_dns.Dns.{Msg, Question, Rr, rcode_success, rcode_format_error, rcode_server_failure}
use true_dns.Net.{Net}
use true_dns.Cache.{ttl_from_msg}
use true_dns.Cache.Valid.{IsValid}
use true_dns.Cache.Put.{put-spec_put}
use true_dns.Cache.Spec.{get-spec_get}
use true_dns.Matcher.{match_name}
use true_dns.Override.{lookup}
use true_dns.Core.Library.{DnsLib, IsLawful, Strategy}
use true_dns.Core.Outgoing.{prepare_outgoing, finalize_edns, finalize_edns_lem}
use true_dns.Core.Upstreams.{
  Answered, exchange_doh, first_answer, rotated, failover_rotates, uint64_inc,
}
use true_dns.Core.Answer.{override_has_family, synthesize_override, filter_answer_ips}
use true_dns.Core.Reshape.{filter_answer_ips_keeps}
use true_dns.Core.Engine.{
  Engine, World, Outcome, Route, via_doh, key_of, store, deliver, serve_override, ask_doh,
  ask_system, fall_back, route_query, probe_answer, finish, forward, serve_miss, serve_question,
  one_question, serve_dns, stamp, all_present, ask_all,
}

exchange_doh_total :
    (strategy : Strategy) (rot : ℕ) (arrive : List Answered → List Answered) (ups : List Answered)
    → rot < 2 ^ 63
    → (a : Answered) × (n : ℕ) × (exchange_doh strategy rot arrive ups ≡ some (a, n))
unfolding exchange_doh
exchange_doh_total strategy rot arrive [] h = (_, _, refl)
exchange_doh_total Strategy.race rot arrive (u ∷ ups) h = (_, _, refl)
exchange_doh_total Strategy.failover rot arrive (u ∷ ups) h = (
  first_answer none (rotated (rot % length (u ∷ ups)) (u ∷ ups)),
  uint64_inc rot,
  rw (failover_rotates rot (u ∷ ups) h (omega arith), exchange_doh) refl,
)

-- No element is nil.
all_present_total :
    (l : List (Option Rr))
    → ((o : Option Rr) → In o l → (rr : Rr) × (o ≡ some rr))
    → (rrs : List Rr) × (all_present l ≡ some rrs)
all_present_total [] h = ([], refl)
all_present_total (none ∷ l) h = let (rr, e) = h none (inl refl) in absurd (cc)
all_present_total (some rr ∷ l) h =
    let (rrs, e) = all_present_total l (λ o i. h o (inr i)) in (rr ∷ rrs, rw e refl)

module _ (lib : DnsLib) (net : Net) (lawful : IsLawful lib) where
  -- The engine has the cache and the counter of another.
  abbrev IsLike : Engine → Engine → Type 0
  IsLike e f = (f.cache ≡ e.cache) × (f.rot ≡ e.rot)

  ask_doh_total :
      (w : World) (out : Msg) (e : Engine)
      → e.rot < 2 ^ 63
      → (f : Engine) × (a : Answered) × (ask_doh lib net w out e ≡ some (f, a))
        × (f.cache ≡ e.cache)
  unfolding ask_doh
  ask_doh_total w out e h =
      let (a, n, run) = exchange_doh_total e.cfg.strategy e.rot w.arrive (ask_all w.doh out) h in
      (
        record e { doh_queries = uint64_inc e.doh_queries; rot = n },
        a,
        rw (run, ask_doh) refl,
        refl,
      )

  ask_system-IsLike : (w : World) (out : Msg) (e : Engine) → IsLike e (ask_system lib net w out e).0
  unfolding ask_system
  ask_system-IsLike w out e = elim (Result-cases (w.sys out)) [
    | inl (m, f) ↦ rw (f, ask_system) (refl, refl)
    | inr (t, f) ↦ elim (Option-cases w.fb) [
      | inl g ↦ rw (f, ask_system, g) (refl, refl)
      | inr (u, g) ↦ rw (f, ask_system, g) (refl, refl)
    ]
  ]

  -- A step that reaches no fault and leaves the cache alone.
  abbrev Asks : Engine → Option (Engine × Answered × Route) → Type 0
  Asks e o =
      (f : Engine) × (a : Answered) × (route : Route) × (o ≡ some (f, a, route))
      × (f.cache ≡ e.cache)

  fall_back_total :
      (w : World) (out : Msg) (e : Engine) (a : Answered) (route : Route)
      → e.rot < 2 ^ 63
      → Asks e (fall_back lib net w out (e, a, route))
  unfolding fall_back
  fall_back_total w out e (ok resp) route h = (e, ok resp, route, refl, refl)
  fall_back_total w out e (err text) route h = elim (Bool-cases e.cfg.fallback_to_doh) [
    | inr b ↦ (e, err text, route, ground arith, refl)
    | inl b ↦
        let (f, a, run, same) = ask_doh_total w out e h in
        elim (Result-cases a) [
          | inl (m, g) ↦ (f, ok m, Route.doh_fallback, ground arith, same)
          | inr (t, g) ↦ (f, err t, route, ground arith, same)
        ]
  ]

  route_query_total :
      (w : World) (q : Question) (out : Msg) (e : Engine)
      → e.rot < 2 ^ 63
      → Asks e (route_query lib net w q out e)
  unfolding route_query
  route_query_total w q out e h = elim (Bool-cases (via_doh e q)) [
    | inl b ↦
        let (f, a, run, same) = ask_doh_total w out e h in
        (f, a, Route.doh_route, rw (b, route_query, run) refl, same)
    | inr b ↦
        let (g, a, route) = ask_system lib net w out e in
        let (cache, rot) = ask_system-IsLike w out e in
        let small : g.rot < 2 ^ 63 = subst (λ n. n < 2 ^ 63) (sym rot) h in
        let (f, x, y, run, same) = fall_back_total w out g a route small in
        (f, x, y, rw (b, route_query) run, same ∙ cache)
  ]

  probe_answer_total :
      (w : World) (q : Question) (resp : Msg) (e : Engine)
      → (m : Msg) × (probe_answer lib net w q resp e ≡ some m)
  unfolding probe_answer
  probe_answer_total w q resp e =
      let test = e.probing && (match_name e.matcher q.name && (resp.rcode == rcode_success)) in
      elim (Bool-cases test) [
        | inr b ↦ (resp, rw (b, probe_answer) refl)
        | inl b ↦
            let sound = (filter_answer_ips_keeps net w.check e.cfg resp.answer).0 in
            let (rrs, run) =
              all_present_total (filter_answer_ips net w.check e.cfg resp.answer)
                (λ o i. let (rr, f, _) = sound o i in (rr, f)) in
            (record resp { answer = rrs }, rw (b, probe_answer, run) refl)
      ]

  -- What the handler ends with: no fault, a valid cache, and a message with the query's number.
  abbrev pub Answers : Msg → Option Outcome → Type 0
  Answers r o =
      (e : Engine) × (m : Msg) × (route : Route) × (o ≡ some (e, m, route))
      × IsValid e.cache
      × (m.id ≡ r.id)

  store_total :
      (w : World) (q : Question) (resp : Msg) (e : Engine)
      → IsValid e.cache
      → (f : Engine) × (store lib net w q resp e ≡ some f) × IsValid f.cache
  unfolding store
  store_total w q resp e v =
      let ttl = ttl_from_msg (some resp) e.cfg.cache_max_ttl in
      elim (Bool-cases (ltb_ℤ (ℤ.pos 0) ttl)) [
        | inr b ↦ (e, rw (b, store) refl, v)
        | inl b ↦
            let positive : ℤ.pos 0 <ℤ ttl = ground arith in
            let (c, run, held) =
              put-spec_put w.put_clock w.put_time (key_of lib net q) resp ttl e.cache v positive in
            (record e { cache = c }, rw (b, store, run) refl, held.valid)
      ]

  finalize_edns-id : (req resp : Msg) → (finalize_edns lib net req resp).id ≡ resp.id
  finalize_edns-id req resp = ap (λ m. m.id) (finalize_edns_lem lib net lawful req resp).1

  deliver_total :
      (w : World) (r : Msg) (q : Question) (resp : Msg) (route : Route) (e : Engine)
      → IsValid e.cache
      → Answers r (deliver lib net w r q resp route e)
  unfolding deliver
  deliver_total w r q resp route e v =
      let final = finalize_edns lib net r (stamp r q resp) in
      let (f, run, valid) = store_total w q final e v in
      (f, final, route, rw (run, deliver) refl, valid, finalize_edns-id r (stamp r q resp))

  finish_total :
      (w : World) (r : Msg) (q : Question) (e : Engine) (a : Answered) (route : Route)
      → IsValid e.cache
      → Answers r (finish lib net w r q (e, a, route))
  unfolding finish
  finish_total w r q e (err text) route v = (_, _, route, refl, v, lawful.set_rcode_id r _)
  finish_total w r q e (ok resp) route v =
      let (m, run) = probe_answer_total w q resp e in
      let (f, x, y, runs, valid, id) = deliver_total w r q m route e v in
      (f, x, y, rw (run, finish) runs, valid, id)

  forward_total :
      (w : World) (r : Msg) (q : Question) (e : Engine)
      → IsValid e.cache
      → e.rot < 2 ^ 63
      → Answers r (forward lib net w r q e)
  unfolding forward
  forward_total w r q e v h = elim (Bool-cases w.slot_free) [
    | inr b ↦ (
      e,
      lib.set_rcode r rcode_server_failure,
      Route.saturated,
      ground arith,
      v,
      lawful.set_rcode_id r rcode_server_failure,
    )
    | inl b ↦
        let out = prepare_outgoing lib net r q e.cfg (via_doh e q) in
        let (f, a, route, run, same) = route_query_total w q out e h in
        let (g, m, y, runs, valid, id) =
          finish_total w r q f a route (subst IsValid (sym same) v) in
        (g, m, y, ground arith, valid, id)
  ]

  serve_miss_total :
      (w : World) (r : Msg) (q : Question) (e : Engine)
      → IsValid e.cache
      → e.rot < 2 ^ 63
      → Answers r (serve_miss lib net w r q e)
  unfolding serve_miss serve_override
  serve_miss_total w r q e v h = elim (Option-cases e.override_table) [
    | inl f ↦ rw (f, serve_miss) (forward_total w r q e v h)
    | inr (t, f) ↦ elim (Bool-cases (override_has_family net (lookup net t q.name) q.qtype)) [
      | inl b ↦
          rw (f, serve_miss, b)
            (deliver_total w r q
              (synthesize_override net lib r q (lookup net t q.name) e.cfg.override_ttl)
              Route.overridden (record e { override_queries = uint64_inc e.override_queries }) v)
      | inr b ↦ rw (f, serve_miss, b) (forward_total w r q e v h)
    ]
  ]

  serve_question_total :
      (w : World) (r : Msg) (q : Question) (e : Engine)
      → IsValid e.cache
      → e.rot < 2 ^ 63
      → Answers r (serve_question lib net w r q e)
  unfolding serve_question
  serve_question_total w r q e v h =
      let (c, answer, run, held, _) = get-spec_get w.get_time (key_of lib net q) e.cache v in
      elim (Option-cases answer) [
        | inl g ↦
            rw (run, serve_question, g)
              (serve_miss_total w r q (record e { cache = c }) held.valid h)
        | inr (found, g) ↦ (
          record e { cache = c },
          finalize_edns lib net r (stamp r q found),
          Route.hit,
          rw (run, serve_question, g) refl,
          held.valid,
          finalize_edns-id r (stamp r q found),
        )
      ]

  -- On a valid cache, and while the failover counter is below 2 ^ 63, the handler reaches no fault
  -- whatever the upstreams, the clock and the probes do: it writes a message with the number of
  -- the query and leaves the cache valid, if the DNS package does what it documents.
  pub serve_dns-Answers :
      (w : World) (r : Msg) (e : Engine)
      → IsValid e.cache
      → e.rot < 2 ^ 63
      → Answers r (serve_dns lib net w r e)
  unfolding serve_dns
  serve_dns-Answers w r e v h = elim (Option-cases (one_question r.question)) [
    | inl f ↦ (
      record e { queries = uint64_inc e.queries },
      lib.set_rcode r rcode_format_error,
      Route.refused,
      rw (f, serve_dns) refl,
      v,
      lawful.set_rcode_id r rcode_format_error,
    )
    | inr (q, f) ↦
        rw (f, serve_dns)
          (serve_question_total w r q (record e { queries = uint64_inc e.queries }) v h)
  ]
