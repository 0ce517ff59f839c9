-- ===== src/Core/Engine.antt =====
-- `ServeDNS`: the state of the engine, what the outside does during a request, and the handler.
use true_dns.Base.{
  ℕ, Bool, true, false, ◌&&◌, ◌||◌, Option, none, some, List, [], ◌∷◌, if◌then◌else◌, ℤ, ltb_ℤ,
  ◌==◌,
}
use true_dns.Base.Result.{ok, err}
use true_dns.Text.{Bytes}
use true_dns.Dns.{Msg, Question, Ip, Rr, rcode_success, rcode_format_error, rcode_server_failure}
use true_dns.Net.{Net}
use true_dns.Cache.{Cache, cache_key, ttl_from_msg}
use true_dns.Cache
use true_dns.Matcher.{Matcher, match_name}
use true_dns.Override.{Table, lookup}
use true_dns.Probe.{ProbeResult}
use true_dns.Core.Library.{DnsLib, Config, RouteMode}
use true_dns.Core.Outgoing.{prepare_outgoing, finalize_edns}
use true_dns.Core.Upstreams.{Answered, exchange_doh, uint64_inc}
use true_dns.Core.Answer.{override_has_family, synthesize_override, filter_answer_ips}

pub record Engine : Type 0 where
  pub cfg : Config
  pub matcher : Matcher
  pub cache : Cache
  -- `overrideM`; none when it is nil, after `Shutdown`
  pub override_table : Option Table
  -- whether `prober` is not nil
  pub probing : Bool
  pub rot : ℕ
  pub queries : ℕ
  pub doh_queries : ℕ
  pub sys_queries : ℕ
  pub fb_queries : ℕ
  pub override_queries : ℕ
  pub failures : ℕ
  pub last_failure : Option (Bytes × ℤ)

-- What the outside does during one request: the clock, whether the semaphore has room, what each
-- upstream answers to a query, the order in which DoH answers arrive, and what a probe finds.
pub record World : Type 0 where
  pub get_time : ℤ
  pub put_clock : ℕ → ℤ
  pub put_time : ℤ
  pub fail_time : ℤ
  pub slot_free : Bool
  pub doh : List (Msg → Answered)
  pub arrive : List Answered → List Answered
  pub sys : Msg → Answered
  -- `systemFB`; none when it is nil
  pub fb : Option (Msg → Answered)
  pub check : Ip → ProbeResult

pub data Route : Type 0 where
  refused hit overridden saturated doh_route system system_fallback doh_fallback : Route

-- what the handler leaves: the engine, the message written, and the route
abbrev pub Outcome : Type 0
Outcome = Engine × Msg × Route

abbrev pub all_present : List (Option Rr) → Option (List Rr)
all_present [] = some []
all_present (none ∷ rrs) = none
all_present (some rr ∷ rrs) = elim (all_present rrs) [ none ↦ none | some l ↦ some (rr ∷ l) ]

abbrev pub ask_all : List (Msg → Answered) → Msg → List Answered
ask_all [] out = []
ask_all (u ∷ ups) out = u out ∷ ask_all ups out

abbrev pub stamp : Msg → Question → Msg → Msg
stamp r q resp = record resp { id = r.id; question = q ∷ [] }

-- `cfg.Mode == config.ModeFull`
abbrev pub is_full : RouteMode → Bool
is_full RouteMode.full = true
is_full RouteMode.split = false

-- `viaDoH`
abbrev pub via_doh : Engine → Question → Bool
via_doh e q = is_full e.cfg.mode || match_name e.matcher q.name

-- `e.failures.Add` and `e.lastFailure.Store`
abbrev pub record_failure : World → Bytes → Engine → Engine
record_failure w text e = record e {
  failures = uint64_inc e.failures;
  last_failure = some (text, w.fail_time);
}

-- the question of a query that has one, `len(r.Question) == 1`
abbrev pub one_question : List Question → Option Question
one_question [] = none
one_question (q ∷ []) = some q
one_question (q ∷ p ∷ qs) = none

module _ (lib : DnsLib) (net : Net) where
  abbrev pub key_of : Question → Bytes
  key_of q = cache_key lib.type_to_string lib.class_to_string q

  -- the `TTLFromMsg` and `Put` before a response is written
  unfoldable pub store : World → Question → Msg → Engine → Option Engine
  store w q resp e =
      let ttl = ttl_from_msg (some resp) e.cfg.cache_max_ttl in
      if ltb_ℤ (ℤ.pos 0) ttl
      then elim (Cache.put w.put_clock w.put_time (key_of q) (some resp) ttl e.cache) [
        | none ↦ none
        | some c ↦ some (record e { cache = c })
      ]
      else some e

  -- the end that answers from upstream and from the override table share
  unfoldable pub deliver : World → Msg → Question → Msg → Route → Engine → Option Outcome
  unfolding store
  deliver w r q resp route e =
      let final = finalize_edns lib net r (stamp r q resp) in
      elim (store w q final e) [ none ↦ none | some f ↦ some (f, final, route) ]

  unfoldable pub serve_override : World → Msg → Question → List Ip → Engine → Option Outcome
  unfolding deliver
  serve_override w r q ips e =
      deliver w r q (synthesize_override net lib r q ips e.cfg.override_ttl) Route.overridden
        (record e { override_queries = uint64_inc e.override_queries })

  -- a call of `exchangeDoH`, with the count before it
  unfoldable pub ask_doh : World → Msg → Engine → Option (Engine × Answered)
  ask_doh w out e = elim (exchange_doh e.cfg.strategy e.rot w.arrive (ask_all w.doh out)) [
    | none ↦ none
    | some (answered, rot) ↦
        some (record e { doh_queries = uint64_inc e.doh_queries; rot = rot }, answered)
  ]

  -- the system upstream, and the fallback chain if that fails
  unfoldable pub ask_system : World → Msg → Engine → Engine × Answered × Route
  ask_system w out e =
      let asked = record e { sys_queries = uint64_inc e.sys_queries } in
      elim (w.sys out) [
        | ok resp ↦ (asked, ok resp, Route.system)
        | err text ↦ elim w.fb [
          | none ↦ (asked, err text, Route.system)
          | some fb ↦
              (record asked { fb_queries = uint64_inc e.fb_queries }, fb out, Route.system_fallback)
        ]
      ]

  -- the last fallback, to DoH
  unfoldable pub fall_back :
      World → Msg → Engine × Answered × Route → Option (Engine × Answered × Route)
  unfolding ask_doh
  fall_back w out (e, ok resp, route) = some (e, ok resp, route)
  fall_back w out (e, err text, route) =
      if e.cfg.fallback_to_doh
      then elim (ask_doh w out e) [
        | none ↦ none
        | some (f, ok resp) ↦ some (f, ok resp, Route.doh_fallback)
        | some (f, err failed) ↦ some (f, err failed, route)
      ]
      else some (e, err text, route)

  unfoldable pub route_query : World → Question → Msg → Engine → Option (Engine × Answered × Route)
  unfolding fall_back ask_system
  route_query w q out e =
      if via_doh e q
      then elim (ask_doh w out e) [
        | none ↦ none
        | some (f, answered) ↦ some (f, answered, Route.doh_route)
      ]
      else fall_back w out (ask_system w out e)

  -- the probing of an answer to a listed name; the records that it leaves, if none is nil
  unfoldable pub probe_answer : World → Question → Msg → Engine → Option Msg
  probe_answer w q resp e =
      if e.probing && (match_name e.matcher q.name && (resp.rcode == rcode_success))
      then elim (all_present (filter_answer_ips net w.check e.cfg resp.answer)) [
        | none ↦ none
        | some answer ↦ some (record resp { answer = answer })
      ]
      else some resp

  unfoldable pub finish : World → Msg → Question → Engine × Answered × Route → Option Outcome
  unfolding probe_answer deliver
  finish w r q (e, err text, route) =
      some (record_failure w text e, lib.set_rcode r rcode_server_failure, route)
  finish w r q (e, ok resp, route) = elim (probe_answer w q resp e) [
    | none ↦ none
    | some probed ↦ deliver w r q probed route e
  ]

  unfoldable pub forward : World → Msg → Question → Engine → Option Outcome
  unfolding route_query finish
  forward w r q e =
      if w.slot_free
      then elim (route_query w q (prepare_outgoing lib net r q e.cfg (via_doh e q)) e) [
        | none ↦ none
        | some asked ↦ finish w r q asked
      ]
      else some (e, lib.set_rcode r rcode_server_failure, Route.saturated)

  unfoldable pub serve_miss : World → Msg → Question → Engine → Option Outcome
  unfolding serve_override forward
  serve_miss w r q e = elim e.override_table [
    | none ↦ forward w r q e
    | some t ↦
        if override_has_family net (lookup net t q.name) q.qtype
        then serve_override w r q (lookup net t q.name) e
        else forward w r q e
  ]

  unfoldable pub serve_question : World → Msg → Question → Engine → Option Outcome
  unfolding serve_miss
  serve_question w r q e = elim (Cache.get w.get_time (key_of q) e.cache) [
    | none ↦ none
    | some (c, some found) ↦
        some (record e { cache = c }, finalize_edns lib net r (stamp r q found), Route.hit)
    | some (c, none) ↦ serve_miss w r q (record e { cache = c })
  ]

  -- `ServeDNS`; `none` stands for a fault
  unfoldable pub serve_dns : World → Msg → Engine → Option Outcome
  unfolding serve_question
  serve_dns w r e0 =
      let e = record e0 { queries = uint64_inc e0.queries } in
      elim (one_question r.question) [
        | none ↦ some (e, lib.set_rcode r rcode_format_error, Route.refused)
        | some q ↦ serve_question w r q e
      ]
