-- ===== src/Core/Examples.antt =====
-- Runs of the engine, and its theorems at concrete inputs.
use true_dns.Base.{
  ◌⊎◌, inl, ◌≡◌, refl, true, false, Option, none, some, List, [], ◌∷◌, arith, ap, ℤ, pos,
  if◌then◌else◌, length, ◌%◌, ◌==◌,
}
use true_dns.Base.Result.{ok, err}
use true_dns.Text.{Bytes, codes, bytes_eq, trim_suffix, to_lower, trim_space, index_byte}
use true_dns.Dns.{Msg, Question, Opt, EdnsOption, Rr, RrData, Ip}
use true_dns.Net.{Net}
use true_dns.Cache.{ttl_from_msg}
use true_dns.Cache.Valid.{IsValid, new-IsValid}
use true_dns.Cache.Serve.{left}
use true_dns.Cache
use true_dns.Matcher.{no_patterns, match_name, match_clean, member, match_parents}
use true_dns.Probe.{Mode}
use true_dns.Override.{Fetched, responded, do_failed, get_key, latest}
use true_dns.Core.Refresh.{
  Manager, Event, fetch_one, cancel, end_fetch, see_cancel, finished, new_manager, react, react_all,
  readings, react_all-latest,
}
use true_dns.Core.Shutdown.{drain, shutdown_ends}
use true_dns.Core.Library.{DnsLib, IsLawful, Config, Strategy, RouteMode, with_extra}
use true_dns.Core.Outgoing.{prepare_outgoing, prepare_outgoing_opt, IsPolicy}
use true_dns.Core.Upstreams.{Answered, failover, rotated, first_answer, failover_rotates}
use true_dns.Core.Answer.{synthesize_override, override_has_family, is_empty}
use true_dns.Core.Synthesis.{Gives, synthesize_override_answers}
use true_dns.Config.Defs.{default}
use true_dns.Core.Build.{Running}
use true_dns.Core.Engine.{Engine, World, Outcome, Route, serve_dns, via_doh, deliver, route_query}
use true_dns.Core.Total.{Answers, serve_dns-Answers}
use true_dns.Core.Routing.{
  with_system, with_doh, serve_dns_private, serve_dns_no_doh, route_query_private,
}

-- an OPT record stands first, if there is one
abbrev first_opt : List Rr → Option Opt
first_opt [] = none
first_opt (rr ∷ rrs) = elim rr.rdata [ RrData.opt o ↦ some o | _ ↦ none ]

abbrev opt_rr : Opt → Rr
opt_rr o = record { rr_name = codes "."; rrtype = 41; class = 4096; ttl = 0; rdata = RrData.opt o }

abbrev lib : DnsLib
lib = record {
  is_edns0 = λ m. first_opt m.extra;
  set_edns0 = λ size d m.
      with_extra (opt_rr (record { udp_size = size; do_bit = d; options = [] }) ∷ m.extra) m;
  write_opt = λ o m. with_extra (opt_rr o ∷ []) m;
  opt_rr = opt_rr;
  set_reply = λ r. record r { response = true; answer = []; ns = []; extra = [] };
  set_rcode = λ r code. record r { response = true; rcode = code };
  type_to_string = λ t. codes "T";
  class_to_string = λ c. codes "IN";
}

lib-IsLawful : IsLawful lib
lib-IsLawful = record {
  edns0_none = λ m e. ap first_opt e;
  edns0_opt_rr = λ m o e. ap first_opt e;
  edns0_set = λ size d m e. refl;
  edns0_write = λ o p m e. refl;
  set_edns0_extra = λ size d m. refl;
  set_rcode_id = λ r code. refl;
  set_rcode_rcode = λ r code. refl;
}

abbrev net : Net
net = record {
  parse_ip = λ s. some s;
  ip_string = λ ip. ip;
  split_host_port = λ s. none;
  join_host_port = λ h p. h;
  is_v4 = λ ip. length ip == 4;
  ip_equal = bytes_eq;
  is_loopback = λ ip. false;
  is_unspecified = λ ip. false;
  to4 = λ ip. ip;
  to16 = λ ip. ip;
  parse_cidr = λ s. none;
}

abbrev cfg : Config
cfg = record {
  mode = RouteMode.full;
  strategy = Strategy.failover;
  fallback_to_doh = false;
  ecs_strip = true;
  ecs_spoof = [];
  override_ttl = pos 60_000_000_000;
  cache_max_ttl = pos 3_600_000_000_000;
  probe_mode = Mode.prefer;
  probe_max_ips = pos 4;
}

abbrev q : Question
q = record { name = codes "a.b."; qtype = 1; qclass = 1 }

abbrev home_opt : Opt
home_opt = record {
  udp_size = 1232;
  do_bit = true;
  options = EdnsOption.subnet 1 24 0 (1 ∷ 2 ∷ 3 ∷ 0 ∷ []) ∷ [];
}

abbrev office_opt : Opt
office_opt = record { udp_size = 512; do_bit = true; options = [] }

abbrev query : Opt → Msg
query o = record {
  id = 7;
  rcode = 0;
  response = false;
  truncated = false;
  recursion_desired = true;
  recursion_available = false;
  checking_disabled = false;
  question = q ∷ [];
  answer = [];
  ns = [];
  extra = opt_rr o ∷ [];
}

abbrev reply : Msg
reply = record (query home_opt) { response = true; extra = [] }

prepare_outgoing_opt_example :
    ((lib.is_edns0 (query home_opt) ≡ none)
      × (lib.is_edns0 (prepare_outgoing lib net (query home_opt) q cfg true) ≡ none))
    ⊎ ((opt : Opt) × (lib.is_edns0 (query home_opt) ≡ some opt)
        × (((true ≡ false)
              × (lib.is_edns0 (prepare_outgoing lib net (query home_opt) q cfg true) ≡ some opt))
            ⊎ ((os : List EdnsOption) × (true ≡ true)
                × IsPolicy lib net cfg opt os
                × (lib.is_edns0 (prepare_outgoing lib net (query home_opt) q cfg true)
                    ≡ some (record { udp_size = 4096; do_bit = opt.do_bit; options = os })))))
prepare_outgoing_opt_example = prepare_outgoing_opt lib net lib-IsLawful (query home_opt) q cfg true

abbrev three : List Answered
three = err (codes "x") ∷ ok reply ∷ err (codes "y") ∷ []

failover_rotates_example :
    failover 5 three ≡ some (first_answer none (rotated (5 % length three) three))
failover_rotates_example = failover_rotates 5 three (omega arith) (omega arith)

failover_run : first_answer none (rotated (5 % length three) three) ≡ ok reply
unfolding first_answer
failover_run = refl

abbrev addresses : List Ip
addresses = (10 ∷ 0 ∷ 0 ∷ 1 ∷ []) ∷ []

synthesize_override_answers_example :
    Gives net q cfg.override_ttl addresses
      (synthesize_override net lib (query home_opt) q addresses cfg.override_ttl).answer
    × (is_empty (synthesize_override net lib (query home_opt) q addresses cfg.override_ttl).answer
        ≡ (if override_has_family net addresses q.qtype then false else true))
synthesize_override_answers_example =
    synthesize_override_answers net lib (query home_opt) q addresses cfg.override_ttl refl

abbrev engine : Config → Engine
engine c = record {
  cfg = c;
  matcher = no_patterns;
  cache = Cache.new (pos 10) (pos 3_600_000_000_000);
  override_table = none;
  probing = false;
  rot = 0;
  queries = 0;
  doh_queries = 0;
  sys_queries = 0;
  fb_queries = 0;
  override_queries = 0;
  failures = 0;
  last_failure = none;
}

abbrev world : World
world = record {
  get_time = pos 0;
  put_clock = λ n. pos 0;
  put_time = pos 0;
  fail_time = pos 0;
  slot_free = true;
  doh = (λ m. ok reply) ∷ [];
  arrive = λ l. l;
  sys = λ m. ok reply;
  fb = none;
  check = λ ip. record { reachable = true; latency = 0 };
}

serve_dns_private_example :
    serve_dns lib net world (query home_opt) (engine cfg)
    ≡ serve_dns lib net
        (with_system world (λ m. err (codes "spoofed")) none)
        (query home_opt)
        (engine cfg)
serve_dns_private_example =
    serve_dns_private lib net world (λ m. err (codes "spoofed")) none (query home_opt) q
      (engine cfg) refl (inl refl)

abbrev split_cfg : Config
split_cfg = record cfg { mode = RouteMode.split }

unlisted : via_doh (engine split_cfg) q ≡ false
unfolding match_name match_clean trim_suffix to_lower trim_space member match_parents index_byte
unlisted = refl

route_query_private_example :
    route_query lib net world q
      (prepare_outgoing lib net (query home_opt) q cfg (via_doh (engine cfg) q))
      (engine cfg)
    ≡ route_query lib net world q
        (prepare_outgoing lib net (query office_opt) q cfg (via_doh (engine cfg) q))
        (engine cfg)
route_query_private_example =
    route_query_private lib net world (query home_opt) (query office_opt) q (engine cfg) home_opt
      office_opt (inl refl) refl refl refl refl refl (inl refl)

serve_dns_no_doh_example :
    serve_dns lib net world (query home_opt) (engine split_cfg)
    ≡ serve_dns lib net (with_doh world [] (λ l. l)) (query home_opt) (engine split_cfg)
serve_dns_no_doh_example =
    serve_dns_no_doh lib net world [] (λ l. l) (query home_opt) q (engine split_cfg) refl unlisted
      refl

abbrev no_scheme : Bytes → Option Bytes
no_scheme u = none

abbrev running : Running
running = record {
  cfg = default;
  derived = record { matcher = no_patterns; doh = []; system = []; system_fb = none };
  cache = Cache.new (pos 10) (pos 3_600_000_000_000);
  override_manager = none;
  probing = false;
}

engine-IsValid : IsValid (engine cfg).cache
engine-IsValid = new-IsValid (pos 10) (pos 3_600_000_000_000) (omega arith)

serve_dns-Answers_example :
    Answers lib net lib-IsLawful
      (query home_opt)
      (serve_dns lib net world (query home_opt) (engine cfg))
serve_dns-Answers_example =
    serve_dns-Answers lib net lib-IsLawful world (query home_opt) (engine cfg) engine-IsValid
      (omega arith)

-- A response with a record that lives for 300 seconds is asked for a minute later.
abbrev living : Msg
living = record reply {
  answer =
      record {
        rr_name = codes "a.b.";
        rrtype = 1;
        class = 1;
        ttl = 300;
        rdata = RrData.a (1 ∷ 2 ∷ 3 ∷ 4 ∷ []);
      }
      ∷ [];
}

abbrev outcome : Option Outcome → Outcome
outcome none = (engine cfg, reply, Route.refused)
outcome (some o) = o

abbrev delivered : Outcome
delivered = outcome (deliver lib net world (query home_opt) q living Route.doh_route (engine cfg))

abbrev minute_later : World
minute_later = record world { get_time = pos 60_000_000_000 }

abbrev delivered_left : ℤ
delivered_left =
    left (engine cfg).cache world.put_time (ttl_from_msg (some delivered.1) cfg.cache_max_ttl)
      minute_later.get_time

-- A round of two fetches, of which the second fails, cancelled after the first.
abbrev fetches : List (Bytes × Fetched)
fetches =
    (codes "u", responded 200 (codes "200") (codes "1.2.3.4 a.b" ∷ []) true [])
    ∷ (codes "v", do_failed (codes "x"))
    ∷ []

abbrev manager : Manager
manager = new_manager net (pos 0) [] fetches

abbrev events : List Event
events = fetch_one (pos 1) ∷ cancel ∷ fetch_one (pos 2) ∷ end_fetch ∷ see_cancel ∷ []

react_all-latest_example :
    get_key (codes "u") (react_all net (pos 60) events manager).table.sources
    ≡ latest net
        (codes "u")
        (readings net (pos 60) events manager)
        (get_key (codes "u") manager.table.sources)
react_all-latest_example = react_all-latest net (pos 60) (codes "u") events manager

shutdown_ends_example :
    (react_all net
      (pos 60)
      (drain net
        (pos 60)
        (pos 1)
        (react_all net (pos 60) events (react net (pos 60) cancel manager)).phase)
      (react_all net (pos 60) events (react net (pos 60) cancel manager))).phase
    ≡ finished
shutdown_ends_example = shutdown_ends net (pos 60) (pos 1) events manager
