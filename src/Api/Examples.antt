-- ===== src/Api/Examples.antt =====
-- A small server, and the theorems about it.
use true_dns.Base.{
  ℕ, ◌+◌, ◌-◌, pos, ◌≡◌, ◌↔◌, ◌⊎◌, refl, Bool, true, false, Option, none, some, [], ◌∷◌, ◌++◌,
  arith, length, ◌==◌, ap, if◌then◌else◌,
}
use true_dns.Base.Result.{Result, ok}
use true_dns.Text.{Bytes, codes, bytes_eq, trim_space, trim_left, trim_right}
use true_dns.Net.{Net}
use true_dns.Cache
use true_dns.Override
use true_dns.Matcher.{no_patterns}
use true_dns.Config.Defs.{Config, default}
use true_dns.Core.Build.{Running}
use true_dns.Api.Handlers.{
  Server, Request, State, Reply, handle, status_of, healthz, flush, reload_config, reload_from,
  is_authorized,
}
use true_dns.Api.Guard.{HasToken, handle_guarded}
use true_dns.Api.Ports.{
  Writing, newline_text, Strconv, IsLawful, IsFirst, IsCandidates, candidates, other_ports, start,
  first_bound, port_file_after, start-IsFirst,
}
use true_dns.Api.Clients.{api_base_candidates, first_reachable_api, loopback_base}
use true_dns.Api.Found.{first_reachable_api-start}

abbrev net : Net
net = record {
  parse_ip = λ s. some s;
  ip_string = λ ip. ip;
  split_host_port = λ s. some (codes "127.0.0.1", s);
  join_host_port = λ h p. p;
  is_v4 = λ ip. length ip == 4;
  ip_equal = bytes_eq;
  is_loopback = λ ip. false;
  is_unspecified = λ ip. false;
  to4 = λ ip. ip;
  to16 = λ ip. ip;
  parse_cidr = λ s. none;
}

abbrev no_scheme : Bytes → Option Bytes
no_scheme u = none

abbrev running : Running
running = record {
  cfg = default;
  derived = record { matcher = no_patterns; doh = []; system = []; system_fb = none };
  cache = Cache.new (pos 10) (pos 3_600_000_000_000);
  override_manager = some Override.new;
  probing = false;
}

abbrev loaded : Result Bytes Config
loaded = ok default

abbrev server : Server
server = record {
  token = codes "secret";
  reload_fn = some (reload_from net no_scheme loaded [] Override.new);
  has_shutdown = true;
  has_extra = true;
}

abbrev state : State
state = record { engine = running; stopped = false }

abbrev stranger : Request
stranger = record { header_token = []; query_token = codes "guess" }

abbrev owner : Request
owner = record { header_token = codes "secret"; query_token = [] }

handle_guarded_example :
    ((status_of (handle server flush stranger state).1 ≡ 401)
      ↔ ((¬ HasToken server stranger) × ¬ (flush ≡ healthz)))
    × (HasToken server stranger ⊎ ((handle server flush stranger state).0 ≡ state))
handle_guarded_example = handle_guarded server flush stranger state

stranger_refused : is_authorized server stranger ≡ false
unfolding bytes_eq
stranger_refused = refl

abbrev after_reload : State × Reply
after_reload = handle server reload_config owner state

-- A number is one character above the space.
abbrev conv : Strconv
conv = record {
  itoa = λ n. (n + 33) ∷ [];
  atoi = λ s. elim s [ [] ↦ none | c ∷ t ↦ some (pos (c - 33)) ];
}

conv-IsLawful : IsLawful conv
unfolding trim_space trim_left trim_right
conv-IsLawful = record {
  atoi_itoa = λ n. ap (λ m. some (pos m)) (omega arith);
  trim_itoa = λ n. ground arith;
}

-- only the second fallback port is free
abbrev listen : Bytes → Option ℕ
listen addr = if bytes_eq addr (codes "15378") then some 15378 else none

start-IsFirst_example :
    IsCandidates (codes "5378") (candidates (codes "5378"))
    × IsFirst net conv listen
        (codes "127.0.0.1")
        (candidates (codes "5378"))
        (start net conv listen Writing.written (codes "5378") none).0
    × ((((start net conv listen Writing.written (codes "5378") none).0 ≡ none)
          × ((start net conv listen Writing.written (codes "5378") none).1 ≡ none))
        ⊎ ((n : ℕ) × ((start net conv listen Writing.written (codes "5378") none).0 ≡ some n)
            × (((start net conv listen Writing.written (codes "5378") none).1
                  ≡ some (conv.itoa n ++ newline_text))
                ⊎ (¬ (Writing.written ≡ Writing.written)))))
start-IsFirst_example = start-IsFirst net conv listen Writing.written (codes "5378") none

started :
    start net conv listen Writing.written (codes "5378") none
    ≡ (some 15378, port_file_after conv Writing.written none (some 15378))
unfolding start first_bound candidates other_ports bytes_eq
started = refl

abbrev answers : Bytes → Bool
answers base = true

first_reachable_api-start_example :
    first_reachable_api answers (
      api_base_candidates net conv
        (port_file_after conv Writing.written none (some 15378))
        true
        (codes "5378"))
    ≡ some (loopback_base conv 15378)
first_reachable_api-start_example =
    first_reachable_api-start net conv conv-IsLawful listen (codes "5378") none answers true
      (codes "5378") started (omega arith) refl
