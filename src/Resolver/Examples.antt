-- ===== src/Resolver/Examples.antt =====
-- Runs of the upstream clients, and their theorems at concrete inputs.
use true_dns.Base.{
  ◌≡◌, ◌↔◌, ◌⊎◌, refl, true, false, Option, none, some, [], ◌∷◌, arith, inl, inr, In, ◌==◌,
  if◌then◌else◌, subst, ◌++◌,
}
use true_dns.Base.Result.{ok, err}
use mathlib.Core.List.{Permᴰ}
use true_dns.Text.{
  Bytes, codes, trim_space, to_lower, bytes_eq, bytes_eq_iff, has_prefix, contains_byte,
}
use true_dns.Dns.{Msg, Ip}
use true_dns.Net.{Net, IsLawful}
use true_dns.Resolver.Address.{with_port, append_port}
use true_dns.Resolver.Validate.{
  mismatched, Answers, validate_against, check_questions, validate_against_iff,
}
use true_dns.Resolver.Doh.{DohError, response, Wire, send, exchange, exchange-Answers, http_status}
use true_dns.Resolver.Plain
use true_dns.Resolver.Plain.{Server, exchange_addr, arrivals_of, exchange_answered, PlainError}

abbrev ask : Msg
ask = record {
  id = 7;
  rcode = 0;
  response = false;
  truncated = false;
  recursion_desired = true;
  recursion_available = false;
  checking_disabled = false;
  question = record { name = codes "a.b."; qtype = 1; qclass = 1 } ∷ [];
  answer = [];
  ns = [];
  extra = [];
}

abbrev reply : Msg
reply = record ask {
  response = true;
  question = record { name = codes "A.b."; qtype = 1; qclass = 1 } ∷ [];
}

validate_against_iff_example : (validate_against ask (some reply) ≡ none) ↔ Answers ask reply
validate_against_iff_example = validate_against_iff ask reply

reply-Answers : Answers ask reply
unfolding validate_against check_questions bytes_eq to_lower
reply-Answers = validate_against_iff_example.0 refl

spoofed : validate_against ask (some (record reply { id = 8 })) ≡ some mismatched
unfolding validate_against
spoofed = refl

-- a codec that knows one message
abbrev pack : Msg → Option Bytes
pack m = some (codes "q")

abbrev unpack : Bytes → Option Msg
unpack b = some reply

abbrev wire : Wire
wire = record {
  post_outcome = response 405 (some (codes "no"));
  get_outcome = response 200 (some (codes "r"));
  expired = false;
}

exchange_run : exchange pack unpack wire ask ≡ ok reply
unfolding exchange send validate_against check_questions bytes_eq to_lower
exchange_run = refl

post_refused : send pack unpack wire.post_outcome ≡ err (http_status 405)
unfolding send
post_refused = refl

exchange-Answers_example :
    Answers ask reply
    × ((send pack unpack wire.post_outcome ≡ ok reply)
        ⊎ (((e : DohError) × (send pack unpack wire.post_outcome ≡ err e))
            × (wire.expired ≡ false)
            × (send pack unpack wire.get_outcome ≡ ok reply)))
exchange-Answers_example = exchange-Answers pack unpack wire ask exchange_run

abbrev dead : Server
dead = record { addr = codes "192.0.2.1:53"; udp = none; tcp = none }

abbrev alive : Server
alive = record {
  addr = codes "192.0.2.2:53";
  udp = some (record reply { truncated = true });
  tcp = some reply;
}

alive-ok : exchange_addr alive ≡ ok reply
unfolding exchange_addr
alive-ok = refl

exchange_answered_example :
    (t : Server) × (r : Msg) × In t (dead ∷ alive ∷ [])
    × (exchange_addr t ≡ ok r)
    × (Plain.exchange (dead ∷ alive ∷ []) (arrivals_of (alive ∷ dead ∷ [])) ≡ some (ok r))
exchange_answered_example =
    exchange_answered (dead ∷ alive ∷ []) (alive ∷ dead ∷ []) alive reply (Permᴰ.swap refl refl)
      (inr (inl refl)) alive-ok

abbrev only_dead : (s : Server) → In s (dead ∷ []) → (e : PlainError) × (exchange_addr s ≡ err e)
unfolding exchange_addr
only_dead s (inl e) = subst (λ t. (x : PlainError) × (exchange_addr t ≡ err x)) e (_, refl)
only_dead s (inr i) = absurd i

abbrev literal : Bytes
literal = codes "192.0.2.1"

abbrev cut_colon : Bytes → Option (Bytes × Bytes)
cut_colon [] = none
cut_colon (c ∷ s) =
    if c == b':'
    then some ([], s)
    else elim (cut_colon s) [ none ↦ none | some (h, p) ↦ some (c ∷ h, p) ]

-- an address package that knows one address
abbrev net : Net
net = record {
  parse_ip = λ s. if bytes_eq s literal then some (192 ∷ 0 ∷ 2 ∷ 1 ∷ []) else none;
  ip_string = λ ip. literal;
  split_host_port = cut_colon;
  join_host_port = λ h p. h ++ (b':' ∷ p);
  is_v4 = λ ip. true;
  ip_equal = bytes_eq;
  is_loopback = λ ip. false;
  is_unspecified = λ ip. false;
  to4 = λ ip. ip;
  to16 = λ ip. ip;
  parse_cidr = λ s. none;
}

parsed : (host : Bytes) (ip : Ip) → net.parse_ip host ≡ some ip → host ≡ literal
parsed host ip h = ground (arith, bytes_eq_iff host literal)

net-IsLawful : IsLawful net
unfolding trim_space
net-IsLawful = record {
  split_empty = refl;
  split_join_parsed = λ host ip h t. rw (parsed host ip h);
  split_join_string = λ ip. refl;
  trim_join_parsed = λ host ip h t. rw (parsed host ip h);
  trim_join_string = λ ip. refl;
}

with_port_run : with_port net (codes " 192.0.2.1 ") ≡ ok (codes "192.0.2.1:53")
unfolding with_port append_port trim_space has_prefix contains_byte bytes_eq
with_port_run = refl
