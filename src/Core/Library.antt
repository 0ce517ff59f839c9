-- ===== src/Core/Library.antt =====
-- What the engine uses of github.com/miekg/dns, as a parameter, with the documented facts that
-- proofs rely on; and the parts of the configuration that the handler reads.
use true_dns.Base.{ℕ, Bool, Option, none, some, List, [], ◌∷◌, ◌≡◌, ℤ}
use true_dns.Text.{Bytes}
use true_dns.Dns.{Msg, Opt, Rr}
use true_dns.Probe.{Mode}

pub record DnsLib : Type 0 where
  -- `Msg.IsEdns0`; `none` stands for nil
  pub is_edns0 : Msg → Option Opt
  -- `Msg.SetEdns0`
  pub set_edns0 : ℕ → Bool → Msg → Msg
  -- the message after its OPT record, to which `IsEdns0` points, is changed to the given one
  pub write_opt : Opt → Msg → Msg
  -- an OPT record as an element of a section
  pub opt_rr : Opt → Rr
  -- `new(dns.Msg).SetReply(r)` and `new(dns.Msg).SetRcode(r, code)`
  pub set_reply : Msg → Msg
  pub set_rcode : Msg → ℕ → Msg
  -- `dns.TypeToString` and `dns.ClassToString`
  pub type_to_string : ℕ → Bytes
  pub class_to_string : ℕ → Bytes

abbrev pub fresh_opt : ℕ → Bool → Opt
fresh_opt size d = record { udp_size = size; do_bit = d; options = [] }

abbrev pub with_extra : List Rr → Msg → Msg
with_extra extra m = record m { extra = extra }

pub record IsLawful (lib : DnsLib) : Type 0 where
  pub edns0_none : (m : Msg) → m.extra ≡ [] → lib.is_edns0 m ≡ none
  pub edns0_opt_rr : (m : Msg) (o : Opt) → m.extra ≡ lib.opt_rr o ∷ [] → lib.is_edns0 m ≡ some o
  pub edns0_set :
      (size : ℕ) (d : Bool) (m : Msg)
      → lib.is_edns0 m ≡ none
      → lib.is_edns0 (lib.set_edns0 size d m) ≡ some (fresh_opt size d)
  pub edns0_write :
      (o p : Opt) (m : Msg) → lib.is_edns0 m ≡ some p → lib.is_edns0 (lib.write_opt o m) ≡ some o
  -- `SetEdns0` appends to the additional section and changes nothing else.
  pub set_edns0_extra :
      (size : ℕ) (d : Bool) (m : Msg)
      → lib.set_edns0 size d m ≡ with_extra (lib.set_edns0 size d m).extra m
  pub set_rcode_id : (r : Msg) (code : ℕ) → (lib.set_rcode r code).id ≡ r.id
  pub set_rcode_rcode : (r : Msg) (code : ℕ) → (lib.set_rcode r code).rcode ≡ code

pub data Strategy : Type 0 where
  race failover : Strategy

pub data RouteMode : Type 0 where
  split full : RouteMode

pub record Config : Type 0 where
  pub mode : RouteMode
  pub strategy : Strategy
  pub fallback_to_doh : Bool
  pub ecs_strip : Bool
  pub ecs_spoof : Bytes
  pub override_ttl : ℤ
  pub cache_max_ttl : ℤ
  pub probe_mode : Mode
  pub probe_max_ips : ℤ
