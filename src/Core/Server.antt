-- ===== src/Core/Server.antt =====
-- `NormalizeAddr` of internal/core/server.go, the form of a listen address.
use true_dns.Base.{
  ◌≡◌, refl, inl, inr, ◌||◌, Option, none, some, [], ◌∷◌, if◌then◌else◌, Bool-cases, Option-cases,
}
use true_dns.Base.Result.{Result, ok, err}
use true_dns.Text.{Bytes, trim_space, is_empty, has_prefix, contains_byte, trim_brackets}
use true_dns.Net.{Net, port_53}
use true_dns.Resolver.Address.{with_port, add_port, append_port}

pub data ListenError : Type 0 where
  empty_listen : ListenError
  invalid_listen : Bytes → ListenError

abbrev pub value_of : {E A : Type 0} → Result E A → Option A
value_of (ok a) = some a
value_of (err e) = none

module _ (net : Net) where
  -- the branches for an address without a port
  unfoldable pub listen_port : Bytes → Result ListenError Bytes
  listen_port a =
      if has_prefix a (b'[' ∷ []) || contains_byte a b':'
      then elim (net.parse_ip (trim_brackets a)) [
        | some ip ↦ ok (net.join_host_port (net.ip_string ip) port_53)
        | none ↦ err (invalid_listen a)
      ]
      else elim (net.parse_ip a) [
        | some ip ↦ ok (net.join_host_port a port_53)
        | none ↦ err (invalid_listen a)
      ]

  -- `NormalizeAddr`
  unfoldable pub normalize_addr : Bytes → Result ListenError Bytes
  unfolding listen_port
  normalize_addr raw =
      let a = trim_space raw in
      if is_empty a
      then err empty_listen
      else elim (net.split_host_port a) [ some hp ↦ ok a | none ↦ listen_port a ]

  listen_port-append_port : (a : Bytes) → value_of (listen_port a) ≡ value_of (append_port net a)
  unfolding listen_port append_port
  listen_port-append_port a = elim (Bool-cases (has_prefix a (b'[' ∷ []) || contains_byte a b':')) [
    | inl b ↦ elim (Option-cases (net.parse_ip (trim_brackets a))) [
      | inl e ↦ rw (b, e) refl
      | inr (ip, e) ↦ rw (b, e) refl
    ]
    | inr b ↦ elim (Option-cases (net.parse_ip a)) [
      | inl e ↦ rw (b, e) refl
      | inr (ip, e) ↦ rw (b, e) refl
    ]
  ]

  -- A listen address and an upstream's address are brought into the same form: `NormalizeAddr`
  -- and `WithPort` accept the same texts, with the same results.
  normalize_addr-with_port :
      (raw : Bytes) → value_of (normalize_addr raw) ≡ value_of (with_port net raw)
  unfolding normalize_addr with_port add_port
  normalize_addr-with_port raw = elim (Bool-cases (is_empty (trim_space raw))) [
    | inl b ↦ rw (b, normalize_addr, with_port) refl
    | inr b ↦ elim (Option-cases (net.split_host_port (trim_space raw))) [
      | inl e ↦
          rw (b, normalize_addr, with_port, e, add_port) (listen_port-append_port (trim_space raw))
      | inr (hp, e) ↦ rw (b, normalize_addr, with_port, e, add_port) refl
    ]
  ]
