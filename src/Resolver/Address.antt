-- ===== src/Resolver/Address.antt =====
-- internal/resolver/plain.go: `WithPort` and the addresses of `NewPlain`. `NormalizeAddr` of
-- internal/core/server.go and `addPort` of internal/platform/platform.go are the same
-- normalisation with other messages and, for `addPort`, without the first two steps.
use true_dns.Base.{
  ◌≡◌, refl, ◌||◌, none, some, List, [], ◌∷◌, arith, if◌then◌else◌, Bool-cases, Option-cases, inl,
  inr, All, subst,
}
use true_dns.Base.Result.{Result, ok, err, Result-cases}
use true_dns.Text.{
  Bytes, is_empty, trim_space, trim_space_idem, has_prefix, contains_byte, trim_brackets,
}
use true_dns.Net.{Net, IsLawful, port_53}

pub data AddressError : Type 0 where
  empty_address : AddressError
  invalid_address : Bytes → AddressError

module _ (net : Net) where
  -- what follows when the address has no port
  unfoldable pub append_port : Bytes → Result AddressError Bytes
  append_port addr =
      if has_prefix addr (b'[' ∷ []) || contains_byte addr b':'
      then elim (net.parse_ip (trim_brackets addr)) [
        | some ip ↦ ok (net.join_host_port (net.ip_string ip) port_53)
        | none ↦ err (invalid_address addr)
      ]
      else elim (net.parse_ip addr) [
        | some ip ↦ ok (net.join_host_port addr port_53)
        | none ↦ err (invalid_address addr)
      ]

  -- `addPort` of the platform
  unfoldable pub add_port : Bytes → Result AddressError Bytes
  add_port addr = elim (net.split_host_port addr) [ some _ ↦ ok addr | none ↦ append_port addr ]

  -- `WithPort`
  unfoldable pub with_port : Bytes → Result AddressError Bytes
  unfolding add_port
  with_port raw =
      let addr = trim_space raw in if is_empty addr then err empty_address else add_port addr

  abbrev pub keep_ok : Result AddressError Bytes → List Bytes → List Bytes
  keep_ok (ok a) rest = a ∷ rest
  keep_ok (err e) rest = rest

  -- the addresses of `NewPlain`
  unfoldable pub plain_addrs : List Bytes → List Bytes
  plain_addrs [] = []
  plain_addrs (a ∷ rest) = keep_ok (with_port a) (plain_addrs rest)

  -- An address with a port, and with no space around it.
  abbrev pub IsNormal : Bytes → Type 0
  IsNormal b = (trim_space b ≡ b) × ((hp : Bytes × Bytes) × (net.split_host_port b ≡ some hp))

  module _ (lawful : IsLawful net) where
    with_port_normal : (b : Bytes) → IsNormal b → with_port b ≡ ok b
    unfolding with_port
    with_port_normal [] (t, (hp, s)) = cc (lawful.split_empty)
    with_port_normal (c ∷ b) (t, (hp, s)) = ground arith

    append_port-IsNormal : (a b : Bytes) → trim_space a ≡ a → append_port a ≡ ok b → IsNormal b
    unfolding append_port
    append_port-IsNormal a b t h =
        elim (Bool-cases (has_prefix a (b'[' ∷ []) || contains_byte a b':')) [
          | inl v6 ↦ elim (Option-cases (net.parse_ip (trim_brackets a))) [
            | inl bad ↦ ground arith
            | inr (ip, good) ↦
                let e : net.join_host_port (net.ip_string ip) port_53 ≡ b = ground arith in
                subst IsNormal e (lawful.trim_join_string ip, (_, lawful.split_join_string ip))
          ]
          | inr v4 ↦ elim (Option-cases (net.parse_ip a)) [
            | inl bad ↦ ground arith
            | inr (ip, good) ↦
                let e : net.join_host_port a port_53 ≡ b = ground arith in
                subst IsNormal e
                  (lawful.trim_join_parsed a ip good t, (_, lawful.split_join_parsed a ip good t))
          ]
        ]

    add_port-IsNormal : (a b : Bytes) → trim_space a ≡ a → add_port a ≡ ok b → IsNormal b
    unfolding add_port
    add_port-IsNormal a b t h = elim (Option-cases (net.split_host_port a)) [
      | inl bare ↦ append_port-IsNormal a b t (ground arith)
      | inr (hp, s) ↦ let e : a ≡ b = ground arith in subst IsNormal e (t, (hp, s))
    ]

    -- What `WithPort` returns has a port, and `WithPort` leaves it as it is, if the functions of
    -- `net` do what they document.
    with_port_idem :
        (a b : Bytes)
        → with_port a ≡ ok b
        → ((hp : Bytes × Bytes) × (net.split_host_port b ≡ some hp)) × (with_port b ≡ ok b)
    with_port_idem a b h =
        let added : add_port (trim_space a) ≡ ok b = unfold with_port in ground arith in
        let n = add_port-IsNormal (trim_space a) b (trim_space_idem a) added in
        (n.1, with_port_normal b n)

    plain_addrs-ok : (addrs : List Bytes) → All (λ b. with_port b ≡ ok b) (plain_addrs addrs)
    unfolding plain_addrs
    plain_addrs-ok [] = tt
    plain_addrs-ok (a ∷ addrs) = elim (Result-cases (with_port a)) [
      | inl (b, e) ↦ rw e ((with_port_idem a b e).1, plain_addrs-ok addrs)
      | inr (x, e) ↦ rw e (plain_addrs-ok addrs)
    ]

    plain_addrs_fixed : (bs : List Bytes) → All (λ b. with_port b ≡ ok b) bs → plain_addrs bs ≡ bs
    unfolding plain_addrs
    plain_addrs_fixed [] h = refl
    plain_addrs_fixed (b ∷ bs) h = rw (h.0, plain_addrs_fixed bs h.1)

    -- Building a client from the addresses of a client changes nothing, if the functions of `net`
    -- do what they document.
    plain_addrs_idem : (addrs : List Bytes) → plain_addrs (plain_addrs addrs) ≡ plain_addrs addrs
    plain_addrs_idem addrs = plain_addrs_fixed (plain_addrs addrs) (plain_addrs-ok addrs)
