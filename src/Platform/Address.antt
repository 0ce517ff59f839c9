-- ===== src/Platform/Address.antt =====
-- internal/platform/platform.go: `normalizeAddrs`, the addresses that may be asked. `local` tells
-- the addresses of this machine by their texts, as `localIPSet` does.
use true_dns.Base.{
  ◌≡◌, refl, inl, inr, Bool, true, false, ◌||◌, ◌&&◌, not, Option, none, some, List, [], ◌∷◌, arith,
  if◌then◌else◌, Bool-cases, Option-cases, ap, ◌∙◌,
}
use true_dns.Base.Result.{ok, err, Result-cases}
use true_dns.Text.{Bytes, codes, is_empty, bytes_eq, trim_space, trim_brackets}
use true_dns.Net.{Net}
use true_dns.Matcher.{member}
use true_dns.Resolver.Address.{add_port}

-- `adapterActive`
abbrev pub is_address : Bytes → Bool
is_address ip =
    let s = trim_space ip in
    not (is_empty s) && (not (bytes_eq s (codes "0.0.0.0")) && not (bytes_eq s (codes "::")))

unfoldable pub has_address : List Bytes → Bool
has_address [] = false
has_address (ip ∷ ips) = is_address ip || has_address ips

abbrev pub adapter_active : Bytes → List Bytes → Bytes → Bytes → Bool
adapter_active dhcp ips name_server dhcp_name_server =
    bytes_eq (trim_space dhcp) (codes "1")
    || has_address ips
    || not (is_empty (trim_space name_server))
    || not (is_empty (trim_space dhcp_name_server))

-- `DefaultFallbackServers`
abbrev pub default_fallback_servers : List Bytes
default_fallback_servers = codes "223.5.5.5" ∷ codes "119.29.29.29" ∷ codes "1.1.1.1" ∷ []

module _ (net : Net) (local : Bytes → Bool) where
  abbrev pub host_of : Bytes → Bytes
  host_of a = elim (net.split_host_port a) [ none ↦ a | some (h, p) ↦ h ]

  -- the address with its port, if it is kept
  unfoldable pub normal_addr : Bytes → Option Bytes
  normal_addr raw =
      let a = trim_space raw in
      if is_empty a then none else elim (net.parse_ip (trim_brackets (host_of a))) [
        | none ↦ none
        | some ip ↦
            if net.is_loopback ip || (net.is_unspecified ip || local (net.ip_string ip))
            then none
            else elim (add_port net a) [ err e ↦ none | ok b ↦ some b ]
      ]

  -- the loop of `normalizeAddrs`, with the addresses seen
  unfoldable pub normalize_from : List Bytes → List Bytes → List Bytes
  unfolding normal_addr
  normalize_from seen [] = []
  normalize_from seen (a ∷ l) = elim (normal_addr a) [
    | none ↦ normalize_from seen l
    | some b ↦ elim (member b seen) [
      | true ↦ normalize_from seen l
      | false ↦ b ∷ normalize_from (b ∷ seen) l
    ]
  ]

  -- `normalizeAddrs`
  abbrev pub normalize_addrs : List Bytes → List Bytes
  normalize_addrs l = normalize_from [] l

  -- The address is one of another machine, and `b` is its form with a port.
  abbrev pub IsRemote : Bytes → Bytes → Type 0
  IsRemote a b =
      (ip : Bytes) × (net.parse_ip (trim_brackets (host_of (trim_space a))) ≡ some ip)
      × (net.is_loopback ip ≡ false)
      × (net.is_unspecified ip ≡ false)
      × (local (net.ip_string ip) ≡ false)
      × (add_port net (trim_space a) ≡ ok b)

  pub normal_addr-IsRemote :
      (a b : Bytes) → normal_addr a ≡ some b → (is_empty (trim_space a) ≡ false) × IsRemote a b
  unfolding normal_addr
  normal_addr-IsRemote a b h = elim (Bool-cases (is_empty (trim_space a))) [
    | inl e ↦ ground arith
    | inr e ↦ elim (Option-cases (net.parse_ip (trim_brackets (host_of (trim_space a))))) [
      | inl p ↦ ground arith
      | inr (ip, p) ↦
          elim (Bool-cases
            (net.is_loopback ip || (net.is_unspecified ip || local (net.ip_string ip)))) [
              | inl bad ↦ ground arith
              | inr good ↦ elim (Result-cases (add_port net (trim_space a))) [
                | inl (c, f) ↦
                    (e, (ip, p, ground arith, ground arith, ground arith, f ∙ ap ok (ground arith)))
                | inr (x, f) ↦ ground arith
              ]
            ]
    ]
  ]

  pub IsRemote-normal_addr :
      (a b : Bytes) → is_empty (trim_space a) ≡ false → IsRemote a b → normal_addr a ≡ some b
  unfolding normal_addr
  IsRemote-normal_addr a b e (ip, p, x, y, z, f) = rw (e, normal_addr, p, x, y, z, f) refl
