-- ===== src/Api/Clients.antt =====
-- cmd/truedns/main.go: the addresses at which the commands look for the API.
use true_dns.Base.{
  ℕ, ℤ, pos, Bool, true, false, Option, none, some, List, [], ◌∷◌, ◌++◌, if◌then◌else◌, ltb_ℤ,
  pos_part,
}
use true_dns.Text.{Bytes, codes}
use true_dns.Net.{Net}
use true_dns.Matcher.{member}
use true_dns.Api.Ports.{Strconv, read_port_file}

abbrev pub loopback_base : Strconv → ℕ → Bytes
loopback_base conv n = codes "http://127.0.0.1:" ++ conv.itoa n

-- the address of the port file, if its port is positive
abbrev pub recorded_base : Strconv → Option ℤ → List Bytes
recorded_base conv none = []
recorded_base conv (some p) = if ltb_ℤ (pos 0) p then loopback_base conv (pos_part p) ∷ [] else []

-- the configured address, if the API is enabled and the address is one
abbrev pub configured_base : Net → Bool → Bytes → List Bytes
configured_base net false listen = []
configured_base net true listen = elim (net.split_host_port listen) [
  | none ↦ []
  | some hp ↦ (codes "http://" ++ listen) ∷ []
]

-- the loop that leaves out repetitions
unfoldable pub uniq : List Bytes → List Bytes → List Bytes
uniq seen [] = []
uniq seen (u ∷ us) =
    let skip = uniq seen us in
    let keep = uniq (u ∷ seen) us in if member u seen then skip else u ∷ keep

-- `apiBaseCandidates`
unfoldable pub api_base_candidates : Net → Strconv → Option Bytes → Bool → Bytes → List Bytes
unfolding uniq
api_base_candidates net conv file enabled listen =
    uniq [] (recorded_base conv (read_port_file conv file) ++ configured_base net enabled listen)

-- `firstReachableAPI`, without the error: `answers` says where the health check answers with 200
unfoldable pub first_reachable_api : (Bytes → Bool) → List Bytes → Option Bytes
first_reachable_api answers [] = none
first_reachable_api answers (base ∷ bases) =
    let rest = first_reachable_api answers bases in if answers base then some base else rest
