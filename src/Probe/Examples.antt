-- ===== src/Probe/Examples.antt =====
-- Runs of `Filter`, and its theorems at a concrete answer.
use true_dns.Base.{
  true, ℕ, ◌≡◌, ◌≤◌, ◌⊎◌, refl, List, [], ◌∷◌, ◌++◌, arith, pos, length, take, drop, ltb, ◌-◌,
}
use mathlib.Core.List.{Permᴰ}
use true_dns.Dns.{Ip}
use true_dns.Probe.Filter.{drop_mode, prefer, ProbeResult, Probed, probe_all, ips_of, filter_ips}
use true_dns.Probe.Store.{Prober, new_prober, settle, look, cache_max_entries}
use true_dns.Probe.Bound.{settle_bounded}
use true_dns.Probe.Order.{IsSorted, IsStable, filter_prefer}
use true_dns.Probe.Drop.{Drops, filter_ips-Drops}

abbrev address : ℕ → Ip
address n = 192 ∷ 0 ∷ 2 ∷ n ∷ []

-- The last byte is the latency, and even ones do not answer.
abbrev last_byte : Ip → ℕ
last_byte (a ∷ b ∷ c ∷ d ∷ []) = d
last_byte _ = 0

abbrev check : Ip → ProbeResult
check ip = record { reachable = ltb 3 (last_byte ip); latency = 10 - last_byte ip }

abbrev four : List Ip
four = address 1 ∷ address 4 ∷ address 5 ∷ address 2 ∷ []

filter_run :
    (filter_ips check drop_mode (pos 3) four ≡ address 4 ∷ address 5 ∷ address 2 ∷ [])
    × (filter_ips check prefer (pos 3) four ≡ address 5 ∷ address 4 ∷ address 1 ∷ address 2 ∷ [])
    × (filter_ips check drop_mode (pos 1) four ≡ four)
unfolding filter_ips
filter_run = (refl, refl, refl)

filter_ips-Drops_example : Drops check 3 four (filter_ips check drop_mode (pos 3) four)
filter_ips-Drops_example = filter_ips-Drops check (pos 3) four (omega arith)

filter_prefer_example :
    Permᴰ (filter_ips check prefer (pos 3) four) four
    × ((sorted : List Probed) × Permᴰ sorted (probe_all check (take 3 four))
        × IsSorted sorted
        × IsStable sorted (probe_all check (take 3 four))
        × (((length four ≤ 1) × (filter_ips check prefer (pos 3) four ≡ four))
            ⊎ (filter_ips check prefer (pos 3) four ≡ ips_of sorted ++ drop 3 four)))
filter_prefer_example = filter_prefer check (pos 3) four

abbrev result : ProbeResult
result = record { reachable = true; latency = 5 }

abbrev prober : Prober
prober = new_prober (pos 60)

settle_bounded_example :
    (length (settle (pos 3) (address 1) result prober).cache ≤ cache_max_entries)
    × ((look (pos 3) (address 1) prober).0.cache ≡ prober.cache)
settle_bounded_example = settle_bounded (pos 3) (address 1) result prober (omega arith)
