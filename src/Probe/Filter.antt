-- ===== src/Probe/Filter.antt =====
-- `Filter`, over the outcome of each probe: the goroutines write the slots of an array, one each,
-- so the order in which they run makes no difference. `sort.SliceStable` is an insertion sort,
-- which is stable too; two stable sorts by one order agree.
use true_dns.Base.{
  ℕ, Bool, true, false, ◌||◌, List, [], ◌∷◌, ◌++◌, ltb, if◌then◌else◌, length, take, drop, ℤ, pos,
  leb_ℤ, ltb_ℤ, pos_part,
}
use true_dns.Dns.{Ip}

-- any other text of the configuration than "drop" stands for `prefer`, as in the `switch`
pub data Mode : Type 0 where
  drop_mode prefer : Mode

pub record ProbeResult : Type 0 where
  pub reachable : Bool
  pub latency : ℕ

pub record Probed : Type 0 where
  pub ip : Ip
  pub res : ProbeResult

-- `less` of the sort
abbrev pub less : Probed → Probed → Bool
less x y =
    if x.res.reachable
    then (if y.res.reachable then ltb x.res.latency y.res.latency else true)
    else false

-- insertion of an earlier address: in front of the first that is not less
unfoldable pub insert_stable : Probed → List Probed → List Probed
insert_stable x [] = x ∷ []
insert_stable x (y ∷ ys) = if less y x then y ∷ insert_stable x ys else x ∷ y ∷ ys

unfoldable pub sort_stable : List Probed → List Probed
unfolding insert_stable
sort_stable [] = []
sort_stable (x ∷ xs) = insert_stable x (sort_stable xs)

-- the local function `reachable`
unfoldable pub reachable_ips : List Probed → List Ip
reachable_ips [] = []
reachable_ips (x ∷ xs) = if x.res.reachable then x.ip ∷ reachable_ips xs else reachable_ips xs

abbrev pub probe_all : (Ip → ProbeResult) → List Ip → List Probed
probe_all check [] = []
probe_all check (ip ∷ ips) = record { ip = ip; res = check ip } ∷ probe_all check ips

abbrev pub ips_of : List Probed → List Ip
ips_of [] = []
ips_of (x ∷ xs) = x.ip ∷ ips_of xs

-- the number of addresses to probe
abbrev pub limit_of : ℤ → List Ip → ℕ
limit_of max ips =
    if leb_ℤ max (pos 0) || ltb_ℤ (pos (length ips)) max then length ips else pos_part max

abbrev pub keep_or_all : List Ip → List Ip → List Ip → List Ip
keep_or_all [] rest ips = ips
keep_or_all (ip ∷ kept) rest ips = (ip ∷ kept) ++ rest

abbrev pub reshape : Mode → List Probed → List Ip → List Ip → List Ip
reshape drop_mode ps rest ips = keep_or_all (reachable_ips ps) rest ips
reshape prefer ps rest ips = ips_of (sort_stable ps) ++ rest

-- `Filter`
unfoldable pub filter_ips : (Ip → ProbeResult) → Mode → ℤ → List Ip → List Ip
unfolding sort_stable reachable_ips
filter_ips check mode max ips =
    let limit = limit_of max ips in
    if ltb 1 (length ips)
    then reshape mode (probe_all check (take limit ips)) (drop limit ips) ips
    else ips
