-- ===== src/Config/Ranges.antt =====
-- What `Validate` accepts.
use true_dns.Base.{
  ℕ, ◌≡◌, ◌≢◌, ◌↔◌, ◌⊎◌, refl, inl, inr, Bool, true, false, ◌&&◌, Option, none, some, List, [], ◌∷◌,
  ◌++◌, arith, All, ℤ, pos, ◌≤ℤ◌, ◌<ℤ◌, ltb_ℤ, leb_ℤ,
}
use true_dns.Text.{Bytes, codes, bytes_eq_iff, is_empty, has_prefix}
use true_dns.Net.{Net}
use true_dns.Config.Defs.{
  Config, ConfigError, seconds, is_one_of, first_error, negate, doh_checks, outside, is_nil,
  is_none, checks, validate,
}

-- The value is above 0 and at most `high`.
abbrev pub Within : ℤ → ℤ → Type 0
Within high n = (pos 0 <ℤ n) × (n ≤ℤ high)

abbrev pub IsHttp : Bytes → Type 0
IsHttp u = (has_prefix u (codes "https://") ≡ true) ⊎ (has_prefix u (codes "http://") ≡ true)

pub record IsSound (net : Net) (c : Config) : Type 0 where
  pub mode_known : (c.mode ≡ codes "split") ⊎ (c.mode ≡ codes "full")
  pub strategy_known :
      (c.upstreams.strategy ≡ codes "race") ⊎ (c.upstreams.strategy ≡ codes "failover")
  pub has_doh : c.upstreams.doh ≢ []
  pub http : All IsHttp c.upstreams.doh
  pub timeout : Within (seconds 60) c.upstreams.timeout
  pub entries : pos 0 <ℤ c.cache.max_entries
  pub listens : c.listen ≢ []
  pub spoof : (c.ecs.spoof ≡ []) ⊎ (net.parse_cidr c.ecs.spoof ≢ none)
  pub override_ttl : Within (seconds 86400) c.override_table.override_ttl
  pub refresh : pos 0 ≤ℤ c.override_table.refresh_interval
  pub probe_mode : (c.probe.probe_mode ≡ codes "drop") ⊎ (c.probe.probe_mode ≡ codes "prefer")
  pub port : Within (pos 65535) c.probe.port
  pub probe_timeout : Within (seconds 10) c.probe.probe_timeout
  pub max_ips : Within (pos 32) c.probe.max_ips
  pub cache_ttl : pos 0 ≤ℤ c.probe.cache_ttl
  pub level :
      (c.log.level ≡ codes "debug")
      ⊎ (c.log.level ≡ codes "info")
      ⊎ (c.log.level ≡ codes "warn")
      ⊎ (c.log.level ≡ codes "error")
  pub stats : pos 0 ≤ℤ c.log.stats_interval

some-none : {A : Type 0} {x : A} → some x ≡ none → ⊥
some-none h = cc

true-false : true ≡ false → ⊥
true-false h = cc

cons_nil : {A : Type 0} {x : A} {l : List A} → x ∷ l ≡ [] → ⊥
cons_nil h = cc

abbrev Passes : Bool × ConfigError → Type 0
Passes (wrong, e) = wrong ≡ false

first_error_iff : (l : List (Bool × ConfigError)) → (first_error l ≡ none) ↔ All Passes l
first_error_iff [] = ((λ e. tt), λ a. refl)
first_error_iff ((true, e) ∷ l) = ((λ h. absurd (some-none h)), λ a. absurd (true-false a.0))
first_error_iff ((false, e) ∷ l) =
    ((λ h. (refl, (first_error_iff l).0 h)), λ a. (first_error_iff l).1 a.1)

All-append_iff :
    (l m : List (Bool × ConfigError)) → All Passes (l ++ m) ↔ (All Passes l × All Passes m)
All-append_iff [] m = ((λ a. (tt, a)), λ a. a.1)
All-append_iff ((w, e) ∷ l) m = (
  (λ a. let (p, q) = (All-append_iff l m).0 a.1 in ((a.0, p), q)),
  λ a. (a.0.0, (All-append_iff l m).1 (a.0.1, a.1)),
)

two_iff : (s a b : Bytes) → (negate (is_one_of s (a ∷ b ∷ [])) ≡ false) ↔ ((s ≡ a) ⊎ (s ≡ b))
two_iff s a b = (
  (λ h. ground (arith, bytes_eq_iff s a, bytes_eq_iff s b)),
  λ h. ground (arith, bytes_eq_iff s a, bytes_eq_iff s b),
)

four_iff :
    (s a b c d : Bytes)
    → (negate (is_one_of s (a ∷ b ∷ c ∷ d ∷ [])) ≡ false) ↔ ((s ≡ a) ⊎ (s ≡ b) ⊎ (s ≡ c) ⊎ (s ≡ d))
four_iff s a b c d = (
  (λ h. ground (arith, bytes_eq_iff s a, bytes_eq_iff s b, bytes_eq_iff s c, bytes_eq_iff s d)),
  λ h. ground (arith, bytes_eq_iff s a, bytes_eq_iff s b, bytes_eq_iff s c, bytes_eq_iff s d),
)

outside_iff : (high n : ℤ) → (outside high n ≡ false) ↔ Within high n
outside_iff high n = ((λ h. (ground arith, ground arith)), λ h. ground arith)

is_nil_iff : {A : Type 0} (l : List A) → (is_nil l ≡ false) ↔ (l ≢ [])
is_nil_iff [] = ((λ h. absurd (true-false h)), λ h. absurd (h refl))
is_nil_iff (x ∷ l) = ((λ h e. cc), λ h. refl)

doh_checks_iff : (us : List Bytes) → All Passes (doh_checks us) ↔ All IsHttp us
doh_checks_iff [] = ((λ a. tt), λ a. tt)
doh_checks_iff (u ∷ us) = (
  (λ a. (ground arith, (doh_checks_iff us).0 a.1)),
  λ a. (ground arith, (doh_checks_iff us).1 a.1),
)

spoof_iff :
    (s : Bytes) (o : Option (Bytes × ℕ))
    → ((negate (is_empty s) && is_none o) ≡ false) ↔ ((s ≡ []) ⊎ (o ≢ none))
spoof_iff [] o = ((λ h. inl refl), λ h. refl)
spoof_iff (x ∷ s) none = (
  (λ h. absurd (true-false h)),
  λ h. elim h [ inl e ↦ absurd (cons_nil e) | inr e ↦ absurd (e refl) ],
)
spoof_iff (x ∷ s) (some p) = ((λ h. inr (λ e. cc)), λ h. refl)

negative_iff : (n : ℤ) → (ltb_ℤ n (pos 0) ≡ false) ↔ (pos 0 ≤ℤ n)
negative_iff n = ((λ h. ground arith), λ h. ground arith)

positive_iff : (n : ℤ) → (leb_ℤ n (pos 0) ≡ false) ↔ (pos 0 <ℤ n)
positive_iff n = ((λ h. ground arith), λ h. ground arith)

Passes-IsSound : (net : Net) (c : Config) → All Passes (checks net c) → IsSound net c
Passes-IsSound net c (mode, (strategy, (has, rest))) =
    let (
      http,
      (
        timeout,
        (
          entries,
          (
            listens,
            (
              spoof,
              (ttl, (refresh, (pmode, (port, (ptimeout, (ips, (pttl, (level, (stats, _))))))))),
            ),
          ),
        ),
      ),
    ) =
      (All-append_iff (doh_checks c.upstreams.doh) _).0 rest in
    record {
      mode_known = (two_iff c.mode (codes "split") (codes "full")).0 mode;
      strategy_known = (two_iff c.upstreams.strategy (codes "race") (codes "failover")).0 strategy;
      has_doh = (is_nil_iff c.upstreams.doh).0 has;
      http = (doh_checks_iff c.upstreams.doh).0 http;
      timeout = (outside_iff (seconds 60) c.upstreams.timeout).0 timeout;
      entries = (positive_iff c.cache.max_entries).0 entries;
      listens = (is_nil_iff c.listen).0 listens;
      spoof = (spoof_iff c.ecs.spoof (net.parse_cidr c.ecs.spoof)).0 spoof;
      override_ttl = (outside_iff (seconds 86400) c.override_table.override_ttl).0 ttl;
      refresh = (negative_iff c.override_table.refresh_interval).0 refresh;
      probe_mode = (two_iff c.probe.probe_mode (codes "drop") (codes "prefer")).0 pmode;
      port = (outside_iff (pos 65535) c.probe.port).0 port;
      probe_timeout = (outside_iff (seconds 10) c.probe.probe_timeout).0 ptimeout;
      max_ips = (outside_iff (pos 32) c.probe.max_ips).0 ips;
      cache_ttl = (negative_iff c.probe.cache_ttl).0 pttl;
      level =
          (four_iff c.log.level (codes "debug") (codes "info") (codes "warn") (codes "error")).0
            level;
      stats = (negative_iff c.log.stats_interval).0 stats;
    }

IsSound-Passes : (net : Net) (c : Config) → IsSound net c → All Passes (checks net c)
IsSound-Passes net c s = (
  (two_iff c.mode (codes "split") (codes "full")).1 s.mode_known,
  (
    (two_iff c.upstreams.strategy (codes "race") (codes "failover")).1 s.strategy_known,
    (
      (is_nil_iff c.upstreams.doh).1 s.has_doh,
      (All-append_iff (doh_checks c.upstreams.doh) _).1 (
        (doh_checks_iff c.upstreams.doh).1 s.http,
        (
          (outside_iff (seconds 60) c.upstreams.timeout).1 s.timeout,
          (
            (positive_iff c.cache.max_entries).1 s.entries,
            (
              (is_nil_iff c.listen).1 s.listens,
              (
                (spoof_iff c.ecs.spoof (net.parse_cidr c.ecs.spoof)).1 s.spoof,
                (
                  (outside_iff (seconds 86400) c.override_table.override_ttl).1 s.override_ttl,
                  (
                    (negative_iff c.override_table.refresh_interval).1 s.refresh,
                    (
                      (two_iff c.probe.probe_mode (codes "drop") (codes "prefer")).1 s.probe_mode,
                      (
                        (outside_iff (pos 65535) c.probe.port).1 s.port,
                        (
                          (outside_iff (seconds 10) c.probe.probe_timeout).1 s.probe_timeout,
                          (
                            (outside_iff (pos 32) c.probe.max_ips).1 s.max_ips,
                            (
                              (negative_iff c.probe.cache_ttl).1 s.cache_ttl,
                              (
                                (four_iff c.log.level (codes "debug") (codes "info") (codes "warn")
                                      (codes "error")).1
                                    s.level,
                                ((negative_iff c.log.stats_interval).1 s.stats, tt),
                              ),
                            ),
                          ),
                        ),
                      ),
                    ),
                  ),
                ),
              ),
            ),
          ),
        ),
      ),
    ),
  ),
)

-- `Validate` reports no error exactly when every field is in its documented range: the mode, the
-- strategy, the probe mode and the log level are known names, the lists that may not be empty are
-- not, each DoH entry is an HTTP URL, a spoofed subnet parses, and each number is within its
-- bounds.
pub validate_iff : (net : Net) (c : Config) → (validate net c ≡ none) ↔ IsSound net c
unfolding validate
validate_iff net c = (
  (λ h. Passes-IsSound net c ((first_error_iff (checks net c)).0 h)),
  λ s. (first_error_iff (checks net c)).1 (IsSound-Passes net c s),
)
