-- ===== src/Config/Defs.antt =====
-- The fields of the configuration, in nanoseconds where they are durations, the defaults and
-- `Validate`. What decoding gives is a value of the record.
use true_dns.Base.{
  ℕ, ◌*◌, ◌++◌, Bool, true, false, ◌||◌, ◌&&◌, Option, none, some, List, [], ◌∷◌, if◌then◌else◌, ℤ,
  pos, ltb_ℤ, leb_ℤ,
}
use true_dns.Text.{Bytes, codes, bytes_eq, is_empty, has_prefix}
use true_dns.Net.{Net}

abbrev pub seconds : ℕ → ℤ
seconds n = pos (n * 1_000_000_000)

pub record UpstreamConfig : Type 0 where
  pub doh : List Bytes
  pub system : List Bytes
  pub fallback : List Bytes
  pub strategy : Bytes
  pub timeout : ℤ
  pub proxy_url : Bytes
  pub fallback_to_doh : Bool

pub record CacheConfig : Type 0 where
  pub max_ttl : ℤ
  pub max_entries : ℤ

pub record OverrideConfig : Type 0 where
  pub urls : List Bytes
  pub files : List Bytes
  pub override_ttl : ℤ
  pub refresh_interval : ℤ

pub record ApiConfig : Type 0 where
  pub api_enabled : Bool
  pub api_listen : Bytes
  pub token : Bytes

pub record EcsConfig : Type 0 where
  pub strip : Bool
  pub spoof : Bytes

pub record ProbeConfig : Type 0 where
  pub probe_enabled : Bool
  pub port : ℤ
  pub probe_timeout : ℤ
  pub probe_mode : Bytes
  pub max_ips : ℤ
  pub cache_ttl : ℤ

pub record LogConfig : Type 0 where
  pub level : Bytes
  pub verbose_queries : Bool
  pub stats_interval : ℤ

pub record Config : Type 0 where
  pub schema_version : ℤ
  pub listen : List Bytes
  pub mode : Bytes
  pub polluted : List Bytes
  pub upstreams : UpstreamConfig
  pub cache : CacheConfig
  pub api : ApiConfig
  pub ecs : EcsConfig
  pub override_table : OverrideConfig
  pub probe : ProbeConfig
  pub log : LogConfig

pub data ConfigError : Type 0 where
  invalid_mode invalid_strategy no_doh bad_timeout bad_max_entries no_listen invalid_spoof :
      ConfigError
  bad_override_ttl bad_refresh_interval invalid_probe_mode bad_port bad_probe_timeout : ConfigError
  bad_max_ips bad_cache_ttl invalid_level bad_stats_interval : ConfigError
  doh_scheme : Bytes → ConfigError

-- membership in the cases of a `switch` on a string
abbrev pub is_one_of : Bytes → List Bytes → Bool
is_one_of s [] = false
is_one_of s (t ∷ ts) = bytes_eq s t || is_one_of s ts

-- The errors that the checks in turn find; the first one is returned.
abbrev pub first_error : List (Bool × ConfigError) → Option ConfigError
first_error [] = none
first_error ((wrong, e) ∷ checks) = if wrong then some e else first_error checks

abbrev pub is_http : Bytes → Bool
is_http u = has_prefix u (codes "https://") || has_prefix u (codes "http://")

abbrev pub negate : Bool → Bool
negate true = false
negate false = true

abbrev pub doh_checks : List Bytes → List (Bool × ConfigError)
doh_checks [] = []
doh_checks (u ∷ us) = (negate (is_http u), doh_scheme u) ∷ doh_checks us

-- a value that is not within `(0, high]`
abbrev pub outside : ℤ → ℤ → Bool
outside high n = leb_ℤ n (pos 0) || ltb_ℤ high n

abbrev pub is_nil : {A : Type 0} → List A → Bool
is_nil [] = true
is_nil (x ∷ xs) = false

abbrev pub is_none : {A : Type 0} → Option A → Bool
is_none none = true
is_none (some x) = false

-- `Validate`: the checks in their order
abbrev pub checks : Net → Config → List (Bool × ConfigError)
checks net c =
    (negate (is_one_of c.mode (codes "split" ∷ codes "full" ∷ [])), invalid_mode)
    ∷ (
      negate (is_one_of c.upstreams.strategy (codes "race" ∷ codes "failover" ∷ [])),
      invalid_strategy,
    )
    ∷ (is_nil c.upstreams.doh, no_doh)
    ∷ (doh_checks c.upstreams.doh
        ++ ((outside (seconds 60) c.upstreams.timeout, bad_timeout)
            ∷ (leb_ℤ c.cache.max_entries (pos 0), bad_max_entries)
            ∷ (is_nil c.listen, no_listen)
            ∷ (negate (is_empty c.ecs.spoof) && is_none (net.parse_cidr c.ecs.spoof), invalid_spoof)
            ∷ (outside (seconds 86400) c.override_table.override_ttl, bad_override_ttl)
            ∷ (ltb_ℤ c.override_table.refresh_interval (pos 0), bad_refresh_interval)
            ∷ (
              negate (is_one_of c.probe.probe_mode (codes "drop" ∷ codes "prefer" ∷ [])),
              invalid_probe_mode,
            )
            ∷ (outside (pos 65535) c.probe.port, bad_port)
            ∷ (outside (seconds 10) c.probe.probe_timeout, bad_probe_timeout)
            ∷ (outside (pos 32) c.probe.max_ips, bad_max_ips)
            ∷ (ltb_ℤ c.probe.cache_ttl (pos 0), bad_cache_ttl)
            ∷ (
              negate (
                  is_one_of c.log.level
                    (codes "debug" ∷ codes "info" ∷ codes "warn" ∷ codes "error" ∷ [])),
              invalid_level,
            )
            ∷ (ltb_ℤ c.log.stats_interval (pos 0), bad_stats_interval)
            ∷ []))

-- `Validate`; `none` stands for no error
unfoldable pub validate : Net → Config → Option ConfigError
validate net c = first_error (checks net c)

-- `DefaultPollutedDomains`
abbrev pub default_polluted_domains : List Bytes
default_polluted_domains =
    codes "github.com"
    ∷ codes "github.io"
    ∷ codes "githubusercontent.com"
    ∷ codes "githubassets.com"
    ∷ codes "githubcopilot.com"
    ∷ codes "githubstatus.com"
    ∷ codes "github.blog"
    ∷ codes "github.dev"
    ∷ codes "githubapp.com"
    ∷ codes "github.net"
    ∷ codes "ghcr.io"
    ∷ codes "github.community"
    ∷ codes "github.map.fastly.net"
    ∷ codes "github.global.ssl.fastly.net"
    ∷ codes "github-cloud.s3.amazonaws.com"
    ∷ codes "github-com.s3.amazonaws.com"
    ∷ codes "github-production-release-asset-2e65be.s3.amazonaws.com"
    ∷ codes "github-production-repository-file-5c1aeb.s3.amazonaws.com"
    ∷ codes "github-production-user-asset-6210df.s3.amazonaws.com"
    ∷ codes "dns.google"
    ∷ codes "cloudflare-dns.com"
    ∷ []

-- `Default`
abbrev pub default : Config
default = record {
  schema_version = pos 1;
  listen = codes "127.0.0.1:53" ∷ codes "[::1]:53" ∷ [];
  mode = codes "split";
  polluted = default_polluted_domains;
  upstreams = record {
    doh =
        codes "https://dns.alidns.com/dns-query"
        ∷ codes "https://doh.pub/dns-query"
        ∷ codes "https://dns.google/dns-query"
        ∷ codes "https://cloudflare-dns.com/dns-query"
        ∷ [];
    system = [];
    fallback = codes "223.5.5.5" ∷ codes "119.29.29.29" ∷ codes "1.1.1.1" ∷ [];
    strategy = codes "race";
    timeout = seconds 3;
    proxy_url = [];
    fallback_to_doh = false;
  };
  cache = record { max_ttl = seconds 3600; max_entries = pos 4096 };
  api = record { api_enabled = true; api_listen = codes "127.0.0.1:5378"; token = [] };
  ecs = record { strip = true; spoof = [] };
  override_table = record {
    urls = [];
    files = [];
    override_ttl = seconds 300;
    refresh_interval = pos 0;
  };
  probe = record {
    probe_enabled = false;
    port = pos 443;
    probe_timeout = pos 700_000_000;
    probe_mode = codes "drop";
    max_ips = pos 8;
    cache_ttl = seconds 60;
  };
  log = record { level = codes "info"; verbose_queries = false; stats_interval = seconds 60 };
}
