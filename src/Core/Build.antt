-- ===== src/Core/Build.antt =====
-- `buildFrom`, `Reload` and `Shutdown` of the engine, and `NewDoH`, which `buildFrom` calls. The
-- scheme of a URL, if it parses, is a parameter, and so are the system's addresses that are
-- discovered.
use true_dns.Base.{
  ◌≡◌, refl, inl, inr, Bool, true, false, ◌||◌, Option, none, some, List, [], ◌∷◌, if◌then◌else◌,
  Bool-cases, Option-cases, ◌⊎◌,
}
use true_dns.Base.Result.{Result, ok, err, Result-cases}
use true_dns.Text.{Bytes, codes, bytes_eq, is_empty}
use true_dns.Net.{Net}
use true_dns.Matcher.{Matcher, PatternError, member}
use true_dns.Matcher
use true_dns.Override.{Table}
use true_dns.Cache
use true_dns.Config.Defs.{Config, ConfigError, validate}
use true_dns.Resolver.Address.{with_port, plain_addrs}

pub data BuildError : Type 0 where
  invalid_config : ConfigError → BuildError
  domains : PatternError → BuildError
  bad_url bad_scheme bad_proxy : Bytes → BuildError

-- the components that are derived from a configuration, each upstream by its addresses
pub record Derived : Type 0 where
  pub matcher : Matcher
  pub doh : List Bytes
  pub system : List Bytes
  pub system_fb : Option (List Bytes)

pub record Running : Type 0 where
  pub cfg : Config
  pub derived : Derived
  pub cache : Cache.Cache
  -- `overrideM`; none after `Shutdown`
  pub override_manager : Option Table
  pub probing : Bool

-- how `Reload` ends
pub data Reloaded : Type 0 where
  refused : BuildError → Reloaded
  accepted panicked : Reloaded

abbrev pub unless_empty : List Bytes → Option (List Bytes)
unless_empty [] = none
unless_empty (a ∷ l) = some (a ∷ l)

abbrev pub or_discovered : List Bytes → List Bytes → List Bytes
or_discovered [] discovered = discovered
or_discovered (a ∷ l) discovered = a ∷ l

module _ (net : Net) (scheme : Bytes → Option Bytes) where
  -- the addresses of `seen` after the loop over the system's
  abbrev pub seen_of : List Bytes → List Bytes
  seen_of [] = []
  seen_of (a ∷ l) = elim (with_port net a) [ ok na ↦ na ∷ seen_of l | err e ↦ seen_of l ]

  -- the loop over the fallback addresses
  unfoldable pub fallback_addrs : List Bytes → List Bytes → List Bytes
  fallback_addrs seen [] = []
  fallback_addrs seen (a ∷ l) = elim (with_port net a) [
    | err e ↦ fallback_addrs seen l
    | ok na ↦ elim (member na seen) [
      | true ↦ fallback_addrs seen l
      | false ↦ na ∷ fallback_addrs (na ∷ seen) l
    ]
  ]

  -- `NewDoH`, but for the client that it makes
  unfoldable pub new_doh : Bytes → Bytes → Result BuildError Bytes
  new_doh raw proxy = elim (scheme raw) [
    | none ↦ err (bad_url raw)
    | some s ↦
        if bytes_eq s (codes "https") || bytes_eq s (codes "http")
        then if is_empty proxy
          then ok raw
          else elim (scheme proxy) [ none ↦ err (bad_proxy proxy) | some p ↦ ok raw ]
        else err (bad_scheme raw)
  ]

  unfoldable pub new_dohs : List Bytes → Bytes → Result BuildError (List Bytes)
  new_dohs [] proxy = ok []
  new_dohs (u ∷ us) proxy = elim (new_doh u proxy) [
    | err e ↦ err e
    | ok d ↦ elim (new_dohs us proxy) [ err e ↦ err e | ok ds ↦ ok (d ∷ ds) ]
  ]

  abbrev pub derive : Config → List Bytes → Matcher → List Bytes → Derived
  derive c discovered m doh =
      let sys = or_discovered c.upstreams.system discovered in
      record {
        matcher = m;
        doh = doh;
        system = plain_addrs net sys;
        system_fb = unless_empty (fallback_addrs (seen_of sys) c.upstreams.fallback);
      }

  -- `buildFrom`
  unfoldable pub build_from : Config → List Bytes → Result BuildError Derived
  unfolding fallback_addrs new_dohs
  build_from c discovered = elim (Matcher.new c.polluted) [
    | err e ↦ err (domains e)
    | ok m ↦ elim (new_dohs c.upstreams.doh c.upstreams.proxy_url) [
      | err e ↦ err e
      | ok doh ↦ ok (derive c discovered m doh)
    ]
  ]

  -- `New`, with the table that `newOverrideManager` starts from
  unfoldable pub new_engine : Config → List Bytes → Table → Result BuildError Running
  unfolding build_from
  new_engine c discovered t = elim (validate net c) [
    | some wrong ↦ err (invalid_config wrong)
    | none ↦ elim (build_from c discovered) [
      | err wrong ↦ err wrong
      | ok derived ↦ ok (record {
        cfg = c;
        derived = derived;
        cache = Cache.new c.cache.max_entries c.cache.max_ttl;
        override_manager = some t;
        probing = c.probe.probe_enabled;
      })
    ]
  ]

  -- the assignments under the lock
  abbrev pub switched : Config → Derived → Table → Running → Running
  switched c derived t e = record e {
    cfg = c;
    derived = derived;
    override_manager = some t;
    probing = c.probe.probe_enabled;
  }

  -- `Reload`, with the table that `newOverrideManager` starts from: the engine it leaves, and the
  -- end. `old.shutdown()` ends the loop of the manager before, and panics if there is none.
  unfoldable pub reload : Config → List Bytes → Table → Running → Running × Reloaded
  unfolding build_from
  reload c discovered t e = elim (validate net c) [
    | some wrong ↦ (e, refused (invalid_config wrong))
    | none ↦ elim (build_from c discovered) [
      | err wrong ↦ (e, refused wrong)
      | ok derived ↦ elim e.override_manager [
        | none ↦ (switched c derived t e, panicked)
        | some old ↦ (record (switched c derived t e) { cache = Cache.flush e.cache }, accepted)
      ]
    ]
  ]

  -- `Shutdown`
  abbrev pub shutdown : Running → Running
  shutdown e = record e { override_manager = none }

  -- the addresses are distinct from those seen, and from each other
  abbrev pub IsFresh : List Bytes → List Bytes → Type 0
  IsFresh seen [] = Unit
  IsFresh seen (a ∷ l) = (member a seen ≡ false) × IsFresh (a ∷ seen) l

  fallback_addrs-from : (seen l : List Bytes) → IsFresh seen (fallback_addrs seen l)
  unfolding fallback_addrs
  fallback_addrs-from seen [] = tt
  fallback_addrs-from seen (a ∷ l) = elim (Result-cases (with_port net a)) [
    | inr (e, f) ↦ rw (f, fallback_addrs) (fallback_addrs-from seen l)
    | inl (na, f) ↦ elim (Bool-cases (member na seen)) [
      | inl b ↦ rw (f, fallback_addrs, b) (fallback_addrs-from seen l)
      | inr b ↦ rw (f, fallback_addrs, b) (b, fallback_addrs-from (na ∷ seen) l)
    ]
  ]

  -- The fallback chain that is built has no address twice, and none that the system upstreams
  -- have, all compared with their ports.
  fallback_addrs-IsFresh :
      (sys fallback : List Bytes) → IsFresh (seen_of sys) (fallback_addrs (seen_of sys) fallback)
  fallback_addrs-IsFresh sys fallback = fallback_addrs-from (seen_of sys) fallback

  -- The engine runs on the configuration `c`: every component is made from it, and the manager of
  -- the overrides starts from the table `t`.
  pub record RunsOn (c : Config) (discovered : List Bytes) (t : Table) (e : Running) : Type 0 where
    pub valid : validate net c ≡ none
    pub built : build_from c discovered ≡ ok e.derived
    pub configured : e.cfg ≡ c
    pub overriding : e.override_manager ≡ some t
    pub probes : e.probing ≡ c.probe.probe_enabled

  running_on :
      (c : Config) (discovered : List Bytes) (t : Table) (e : Running) (d : Derived)
      → validate net c ≡ none
      → build_from c discovered ≡ ok d
      → RunsOn c discovered t (switched c d t e)
  running_on c discovered t e d f g = record {
    valid = f;
    built = g;
    configured = refl;
    overriding = refl;
    probes = refl;
  }

  -- `Reload` of an engine with a manager either reports an error and leaves the engine as it was,
  -- or it accepts the configuration, which the engine then runs on, and empties the cache; without
  -- a manager, which is after `Shutdown`, it panics where it would accept, and keeps the cache.
  pub reload_switches :
      (c : Config) (discovered : List Bytes) (t : Table) (e : Running)
      → ((wrong : BuildError) × (reload c discovered t e ≡ (e, refused wrong)))
        ⊎ (RunsOn c discovered t (reload c discovered t e).0
            × ((((old : Table) × (e.override_manager ≡ some old))
                  × ((reload c discovered t e).1 ≡ accepted)
                  × ((reload c discovered t e).0.cache ≡ Cache.flush e.cache))
                ⊎ ((e.override_manager ≡ none)
                    × ((reload c discovered t e).1 ≡ panicked)
                    × ((reload c discovered t e).0.cache ≡ e.cache))))
  unfolding reload
  reload_switches c discovered t e = elim (Option-cases (validate net c)) [
    | inr (wrong, f) ↦ rw (f, reload) (inl (invalid_config wrong, refl))
    | inl f ↦ elim (Result-cases (build_from c discovered)) [
      | inr (wrong, g) ↦ rw (f, reload, g) (inl (wrong, refl))
      | inl (d, g) ↦ elim (Option-cases e.override_manager) [
        | inl h ↦
            rw (f, reload, g, h) (inr (running_on c discovered t e d f g, inr (refl, refl, refl)))
        | inr (old, h) ↦
            rw (f, reload, g, h)
              (inr (
                running_on c discovered t (record e { cache = Cache.flush e.cache }) d f g,
                inl ((old, refl), refl, refl),
              ))
      ]
    ]
  ]
