-- ===== src/Cli/Load.antt =====
-- `loadConfig`: the configuration file is loaded and migrated, or a default one is written.
use true_dns.Base.{
  ℤ, ◌≡◌, ◌⊎◌, refl, inl, inr, Bool, true, false, Option, none, some, if◌then◌else◌, Bool-cases,
  ltb_ℤ, ap, ◌∙◌,
}
use true_dns.Base.Result.{Result, ok, err}
use true_dns.Text.{Bytes}
use true_dns.Config.Defs.{Config, default}
use true_dns.Schema.Detect.{detect_schema_version}
use true_dns.Schema.Write.{System, Attempt}
use true_dns.Schema.Ensure.{
  SchemaError, newer, no_migration, unreadable, migration_failed, ensure_schema, current_version,
  ensure_schema_total, ensure_schema_newer, ensure_schema_known,
}

pub data LoadError : Type 0 where
  not_found : LoadError
  -- the error of `config.Load`
  not_loaded : Bytes → LoadError
  schema_newer : ℤ → LoadError

-- How `EnsureSchema` comes to its work: it gets the lock and reads the file; it gets the lock and
-- cannot read the file; or it does not get the lock, by a timeout or another error.
pub data Locking : Type 0 where
  held unreadable_then not_locked : Locking

-- the errors of `EnsureSchema`
pub data EnsureError : Type 0 where
  lock_error read_error : EnsureError
  body_error : SchemaError → EnsureError

abbrev pub from_body : Result SchemaError Bool → Result EnsureError Bool
from_body (err e) = err (body_error e)
from_body (ok migrated) = ok migrated

-- what follows when `EnsureSchema` has returned: `again` is what `config.Load` gives then
abbrev pub after_ensure :
    Config → Result Bytes Config → Result EnsureError Bool → Result LoadError Config
after_ensure cfg again (err (body_error (newer v))) = err (schema_newer v)
after_ensure cfg again (err e) = ok cfg
after_ensure cfg again (ok false) = ok cfg
after_ensure cfg (ok migrated) (ok true) = ok migrated
after_ensure cfg (err e) (ok true) = ok cfg

module _ (sys : System) (reread : Bool) (a : Attempt) where
  -- `EnsureSchema`: the result, and the content of the file, which no other process changes
  unfoldable pub ensure_with_lock : Locking → Bytes → Option (Result EnsureError Bool × Bytes)
  ensure_with_lock not_locked text = some (err lock_error, text)
  ensure_with_lock unreadable_then text = some (err read_error, text)
  ensure_with_lock held text = elim (ensure_schema sys reread a text) [
    | none ↦ none
    | some (r, out) ↦ some (from_body r, out)
  ]

  -- `loadConfig` on a file that exists: `loaded` is what `config.Load` gives at first. The result,
  -- and the content of the file.
  unfoldable pub load_existing :
      Locking
      → Result Bytes Config
      → Result Bytes Config
      → Bytes
      → Option (Result LoadError Config × Bytes)
  unfolding ensure_with_lock
  load_existing locking (err e) again text = some (err (not_loaded e), text)
  load_existing locking (ok cfg) again text = elim (ensure_with_lock locking text) [
    | none ↦ none
    | some (ensured, out) ↦ some (after_ensure cfg again ensured, out)
  ]

  -- `loadConfig`: `none` stands for no file, and `explicit` for a path that was given. The default
  -- configuration is used whether it can be written or not.
  unfoldable pub load_config :
      Locking
      → Option Bytes
      → Bool
      → Result Bytes Config
      → Result Bytes Config
      → Option (Result LoadError Config)
  unfolding load_existing
  load_config locking none explicit loaded again =
      some (if explicit then err not_found else ok default)
  load_config locking (some text) explicit loaded again =
      elim (load_existing locking loaded again text) [
        | none ↦ none
        | some (result, out) ↦ some result
      ]

  after_ensure_known :
      (cfg : Config) (again : Result Bytes Config) (r : Result SchemaError Bool)
      → ((x : ℤ) → ¬ (r ≡ err (newer x)))
      → (c : Config) × (after_ensure cfg again (from_body r) ≡ ok c)
  after_ensure_known cfg again (err (newer x)) h = absurd (h x refl)
  after_ensure_known cfg again (err (no_migration x)) h = (cfg, refl)
  after_ensure_known cfg again (err unreadable) h = (cfg, refl)
  after_ensure_known cfg again (err migration_failed) h = (cfg, refl)
  after_ensure_known cfg again (ok false) h = (cfg, refl)
  after_ensure_known cfg (ok migrated) (ok true) h = (migrated, refl)
  after_ensure_known cfg (err e) (ok true) h = (cfg, refl)

  loaded_known :
      (text : Bytes) (explicit : Bool) (cfg : Config) (again : Result Bytes Config)
      → ltb_ℤ current_version (detect_schema_version text) ≡ false
      → (c : Config) × (load_config held (some text) explicit (ok cfg) again ≡ some (ok c))
  unfolding load_config load_existing ensure_with_lock
  loaded_known text explicit cfg again below =
      let ((r, out), ran, how) = ensure_schema_total sys reread a text in
      let (c, same) = after_ensure_known cfg again r (λ x e.
        ensure_schema_known sys reread a text out x below (ran ∙ ap (λ y. some (y, out)) e)) in
      (c, rw (ran, load_config, load_existing, ensure_with_lock) (ap some same))

  loaded_held :
      (text : Bytes) (explicit : Bool) (cfg : Config) (again : Result Bytes Config)
      → ((ltb_ℤ current_version (detect_schema_version text) ≡ true)
          × (load_config held (some text) explicit (ok cfg) again
              ≡ some (err (schema_newer (detect_schema_version text)))))
        ⊎ ((ltb_ℤ current_version (detect_schema_version text) ≡ false)
            × ((c : Config) × (load_config held (some text) explicit (ok cfg) again ≡ some (ok c))))
  unfolding load_config load_existing ensure_with_lock
  loaded_held text explicit cfg again =
      elim (Bool-cases (ltb_ℤ current_version (detect_schema_version text))) [
        | inl above ↦ inl (
          above,
          rw
              (
                ensure_schema_newer sys reread a text above,
                load_config,
                load_existing,
                ensure_with_lock,
              )
              refl,
        )
        | inr below ↦ inr (below, loaded_known text explicit cfg again below)
      ]

  -- A file that exists and loads, and that no other process changes meanwhile: if the lock is
  -- taken and the file is read under it, the file is refused exactly if its version is newer than
  -- the program's, with that version as the error, and any other gives a configuration, whether
  -- its migration succeeds or not; if the lock is not taken, or the file cannot be read under it,
  -- the configuration that was loaded is used, whatever the version.
  pub load_config-cases :
      (locking : Locking) (text : Bytes) (explicit : Bool) (cfg : Config)
      (again : Result Bytes Config)
      → ((locking ≡ held)
          × (((ltb_ℤ current_version (detect_schema_version text) ≡ true)
                × (load_config locking (some text) explicit (ok cfg) again
                    ≡ some (err (schema_newer (detect_schema_version text)))))
              ⊎ ((ltb_ℤ current_version (detect_schema_version text) ≡ false)
                  × ((c : Config) × (load_config locking (some text) explicit (ok cfg) again
                        ≡ some (ok c))))))
        ⊎ ((¬ (locking ≡ held))
            × (load_config locking (some text) explicit (ok cfg) again ≡ some (ok cfg)))
  unfolding load_config load_existing ensure_with_lock
  load_config-cases held text explicit cfg again = inl (refl, loaded_held text explicit cfg again)
  load_config-cases unreadable_then text explicit cfg again = inr ((λ e. cc), refl)
  load_config-cases not_locked text explicit cfg again = inr ((λ e. cc), refl)
