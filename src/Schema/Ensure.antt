-- ===== src/Schema/Ensure.antt =====
-- `ensureSchemaLocked`: the chain of migrations on the file's content. `EnsureSchema` runs it while
-- it holds the lock file.
use true_dns.Base.{
  ℕ, zero, suc, ◌≡◌, refl, inl, inr, ◌⊎◌, Bool, true, false, Option, none, some, arith,
  if◌then◌else◌, Bool-cases, ℤ, pos, negsuc, ltb_ℤ, leb_ℤ, ◌+ℤ◌, ◌&&◌, ap, ◌∙◌, sym,
}
use true_dns.Base.Result.{Result, ok, err}
use true_dns.Text.{Bytes}
use true_dns.Text.Lines.{split_lines}
use true_dns.Schema.Detect.{detect_schema_version, migrate_text, first_group}
use true_dns.Schema.Stamp.{IsLegacy, detect_schema_version-migrate_text}
use true_dns.Schema.Write.{
  System, windows, Attempt, atomic_write, IsWritten, atomic_write-IsWritten,
}

pub data SchemaError : Type 0 where
  newer no_migration : ℤ → SchemaError
  unreadable migration_failed : SchemaError

-- `CurrentSchemaVersion`
abbrev pub current_version : ℤ
current_version = pos 1

-- the error or whether a migration was applied, and the content of the file
abbrev pub Ensured : Type 0
Ensured = Result SchemaError Bool × Bytes

-- `a == b` of two versions
abbrev pub eq_ℤ : ℤ → ℤ → Bool
eq_ℤ a b = leb_ℤ a b && leb_ℤ b a

module _ (sys : System) (reread : Bool) (a : Attempt) where
  -- `migrateV0toV1`: `reread` says whether the file can be read again
  unfoldable pub migrate_v0_to_v1 : Bytes → Bool × Bytes
  migrate_v0_to_v1 text =
      if reread then atomic_write sys a (migrate_text text) text else (false, text)

  -- the loop, with fuel; the only migration starts at version 0
  unfoldable pub ensure_loop : ℕ → ℤ → Bool → Bytes → Option Ensured
  unfolding migrate_v0_to_v1
  ensure_loop zero v migrated text = none
  ensure_loop (suc fuel) v migrated text =
      let (done, out) = migrate_v0_to_v1 text in
      let rest = ensure_loop fuel (v +ℤ pos 1) true out in
      if ltb_ℤ v current_version
      then if eq_ℤ v (pos 0)
        then if done then rest else some (err migration_failed, out)
        else some (err (no_migration v), text)
      else some (ok migrated, text)

  -- `ensureSchemaLocked` from the version that is detected on. Two rounds are fuel enough.
  unfoldable pub ensure_from : ℤ → Bytes → Option Ensured
  unfolding ensure_loop
  ensure_from v text =
      if ltb_ℤ current_version v then some (err (newer v), text) else ensure_loop 2 v false text

  -- `ensureSchemaLocked` on a file that can be read
  unfoldable pub ensure_schema : Bytes → Option Ensured
  unfolding ensure_from
  ensure_schema text = ensure_from (detect_schema_version text) text

  -- How it may end on a file of version `v`: with the current version and nothing done; with a
  -- migration from version 0 that is written; with an error and the file as it was; or with an
  -- error in a migration on Windows, after the rewrite in place began.
  abbrev pub IsEnsured : ℤ → Bytes → Ensured → Type 0
  IsEnsured v text out =
      ((v ≡ current_version) × (out ≡ (ok false, text)))
      ⊎ ((v ≡ pos 0) × (out ≡ (ok true, migrate_text text)))
      ⊎ ((e : SchemaError) × (out ≡ (err e, text)))
      ⊎ ((sys ≡ windows) × (out.0 ≡ err migration_failed))

  -- what is left after the one migration
  abbrev after_migration : Bool × Bytes → Ensured
  after_migration (true, out) = (ok true, out)
  after_migration (false, out) = (err migration_failed, out)

  ensure_loop-zero :
      (text : Bytes)
      → ensure_loop 2 (pos 0) false text ≡ some (after_migration (migrate_v0_to_v1 text))
  unfolding ensure_loop ◌+ℤ◌
  ensure_loop-zero text = ground arith

  migrate_v0_to_v1-IsWritten :
      (text : Bytes) → IsWritten sys (migrate_text text) text (migrate_v0_to_v1 text)
  unfolding migrate_v0_to_v1
  migrate_v0_to_v1-IsWritten text = elim (Bool-cases reread) [
    | inl b ↦ rw b (atomic_write-IsWritten sys a (migrate_text text) text)
    | inr b ↦ rw b (inr (inl refl))
  ]

  after_migration-IsEnsured :
      (text : Bytes) (out : Bool × Bytes)
      → IsWritten sys (migrate_text text) text out
      → IsEnsured (pos 0) text (after_migration out)
  after_migration-IsEnsured text out (inl e) = inr (inl (refl, ap after_migration e))
  after_migration-IsEnsured text out (inr (inl e)) =
      inr (inr (inl (migration_failed, ap after_migration e)))
  after_migration-IsEnsured text (done, out) (inr (inr (win, e))) =
      inr (inr (inr (win, ap (λ d. (after_migration (d, out)).0) e)))

  settled : (text : Bytes) → ensure_from (pos 1) text ≡ some (ok false, text)
  unfolding ensure_from ensure_loop
  settled text = refl

  ensure_from_total :
      (v : ℤ) (text : Bytes)
      → (out : Ensured) × (ensure_from v text ≡ some out) × IsEnsured v text out
  unfolding ensure_from ensure_loop
  ensure_from_total (pos zero) text = (
    after_migration (migrate_v0_to_v1 text),
    ensure_loop-zero text,
    after_migration-IsEnsured text (migrate_v0_to_v1 text) (migrate_v0_to_v1-IsWritten text),
  )
  ensure_from_total (pos (suc zero)) text = ((ok false, text), refl, inl (refl, refl))
  ensure_from_total (pos (suc (suc n))) text =
      ((err (newer (pos (suc (suc n)))), text), ground arith, inr (inr (inl (_, refl))))
  ensure_from_total (negsuc n) text =
      ((err (no_migration (negsuc n)), text), ground arith, inr (inr (inl (_, refl))))

  -- The chain of migrations ends within its two rounds, and in one of four ways: the file has the
  -- current version and is left alone; it had version 0 and is replaced by its migration; there
  -- is an error and the file is as it was; or, on Windows only, a migration broke off while it
  -- rewrote the file in place.
  pub ensure_schema_total :
      (text : Bytes)
      → (out : Ensured) × (ensure_schema text ≡ some out)
        × IsEnsured (detect_schema_version text) text out
  unfolding ensure_schema
  ensure_schema_total text = ensure_from_total (detect_schema_version text) text

  -- A migration is done once: where it has succeeded on a file without a version, or whose first
  -- version is the digit 0 alone, a second run finds the current version and changes nothing.
  pub ensure_schema_idem :
      (text : Bytes) {out : Bytes}
      → IsLegacy (first_group (split_lines text))
      → ensure_schema text ≡ some (ok true, out)
      → ensure_schema out ≡ some (ok false, out)
  unfolding ensure_schema
  ensure_schema_idem text {out} legacy run =
      let (res, ran, how) = ensure_from_total (detect_schema_version text) text in
      let same : res ≡ (ok true, out) = ground arith in
      elim how [
        | inl (v, e) ↦ ground arith
        | inr (inl (v, e)) ↦
            let written : migrate_text text ≡ out = ground arith in
            let current : detect_schema_version out ≡ pos 1 =
              ap detect_schema_version (sym written)
              ∙ detect_schema_version-migrate_text text legacy in
            rw current (settled out)
        | inr (inr (inl (x, e))) ↦ ground arith
        | inr (inr (inr (win, e))) ↦ ground arith
      ]

  -- The loop reports no newer version.
  pub ensure_loop-newer :
      (fuel : ℕ) (v x : ℤ) (migrated : Bool) (text out : Bytes)
      → ¬ (ensure_loop fuel v migrated text ≡ some (err (newer x), out))
  unfolding ensure_loop
  ensure_loop-newer zero v x migrated text out = λ h. ground arith
  ensure_loop-newer (suc fuel) v x migrated text out =
      let rest = ensure_loop-newer fuel (v +ℤ pos 1) x true (migrate_v0_to_v1 text).1 out in
      elim (Bool-cases (ltb_ℤ v current_version)) [
        | inr b ↦ λ h. ground arith
        | inl b ↦ elim (Bool-cases (eq_ℤ v (pos 0))) [
          | inr z ↦ λ h. ground arith
          | inl z ↦ elim (Bool-cases (migrate_v0_to_v1 text).0) [
            | inr d ↦ λ h. ground arith
            | inl d ↦ λ h. rest (ground arith)
          ]
        ]
      ]

  pub ensure_schema_newer :
      (text : Bytes)
      → ltb_ℤ current_version (detect_schema_version text) ≡ true
      → ensure_schema text ≡ some (err (newer (detect_schema_version text)), text)
  unfolding ensure_schema ensure_from
  ensure_schema_newer text above = rw (above, ensure_from) refl

  pub ensure_schema_known :
      (text out : Bytes) (x : ℤ)
      → ltb_ℤ current_version (detect_schema_version text) ≡ false
      → ¬ (ensure_schema text ≡ some (err (newer x), out))
  unfolding ensure_schema ensure_from
  ensure_schema_known text out x below = λ h.
      ensure_loop-newer 2 (detect_schema_version text) x false text out
        (sym (rw (below, ensure_from) refl) ∙ h)
