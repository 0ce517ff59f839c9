-- ===== src/Schema/Examples.antt =====
-- Migrations of small files, and the theorems at these files.
use true_dns.Base.{zero, suc, ◌≡◌, ◌⊎◌, refl, inr, true, false, some, [], ◌∷◌, ◌++◌, ◌+ℤ◌}
use true_dns.Base.Result.{ok}
use true_dns.Text.{Bytes, codes, trim_suffix, has_prefix, trim_prefix, bytes_eq}
use true_dns.Text.Lines.{split_lines, join_lines}
use true_dns.Schema.Detect.{
  detect_schema_version, migrate_text, first_group, version_group, skip_blanks, take_digits,
  digits_value, stamped_line, stamp_comment, stamp_lines,
}
use true_dns.Schema.Stamp.{IsRestamped, migrate_text_keeps}
use true_dns.Schema.Write.{
  windows, other_system, not_opened, broke_off, Attempt, atomic_write, retry_rename,
}
use true_dns.Schema.Ensure.{
  Ensured, ensure_schema, ensure_from, ensure_loop, migrate_v0_to_v1, IsEnsured,
  ensure_schema_total, ensure_schema_idem,
}
use true_dns.Base.{none, List, All}
use true_dns.Schema.Lock.{
  Lock, Call, one, two, create, stat, remove, release, holds, calls, unlocked, is_age,
  calls_exclusive,
}

-- a file with an explicit version 0, between two other lines
abbrev old_file : Bytes
old_file = codes "a = 1" ++ (b'\n' ∷ (codes "schema_version = 0 # x" ++ (b'\n' ∷ codes "b = 2")))

abbrev new_file : Bytes
new_file = codes "a = 1" ++ (b'\n' ∷ (codes "schema_version = 1" ++ (b'\n' ∷ codes "b = 2")))

-- the third rename succeeds
abbrev attempt : Attempt
attempt = record {
  stat_ok = true;
  created = true;
  written = true;
  chmod_ok = true;
  closed = true;
  renamed = λ i. elim i [ zero ↦ false | suc zero ↦ false | suc (suc j) ↦ true ];
  in_place = not_opened;
}

old_file_legacy : first_group (split_lines old_file) ≡ some (b'0' ∷ [])
unfolding first_group split_lines version_group trim_suffix has_prefix trim_prefix skip_blanks
    take_digits
old_file_legacy = refl

old_file_migrated : migrate_text old_file ≡ new_file
unfolding migrate_text stamp_lines split_lines join_lines version_group trim_suffix has_prefix
    trim_prefix skip_blanks take_digits bytes_eq
old_file_migrated = refl

migrate_text_keeps_example :
    IsRestamped (split_lines old_file) (split_lines (migrate_text old_file))
    ⊎ (split_lines (migrate_text old_file)
        ≡ stamp_comment ∷ stamped_line ∷ [] ∷ split_lines old_file)
migrate_text_keeps_example = migrate_text_keeps old_file

-- On Windows, a rewrite in place that breaks off leaves a part of the text.
cut_short :
    atomic_write windows
      (record attempt { renamed = λ i. false; in_place = broke_off (codes "a") })
      new_file
      old_file
    ≡ (false, codes "a")
unfolding atomic_write retry_rename
cut_short = refl

ensure_schema_total_example :
    (out : Ensured) × (ensure_schema other_system true attempt old_file ≡ some out)
    × IsEnsured other_system true attempt (detect_schema_version old_file) old_file out
ensure_schema_total_example = ensure_schema_total other_system true attempt old_file

old_file_run : ensure_schema other_system true attempt old_file ≡ some (ok true, new_file)
unfolding ensure_schema ensure_from ensure_loop migrate_v0_to_v1 atomic_write retry_rename
    detect_schema_version digits_value first_group migrate_text stamp_lines split_lines join_lines
    version_group trim_suffix has_prefix trim_prefix skip_blanks take_digits bytes_eq ◌+ℤ◌
old_file_run = refl

ensure_schema_idem_example :
    ensure_schema other_system true attempt new_file ≡ some (ok false, new_file)
ensure_schema_idem_example =
    ensure_schema_idem other_system true attempt old_file (inr old_file_legacy) old_file_run

abbrev both_try : List Call
both_try = create one ∷ create two ∷ stat two ∷ release one ∷ create two ∷ []

both_try_young : All (λ c. is_age c ≡ false) both_try
both_try_young = (refl, (refl, (refl, (refl, (refl, tt)))))

calls_exclusive_example :
    ¬ (((calls both_try unlocked).first ≡ holds) × ((calls both_try unlocked).second ≡ holds))
calls_exclusive_example = calls_exclusive both_try both_try_young

both_try_run : (calls both_try unlocked).second ≡ holds
unfolding calls
both_try_run = refl

-- Two processes find the lock of a crashed one old, and the second removes that of the first.
abbrev crashed_lock : Lock
crashed_lock = record unlocked { file = some none; old = true }

stale_race :
    calls
      (stat one ∷ stat two ∷ remove one ∷ create one ∷ remove two ∷ create two ∷ [])
      crashed_lock
    ≡ record { file = some (some two); old = false; first = holds; second = holds }
unfolding calls
stale_race = refl
