-- ===== src/Cli/Examples.antt =====
-- Runs of the commands, and the theorems about them at concrete inputs.
use true_dns.Base.{◌≡◌, ◌⊎◌, refl, true, false, some, List, [], ◌∷◌, pos, ◌-◌, length, drop, ltb_ℤ}
use true_dns.Base.Result.{ok, err}
use true_dns.Text.{Bytes, codes}
use true_dns.Config.Defs.{Config, default}
use true_dns.Schema.Detect.{detect_schema_version}
use true_dns.Schema.Write.{other_system, not_opened, Attempt}
use true_dns.Schema.Ensure.{current_version}
use true_dns.Cli.Logs.{cmd_logs, scan_lines, cmd_logs_last}
use true_dns.Cli.Load.{load_config, held, schema_newer, load_config-cases}

abbrev log : List Bytes
log = codes "a" ∷ codes "b" ∷ codes "c" ∷ []

cmd_logs_last_example : cmd_logs (pos 2) true log ≡ some (ok (drop (length log - 2) log))
cmd_logs_last_example = cmd_logs_last 2 log

log_run : cmd_logs (pos 2) true log ≡ some (ok (codes "b" ∷ codes "c" ∷ []))
unfolding cmd_logs scan_lines
log_run = refl

abbrev attempt : Attempt
attempt = record {
  stat_ok = true;
  created = true;
  written = true;
  chmod_ok = true;
  closed = true;
  renamed = λ i. true;
  in_place = not_opened;
}

abbrev newer_file : Bytes
newer_file = codes "schema_version = 2"

load_config-cases_example :
    ((held ≡ held)
      × (((ltb_ℤ current_version (detect_schema_version newer_file) ≡ true)
            × (load_config other_system true attempt held
                  (some newer_file)
                  false
                  (ok default)
                  (ok default)
                ≡ some (err (schema_newer (detect_schema_version newer_file)))))
          ⊎ ((ltb_ℤ current_version (detect_schema_version newer_file) ≡ false)
              × ((c : Config) × (load_config other_system true attempt held
                      (some newer_file)
                      false
                      (ok default)
                      (ok default)
                    ≡ some (ok c))))))
    ⊎ ((¬ (held ≡ held))
        × (load_config other_system true attempt held
              (some newer_file)
              false
              (ok default)
              (ok default)
            ≡ some (ok default)))
load_config-cases_example =
    load_config-cases other_system true attempt held newer_file false default (ok default)
