-- ===== src/Backup/Tests.antt =====
-- A backup on a machine that counts the objects of its bucket, and one whose dump fails.
use one_crew.Common.{ℕ, suc, ◌≡◌, refl, String, true, [], ◌∷◌}
use one_crew.Common.Dict.{Dict, get}
use one_crew.Common.Texts.{returns, throws}
use one_crew.Backup.{
  Machine, Utc, World, exited, load_backup_config, run_backup, dumped, put, destroyed, unlinked,
  schedule_backup, skipped,
}
use one_crew.Backup.Trace.{Backs, backup_trace}

abbrev machine : ℕ → Machine
machine code = record {
  State = ℕ;
  pg_dump = λ url path n. ((exited code "no server", returns tt), n);
  size_of = λ path n. returns 512;
  send = λ config path key n. (returns tt, suc n);
  unlink = λ path n. (throws "ENOENT", n);
  temp_path = λ name. name;
  decimal = λ n. "1";
  pad_zeros = λ width s. s;
  trim = λ s. s;
}

abbrev env : Dict String
env =
    ("DATABASE_URL", "postgresql://db")
    ∷ ("BACKUP_STORAGE_URL", "https://s3")
    ∷ ("BACKUP_BUCKET_NAME", "b")
    ∷ ("BACKUP_ACCESS_KEY_ID", "k")
    ∷ ("BACKUP_SECRET_ACCESS_KEY", "s")
    ∷ []

abbrev now : Utc
now = record { year = 1; month = 0; day = 1; hours = 1; minutes = 1; seconds = 1 }

abbrev idle : (code : ℕ) → World (machine code)
idle code = record { state = 0; log = [] }

backed :
    (run_backup (machine 0) env now (idle 0)).1.log
    ≡ dumped "backup-1-1-1-111.sql.gz"
      ∷ put "b" "backup-1-1-1-111.sql.gz" "backup-1-1-1-111.sql.gz"
      ∷ destroyed
      ∷ unlinked "backup-1-1-1-111.sql.gz"
      ∷ []
unfolding run_backup get
backed = refl

failed_dump :
    (run_backup (machine 1) env now (idle 1)).1.log
    ≡ dumped "backup-1-1-1-111.sql.gz" ∷ unlinked "backup-1-1-1-111.sql.gz" ∷ []
unfolding run_backup get
failed_dump = refl

not_configured :
    schedule_backup true (("BACKUP_BUCKET_NAME", "") ∷ env) ≡ skipped ("BACKUP_BUCKET_NAME" ∷ [])
unfolding schedule_backup get
not_configured = refl

backup_trace_example :
    Backs
      (machine 0)
      env
      now
      (idle 0)
      (load_backup_config env)
      (run_backup (machine 0) env now (idle 0))
backup_trace_example = backup_trace (machine 0) env now (idle 0)
