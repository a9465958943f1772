-- ===== src/Backup/Trace.antt =====
-- What a backup does to the temporary file and to the bucket.
use mathlib.Core.List.{append_assoc}
use one_crew.Common.{ℕ, ◌≡◌, refl, ◌⊎◌, inl, inr, String, List, [], ◌∷◌, ◌++◌}
use one_crew.Common.Dict.{Dict}
use one_crew.Common.Texts.{◌&◌, join_with, Attempt, returns, throws}
use one_crew.Backup.{
  BackupConfig, Loaded, ready, lacking, load_backup_config, Utc, Effect, dumped, put, destroyed,
  unlinked, Machine, BackupRunResult, World, build_backup_filename, run_pg_dump_to_file,
  upload_to_bucket, uploaded, sized, after_dump, cleaned, backed_up, run_backup,
}

module _ (m : Machine) where
  abbrev Throws : Attempt BackupRunResult → Type 0
  Throws r = (e : String) × (r ≡ throws e)

  abbrev Names : String → Attempt BackupRunResult → Type 0
  Names name (throws e) = Unit
  Names name (returns x) = x.filename ≡ name

  -- The part of a run between the dump and the clean-up: nothing is put and the run fails, or one
  -- object is put, under the name of the file, and the client is destroyed.
  abbrev pub Uploads :
      BackupConfig → String → String → World m → Attempt BackupRunResult × World m → Type 0
  Uploads config path name w r =
      (((r.1.log ≡ w.log) × Throws r.0)
        ⊎ (r.1.log ≡ w.log ++ put config.bucket name path ∷ destroyed ∷ []))
      × Names name r.0

  uploaded-Names :
      (name : String) (size : ℕ) (r : Attempt (Unit {0}) × World m)
      → Names name (uploaded m name size r).0
  uploaded-Names name size (throws e, w) = tt
  uploaded-Names name size (returns u, w) = refl

  log-uploaded :
      (name : String) (size : ℕ) (r : Attempt (Unit {0}) × World m)
      → (uploaded m name size r).1.log ≡ r.1.log
  log-uploaded name size (throws e, w) = refl
  log-uploaded name size (returns u, w) = refl

  sized-Uploads :
      (config : BackupConfig) (path name : String) (size : Attempt ℕ) (w : World m)
      → Uploads config path name w (sized m config path name size w)
  sized-Uploads config path name (throws e) w = (inl (refl, (e, refl)), tt)
  sized-Uploads config path name (returns size) w =
      let r = upload_to_bucket m config path name w in
      (inr (log-uploaded name size r), uploaded-Names name size r)

  after_dump-Uploads :
      (config : BackupConfig) (path name : String) (r : Attempt (Unit {0}) × World m)
      → Uploads config path name r.1 (after_dump m config path name r)
  after_dump-Uploads config path name (throws e, w) = (inl (refl, (e, refl)), tt)
  after_dump-Uploads config path name (returns u, w) =
      sized-Uploads config path name (m.size_of path w.state) w

  -- The trace of a whole run, given the effects between the dump and the clean-up.
  abbrev pub Leaves :
      BackupConfig
      → String
      → String
      → World m
      → List Effect
      → Attempt BackupRunResult × World m
      → Type 0
  Leaves config path name w middle r =
      (r.1.log ≡ w.log ++ dumped path ∷ (middle ++ unlinked path ∷ []))
      × (((middle ≡ []) × Throws r.0) ⊎ (middle ≡ put config.bucket name path ∷ destroyed ∷ []))
      × Names name r.0

  abbrev pub Backs :
      Dict String → Utc → World m → Loaded → Attempt BackupRunResult × World m → Type 0
  Backs env now w (lacking ks) r = r ≡ (throws ("Missing backup env vars: " & join_with ", " ks), w)
  Backs env now w (ready config) r =
      let name = build_backup_filename m now in
      (middle : List Effect) × Leaves config (m.temp_path name) name w middle r

  cleaned-Leaves :
      (config : BackupConfig) (path name : String) (w : World m)
      (r : Attempt BackupRunResult × World m)
      → Uploads config path name (run_pg_dump_to_file m config.database_url path w).1 r
      → (middle : List Effect) × Leaves config path name w middle (cleaned m path r)
  cleaned-Leaves config path name w r (inl (same, fails), names) =
      ([], (rw same (append_assoc w.log _ _), inl (refl, fails), names))
  cleaned-Leaves config path name w r (inr done, names) = (
    put config.bucket name path ∷ destroyed ∷ [],
    (
      rw (done, append_assoc (w.log ++ dumped path ∷ []) _ _, append_assoc w.log _ _) refl,
      inr refl,
      names,
    ),
  )

  loaded-Backs :
      (env : Dict String) (now : Utc) (w : World m) (l : Loaded)
      → Backs env now w l (backed_up m now l w)
  loaded-Backs env now w (lacking ks) = refl
  loaded-Backs env now w (ready config) =
      let name = build_backup_filename m now in
      let path = m.temp_path name in
      let r = run_pg_dump_to_file m config.database_url path w in
      cleaned-Leaves config path name w (after_dump m config path name r)
        (after_dump-Uploads config path name r)

  -- Without one of the five variables a run throws the list of those that are missing, and does
  -- nothing. With them, however the dump, the upload and the clean-up end, the temporary file is dumped
  -- first and unlinked last, once each; in between at most one object is put, from that file and under
  -- its name, after which the client is destroyed; without it the run throws, and a run that returns
  -- names the file.
  pub backup_trace :
      (env : Dict String) (now : Utc) (w : World m)
      → Backs env now w (load_backup_config env) (run_backup m env now w)
  unfolding run_backup
  backup_trace env now w = loaded-Backs env now w (load_backup_config env)
