-- ===== src/Backup.antt =====
-- scripts/backup.ts and scripts/backup-cron.ts: a dump of the database is put into a bucket. `pg_dump`,
-- the file system, the client of the bucket and the functions of JavaScript are the record `Machine`.
-- A state keeps what was done to the file and the bucket.
pub mod Trace
mod Tests
use one_crew.Common.{
  ℕ, suc, ◌+◌, String, Bool, true, false, Option, none, some, List, [], ◌∷◌, ◌++◌, str_eq, ◌==◌,
  if◌then◌else◌,
}
use one_crew.Common.Dict.{Dict, get}
use one_crew.Common.Texts.{◌&◌, join_with, Attempt, returns, throws}

-- `REQUIRED_ENV_KEYS`
abbrev pub required_env_keys : List String
required_env_keys =
    "DATABASE_URL" ∷ "BACKUP_STORAGE_URL" ∷ "BACKUP_BUCKET_NAME" ∷ "BACKUP_ACCESS_KEY_ID"
    ∷ "BACKUP_SECRET_ACCESS_KEY" ∷ []

pub record BackupConfig : Type 0 where
  pub database_url : String
  pub endpoint : String
  pub bucket : String
  pub access_key_id : String
  pub secret_access_key : String
  pub region : String

-- The result of `loadBackupConfig`.
pub data Loaded : Type 0 where
  ready : BackupConfig → Loaded
  lacking : List String → Loaded

abbrev pub is_unset : Option String → Bool
is_unset none = true
is_unset (some v) = str_eq v ""

abbrev pub missing_of : Dict String → List String → List String
missing_of env [] = []
missing_of env (k ∷ ks) =
    let rest = missing_of env ks in if is_unset (get k env) then k ∷ rest else rest

abbrev or_text : String → Option String → String
or_text d none = d
or_text d (some v) = v

abbrev pub config_of : Dict String → BackupConfig
config_of env = record {
  database_url = or_text "" (get "DATABASE_URL" env);
  endpoint = or_text "" (get "BACKUP_STORAGE_URL" env);
  bucket = or_text "" (get "BACKUP_BUCKET_NAME" env);
  access_key_id = or_text "" (get "BACKUP_ACCESS_KEY_ID" env);
  secret_access_key = or_text "" (get "BACKUP_SECRET_ACCESS_KEY" env);
  region = or_text "auto" (get "BACKUP_REGION" env);
}

abbrev pub loaded : Dict String → List String → Loaded
loaded env [] = ready (config_of env)
loaded env (k ∷ ks) = lacking (k ∷ ks)

unfoldable pub load_backup_config : Dict String → Loaded
load_backup_config env = loaded env (missing_of env required_env_keys)

abbrev is_ready : Loaded → Bool
is_ready (ready c) = true
is_ready (lacking ks) = false

unfoldable pub is_backup_configured : Dict String → Bool
unfolding load_backup_config
is_backup_configured env = is_ready (load_backup_config env)

-- The UTC components of a date; a month counts from 0.
pub record Utc : Type 0 where
  pub year : ℕ
  pub month : ℕ
  pub day : ℕ
  pub hours : ℕ
  pub minutes : ℕ
  pub seconds : ℕ

-- How `pg_dump` ends: with a code or a signal, and with what it wrote to its error output.
pub data DumpExit : Type 0 where
  not_spawned : String → DumpExit
  exited : (code : ℕ) → (stderr : String) → DumpExit
  killed : (signal stderr : String) → DumpExit

-- What is done to the temporary file and to the bucket.
pub data Effect : Type 0 where
  dumped : (path : String) → Effect
  put : (bucket key path : String) → Effect
  destroyed : Effect
  unlinked : (path : String) → Effect

pub record Machine : Type 1 where
  pub State : Type 0
  -- How the child ends, and how the pipeline of its output into the file does.
  pub pg_dump : String → String → State → (DumpExit × Attempt (Unit {0})) × State
  pub size_of : String → State → Attempt ℕ
  pub send : BackupConfig → String → String → State → Attempt (Unit {0}) × State
  pub unlink : String → State → Attempt (Unit {0}) × State
  pub temp_path : String → String
  pub decimal : ℕ → String
  pub pad_zeros : ℕ → String → String
  pub trim : String → String

pub record BackupRunResult : Type 0 where
  pub filename : String
  pub size_bytes : ℕ

module _ (m : Machine) where
  open m use {State, pg_dump, size_of, send, unlink, temp_path, decimal, pad_zeros, trim}

  pub record World : Type 0 where
    pub state : State
    pub log : List Effect

  unfoldable pub build_backup_filename : Utc → String
  build_backup_filename now =
      "backup-"
      & pad_zeros 4 (decimal now.year)
      & "-"
      & pad_zeros 2 (decimal (now.month + 1))
      & "-"
      & pad_zeros 2 (decimal now.day)
      & "-"
      & pad_zeros 2 (decimal now.hours)
      & pad_zeros 2 (decimal now.minutes)
      & pad_zeros 2 (decimal now.seconds)
      & ".sql.gz"

  abbrev exit_message : String → String → String → String
  exit_message code signal stderr =
      "pg_dump exited with code=" & code & " signal=" & signal & ": " & trim stderr

  abbrev exit_result : DumpExit → Attempt (Unit {0})
  exit_result (not_spawned e) = throws e
  exit_result (exited code stderr) =
      if code == 0 then returns tt else throws (exit_message (decimal code) "none" stderr)
  exit_result (killed signal stderr) = throws (exit_message "null" signal stderr)

  -- `Promise.all`: of two errors, the pipeline's stands for whichever comes first.
  abbrev both : Attempt (Unit {0}) → Attempt (Unit {0}) → Attempt (Unit {0})
  both (throws e) b = throws e
  both (returns u) b = b

  abbrev pub run_pg_dump_to_file : String → String → World → Attempt (Unit {0}) × World
  run_pg_dump_to_file url path w =
      let (ends, s) = pg_dump url path w.state in
      (both ends.1 (exit_result ends.0), record { state = s; log = w.log ++ dumped path ∷ [] })

  -- The client is destroyed however the upload ends.
  abbrev pub upload_to_bucket : BackupConfig → String → String → World → Attempt (Unit {0}) × World
  upload_to_bucket config path key w =
      let (r, s) = send config path key w.state in
      (r, record { state = s; log = w.log ++ put config.bucket key path ∷ destroyed ∷ [] })

  abbrev pub uploaded : String → ℕ → Attempt (Unit {0}) × World → Attempt BackupRunResult × World
  uploaded name size (throws e, w) = (throws e, w)
  uploaded name size (returns u, w) = (returns (record { filename = name; size_bytes = size }), w)

  abbrev pub sized :
      BackupConfig → String → String → Attempt ℕ → World → Attempt BackupRunResult × World
  sized config path name (throws e) w = (throws e, w)
  sized config path name (returns size) w = uploaded name size (upload_to_bucket config path name w)

  abbrev pub after_dump :
      BackupConfig → String → String → Attempt (Unit {0}) × World → Attempt BackupRunResult × World
  after_dump config path name (throws e, w) = (throws e, w)
  after_dump config path name (returns u, w) = sized config path name (size_of path w.state) w

  -- The `finally` of `runBackup`, which swallows the error of `unlink`.
  abbrev pub cleaned : String → Attempt BackupRunResult × World → Attempt BackupRunResult × World
  cleaned path (r, w) =
      let (u, s) = unlink path w.state in
      (r, record { state = s; log = w.log ++ unlinked path ∷ [] })

  abbrev pub backed_up : Utc → Loaded → World → Attempt BackupRunResult × World
  backed_up now (lacking ks) w = (throws ("Missing backup env vars: " & join_with ", " ks), w)
  backed_up now (ready config) w =
      let name = build_backup_filename now in
      let path = temp_path name in
      cleaned path (after_dump config path name (run_pg_dump_to_file config.database_url path w))

  unfoldable pub run_backup : Dict String → Utc → World → Attempt BackupRunResult × World
  unfolding build_backup_filename load_backup_config
  run_backup env now w = backed_up now (load_backup_config env) w

-- What importing the scheduler does, given whether cron takes the schedule `0 2 * * *`.
pub data Scheduling : Type 0 where
  skipped : List String → Scheduling
  not_scheduled scheduled : Scheduling

unfoldable pub schedule_backup : Bool → Dict String → Scheduling
unfolding load_backup_config
schedule_backup is_valid env = elim (load_backup_config env) [
  | lacking ks ↦ skipped ks
  | ready c ↦ if is_valid then scheduled else not_scheduled
]
