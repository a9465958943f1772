-- ===== src/Startup.antt =====
-- scripts/railway-start.ts: the start of a container. The variables of the environment are normalised,
-- the schema is applied by child processes, the database may be seeded, and the server is started.
-- What a child process does is a parameter, and so are the functions of JavaScript on texts, the
-- matches of the two regular expressions and the listing of the directory of migrations. A state
-- keeps the commands that were run, each with whether it exited with zero.
mod Keeps
pub mod Consent
pub mod Order
mod Tests
use one_crew.Common.{
  ℕ, String, Bool, true, false, not, Option, none, some, List, [], ◌∷◌, ◌++◌, map, keep, str_eq,
  ◌==◌, if◌then◌else◌,
}
use one_crew.Common.Dict.{Dict, get, set}
use one_crew.Common.TextSet.{has}
use one_crew.Common.Split.{split_at}
use one_crew.Common.Substring.{includes}
use one_crew.Common.Texts.{◌&◌}

pub data Command : Type 0 where
  db_push : Command
  migrate_deploy : Command
  resolve_applied : String → Command
  migrate_reset : Command
  resolve_rolled_back : String → Command
  run_seed : Command
  run_server : Command

-- How a child process ends: with a code, by a signal, or never having been spawned. The texts are what
-- it wrote to its two outputs.
pub data Exit : Type 0 where
  exited : ℕ → String → String → Exit
  killed : String → String → Exit
  not_spawned : Exit

pub data StartError : Type 0 where
  no_database_url : StartError
  command_failed : Command → StartError
  baseline_needed : StartError
  unknown_migrations : List String → StartError
  no_failed_name : StartError
  failed_migration : Option String → StartError
  deploy_failed : StartError

pub data Step {ℓ} (A : Type ℓ) : Type ℓ where
  next : A → Step A
  stopped : StartError → Step A

abbrev pub Env : Type 0
Env = Dict String

abbrev pub database_url_keys : List String
database_url_keys =
    "DATABASE_URL" ∷ "POSTGRES_URL" ∷ "POSTGRES_PRISMA_URL" ∷ "DATABASE_PRIVATE_URL"
    ∷ "DATABASE_PUBLIC_URL" ∷ []

-- What the script takes from JavaScript and from the file system: `exec1` and `exec2` are the first
-- group of a match of the two patterns, a directory's entry is a name and whether it is a directory
-- (nothing if `statSync` throws), and the list of entries is nothing if `readdirSync` throws.
pub record Platform : Type 1 where
  pub State : Type 0
  pub spawn : Command → State → Exit × State
  pub trim : String → String
  pub lower : String → String
  pub uri : String → String
  pub sort : List String → List String
  pub exec1 : String → Option String
  pub exec2 : String → Option String
  pub entries : Option (List (String × Option Bool))

-- `if (!value)`: the text, unless it is empty.
abbrev pub truthy : Option String → Option String
truthy none = none
truthy (some v) = if str_eq v "" then none else some v

module _ (p : Platform) where
  open p use {State, spawn, trim, lower, uri, sort, exec1, exec2, entries}

  pub record World : Type 0 where
    pub state : State
    pub log : List (Command × Bool)

  abbrev pub trimmed : Option String → Option String
  trimmed none = none
  trimmed (some v) = truthy (some (trim v))

  unfoldable pub non_empty_env : Env → String → Option String
  non_empty_env env key = trimmed (get key env)

  abbrev is_truthy_word : Option String → Bool
  is_truthy_word none = false
  is_truthy_word (some v) = has v ("1" ∷ "true" ∷ "on" ∷ "yes" ∷ [])

  abbrev lowered : Option String → Option String
  lowered none = none
  lowered (some v) = some (lower v)

  unfoldable pub bool_env : Env → String → Bool
  unfolding non_empty_env has
  bool_env env key = is_truthy_word (lowered (non_empty_env env key))

  -- `match?.[1]` is not empty.
  unfoldable pub parse_failed_migration_name : String → Option String
  parse_failed_migration_name output = elim (truthy (exec1 output)) [
    | some name ↦ some name
    | none ↦ truthy (exec2 output)
  ]

  abbrev first_set : Env → List String → Option String
  first_set env [] = none
  first_set env (k ∷ ks) =
      let rest = first_set env ks in elim (non_empty_env env k) [ some v ↦ some v | none ↦ rest ]

  abbrev url_of :
      Option String → String → Option String → Option String → Option String → Option String
  url_of (some host) port (some user) (some password) (some database) = some (
      "postgresql://"
      & uri user
      & ":"
      & uri password
      & "@"
      & host
      & ":"
      & port
      & "/"
      & uri database
      & "?schema=public")
  url_of _ port _ _ _ = none

  abbrev pub or_else : Option String → String → String
  or_else none d = d
  or_else (some v) d = v

  unfoldable pub resolve_database_url : Env → Option String
  unfolding non_empty_env
  resolve_database_url env = elim (first_set env database_url_keys) [
    | some v ↦ some v
    | none ↦
        url_of (non_empty_env env "PGHOST") (or_else (non_empty_env env "PGPORT") "5432")
          (non_empty_env env "PGUSER") (non_empty_env env "PGPASSWORD")
          (non_empty_env env "PGDATABASE")
  ]

  -- `process.env[key]` is deleted.
  abbrev pub without : String → Env → Env
  without key [] = []
  without key ((k, v) ∷ env) =
      let rest = without key env in if str_eq k key then rest else (k, v) ∷ rest

  abbrev pub with_database_url : Option String → Env → Env
  with_database_url none env = env
  with_database_url (some url) env = set "DATABASE_URL" url env

  abbrev pub without_blank : Option String → Env → Env
  without_blank none env = env
  without_blank (some v) env =
      if str_eq (trim v) "" then without "NEXT_PUBLIC_SOCKET_URL" env else env

  unfoldable pub normalise_env : Env → Env
  unfolding resolve_database_url
  normalise_env env =
      let env' = with_database_url (resolve_database_url env) env in
      without_blank (get "NEXT_PUBLIC_SOCKET_URL" env') env'

  abbrev is_zero : Exit → Bool
  is_zero (exited code out err) = code == 0
  is_zero (killed out err) = false
  is_zero not_spawned = false

  -- A child process runs, and is noted.
  pub spawned : Command → World → Exit × World
  spawned c w =
      let (x, s) = spawn c w.state in (x, record { state = s; log = w.log ++ (c, is_zero x) ∷ [] })

  -- A step of the script: it goes on with a value, or throws.
  abbrev pub M : Type 0 → Type 0
  M A = World → Step A × World

  abbrev pub continue_with : {A B : Type 0} → Step A × World → (A → M B) → Step B × World
  continue_with (next a, w) f = f a w
  continue_with (stopped e, w) f = (stopped e, w)

  infixl 5 ◌>>=◌ ◌>>◌
  abbrev pub ◌>>=◌ : {A B : Type 0} → M A → (A → M B) → M B
  ◌>>=◌ m f w = continue_with (m w) f

  abbrev pub ◌>>◌ : {B : Type 0} → M (Unit {0}) → M B → M B
  ◌>>◌ m k = m >>= λ _. k

  abbrev pub throw : {A : Type 0} → StartError → M A
  throw e w = (stopped e, w)

  abbrev pub pass : M (Unit {0})
  pass w = (next tt, w)

  abbrev pub exit_checked : Command → Exit × World → Step (Unit {0}) × World
  exit_checked c (x, w) = if is_zero x then (next tt, w) else (stopped (command_failed c), w)

  -- `run`: anything but an exit with zero throws.
  unfoldable pub run : Command → M (Unit {0})
  unfolding spawned
  run c w = exit_checked c (spawned c w)

  -- `RunResult`, without the signal, which nothing reads: the code and what was written.
  pub record RunResult : Type 0 where
    pub succeeded : Bool
    pub stdout : String
    pub stderr : String

  abbrev pub captured : Command → Exit × World → Step RunResult × World
  captured c (exited code out err, w) =
      (next (record { succeeded = code == 0; stdout = out; stderr = err }), w)
  captured c (killed out err, w) =
      (next (record { succeeded = false; stdout = out; stderr = err }), w)
  captured c (not_spawned, w) = (stopped (command_failed c), w)

  -- `runCapturing`: only a failure to spawn throws.
  unfoldable pub run_capturing : Command → M RunResult
  unfolding spawned
  run_capturing c w = captured c (spawned c w)

  abbrev is_directory : String × Option Bool → Bool
  is_directory (name, none) = false
  is_directory (name, some b) = b

  abbrev name_of : String × Option Bool → String
  name_of (name, d) = name

  abbrev listed : Option (List (String × Option Bool)) → List String
  listed none = []
  listed (some es) = sort (map name_of (keep is_directory es))

  unfoldable pub list_migration_dirs : List String
  list_migration_dirs = listed entries

  -- `baselineEnv.split(',').map(trim).filter(s => s.length > 0)`
  unfoldable pub requested_migrations : String → List String
  unfolding split_at
  requested_migrations value = keep (λ s. not (str_eq s "")) (map trim (split_at b',' value))

  abbrev pub unknown_of : List String → List String
  unknown_of requested = keep (λ name. not (has name list_migration_dirs)) requested

  abbrev pub run_all : List Command → M (Unit {0})
  run_all [] = pass
  run_all (c ∷ cs) = let rest = run_all cs in run c >> rest

  abbrev pub baseline_known : List String → List String → M (Unit {0})
  baseline_known requested (u ∷ us) = throw (unknown_migrations (u ∷ us))
  baseline_known requested [] = run_all (map resolve_applied requested) >> run migrate_deploy

  -- The branch of P3005.
  pub baseline : Option String → M (Unit {0})
  unfolding requested_migrations list_migration_dirs has
  baseline none = throw baseline_needed
  baseline (some value) =
      let requested = requested_migrations value in baseline_known requested (unknown_of requested)

  abbrev pub roll_back : Option String → M (Unit {0})
  roll_back none = throw no_failed_name
  roll_back (some name) = run (resolve_rolled_back name) >> run migrate_deploy

  abbrev pub target : String → Option String → Option String
  target value failed_name = if str_eq value "auto" then failed_name else some value

  -- The branch of P3009: from the test of `PRISMA_RESET_FAILED_MIGRATIONS` on.
  pub recover : Bool → Option String → Option String → M (Unit {0})
  recover true resolve_target failed_name = run migrate_reset
  recover false none failed_name = throw (failed_migration failed_name)
  recover false (some value) failed_name = roll_back (target value failed_name)

  abbrev pub diagnosed : Env → String → M (Unit {0})
  diagnosed env combined =
      if includes combined "P3005"
      then baseline (non_empty_env env "PRISMA_BASELINE_MIGRATIONS")
      else if includes combined "P3009"
      then recover (bool_env env "PRISMA_RESET_FAILED_MIGRATIONS")
          (non_empty_env env "PRISMA_RESOLVE_ROLLED_BACK") (parse_failed_migration_name combined)
      else throw deploy_failed

  abbrev pub deployed : Env → RunResult → M (Unit {0})
  deployed env result =
      if result.succeeded then pass else diagnosed env (result.stdout & "\n" & result.stderr)

  -- `(nonEmptyEnv('PRISMA_DEPLOY_STRATEGY') ?? 'migrate').toLowerCase()`
  unfoldable pub strategy : Env → String
  unfolding non_empty_env
  strategy env = lower (or_else (non_empty_env env "PRISMA_DEPLOY_STRATEGY") "migrate")

  unfoldable pub apply_schema : Env → M (Unit {0})
  unfolding strategy baseline recover
  apply_schema env =
      if str_eq (strategy env) "push"
      then run db_push
      else run_capturing migrate_deploy >>= deployed env

  -- The `catch` of `maybeSeed` goes on.
  abbrev pub forgiven : Step (Unit {0}) × World → Step (Unit {0}) × World
  forgiven (x, w) = (next tt, w)

  unfoldable pub maybe_seed : Env → M (Unit {0})
  unfolding bool_env
  maybe_seed env w = if bool_env env "SEED_ON_BOOT" then forgiven (run run_seed w) else pass w

  abbrev pub started : Env → Option String → M (Unit {0})
  started env none = throw no_database_url
  started env (some url) = apply_schema env >> (maybe_seed env >> run run_server)

  unfoldable pub main : Env → M (Unit {0})
  unfolding normalise_env
  main env = let env' = normalise_env env in started env' (truthy (get "DATABASE_URL" env'))
