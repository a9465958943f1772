-- ===== src/Startup/Tests.antt =====
-- Runs of the start on a platform whose first deployment fails for a migration recorded as failed.
use one_crew.Common.{
  ℕ, suc, ◌≡◌, refl, ◌⊎◌, true, false, none, some, [], ◌∷◌, All, ◌==◌, if◌then◌else◌,
}
use one_crew.Common.Dict.{get, set}
use one_crew.Common.Substring.{includes}
use one_crew.Startup.{
  Command, migrate_deploy, migrate_reset, run_seed, run_server, Exit, exited, Env, Platform, main,
  apply_schema, run_capturing, bool_env, run, maybe_seed,
}
use one_crew.Startup.Consent.{IsConsented, start-IsConsented}
use one_crew.Startup.Order.{HasStopped, HasServed, start_order}

-- The state counts the processes; the first one fails.
abbrev answer : Command → ℕ → Exit × ℕ
answer c n =
    (if n == 0 then exited 1 "" "P3009: `0_init` migration failed" else exited 0 "" "", suc n)

abbrev box : Platform
box = record {
  State = ℕ;
  spawn = answer;
  trim = λ s. s;
  lower = λ s. s;
  uri = λ s. s;
  sort = λ s. s;
  exec1 = λ s. some "0_init";
  exec2 = λ s. none;
  entries = some (("0_init", some true) ∷ []);
}

abbrev reset_once : Env
reset_once =
    ("POSTGRES_URL", "postgres://db")
    ∷ ("PRISMA_RESET_FAILED_MIGRATIONS", "true")
    ∷ ("SEED_ON_BOOT", "1")
    ∷ []

main_resets :
    (main box reset_once (record { state = 0; log = [] })).1.log
    ≡ (migrate_deploy, false) ∷ (migrate_reset, true) ∷ (run_seed, true) ∷ (run_server, true) ∷ []
unfolding main get set apply_schema run_capturing includes bool_env run maybe_seed
main_resets = refl

start-IsConsented_example :
    All (IsConsented box reset_once) (main box reset_once (record { state = 0; log = [] })).1.log
start-IsConsented_example = start-IsConsented box reset_once 0

start_order_example :
    HasStopped box (main box reset_once (record { state = 0; log = [] }))
    ⊎ HasServed box (main box reset_once (record { state = 0; log = [] }))
start_order_example = start_order box reset_once 0
