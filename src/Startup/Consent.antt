-- ===== src/Startup/Consent.antt =====
-- Which commands the start of a container may run, and what must be set for them.
use one_crew.Common.{
  ◌≡◌, ◌≢◌, refl, sym, ◌∙◌, ◌⊎◌, inl, inr, String, Bool, true, false, not, Option, none, some, List,
  [], ◌∷◌, map, keep, All, arith, str_eq, Bool-cases, eq_iff, str_eq_of_ne, ne_of_test, str-cases,
}
use one_crew.Common.Dict.{get, get-set_ne}
use one_crew.Common.TextSet.{has}
use one_crew.Common.Substring.{includes}
use one_crew.Common.Texts.{◌&◌}
use one_crew.Startup.{
  Command, db_push, migrate_deploy, resolve_applied, migrate_reset, resolve_rolled_back, run_seed,
  run_server, Env, Platform, RunResult, list_migration_dirs, requested_migrations, baseline, target,
  unknown_of, diagnosed, deployed, strategy, apply_schema, maybe_seed, started, main, non_empty_env,
  bool_env, normalise_env, resolve_database_url, run_capturing, parse_failed_migration_name, truthy,
  with_database_url, without, without_blank, run, ◌>>◌,
}
use one_crew.Startup.Keeps.{
  Keeps, Allows, bind-Keeps, run-Keeps, run_capturing-Keeps, baseline_known-Keeps, recover-Keeps,
  maybe_seed-Keeps,
}

List-cases : (xs : List String) → (xs ≡ []) ⊎ ((y : String) × (ys : List String) × (xs ≡ y ∷ ys))
List-cases [] = inl refl
List-cases (y ∷ ys) = inr (y, ys, refl)

module _ (p : Platform) (env : Env) where
  -- What must be set in the environment for a command to be run.
  abbrev pub HasConsent : Command → Type 0
  HasConsent db_push = strategy p env ≡ "push"
  HasConsent migrate_reset = bool_env p env "PRISMA_RESET_FAILED_MIGRATIONS" ≡ true
  HasConsent (resolve_applied name) =
      (value : String) × (non_empty_env p env "PRISMA_BASELINE_MIGRATIONS" ≡ some value)
      × (has name (requested_migrations p value) ≡ true)
      × (has name (list_migration_dirs p) ≡ true)
  HasConsent (resolve_rolled_back name) =
      (value : String) × (non_empty_env p env "PRISMA_RESOLVE_ROLLED_BACK" ≡ some value)
      × ((value ≡ name) ⊎ (value ≡ "auto"))
  HasConsent run_seed = bool_env p env "SEED_ON_BOOT" ≡ true
  HasConsent migrate_deploy = Unit
  HasConsent run_server = Unit

  abbrev pub IsConsented : Command × Bool → Type 0
  IsConsented (c, b) = HasConsent c

  known_of_none :
      (name : String) (names : List String)
      → keep (λ n. not (has n (list_migration_dirs p))) names ≡ []
      → has name names ≡ true
      → has name (list_migration_dirs p) ≡ true
  unfolding has
  known_of_none name [] h m = cc
  known_of_none name (n ∷ names) h m = ground (arith, eq_iff n name, known_of_none name names)

  listed-Allows :
      (value : String) (names : List String)
      → non_empty_env p env "PRISMA_BASELINE_MIGRATIONS" ≡ some value
      → ((n : String) → has n names ≡ true → has n (requested_migrations p value) ≡ true)
      → ((n : String) → has n names ≡ true → has n (list_migration_dirs p) ≡ true)
      → All (Allows p IsConsented) (map resolve_applied names)
  unfolding has
  listed-Allows value [] e r k = tt
  listed-Allows value (n ∷ names) e r k =
      let here : has n (n ∷ names) ≡ true = ground (arith, eq_iff n n) in
      (
        (λ b. (value, e, r n here, k n here)),
        listed-Allows value names e (λ m h. r m (ground arith)) (λ m h. k m (ground arith)),
      )

  baseline-Keeps :
      (value : Option String)
      → non_empty_env p env "PRISMA_BASELINE_MIGRATIONS" ≡ value
      → Keeps p IsConsented (baseline p value)
  unfolding baseline
  baseline-Keeps none e w d = d
  baseline-Keeps (some value) e w d =
      let requested = requested_migrations p value in
      elim (List-cases (unknown_of p requested)) [
        | inl fine ↦
            baseline_known-Keeps p IsConsented requested (unknown_of p requested)
              (listed-Allows value requested e (λ n h. h) (λ n h. known_of_none n requested fine h))
              (λ b. tt) w d
        | inr (u, us, bad) ↦ rw bad d
      ]

  target-Allows :
      (failed : Option String) (v n : String)
      → non_empty_env p env "PRISMA_RESOLVE_ROLLED_BACK" ≡ some v
      → target p v failed ≡ some n
      → Allows p IsConsented (resolve_rolled_back n)
  target-Allows failed v n e t b = elim (str-cases v "auto") [
    | inl auto ↦ (v, e, inr auto)
    | inr named ↦ (v, e, inl (ground (arith, eq_iff v "auto")))
  ]

  diagnosed-Keeps : (combined : String) → Keeps p IsConsented (diagnosed p env combined)
  diagnosed-Keeps combined w d = elim (Bool-cases (includes combined "P3005")) [
    | inl e ↦ rw e (baseline-Keeps (non_empty_env p env "PRISMA_BASELINE_MIGRATIONS") refl w d)
    | inr e ↦ elim (Bool-cases (includes combined "P3009")) [
      | inl f ↦
          rw (e, f)
            (recover-Keeps p IsConsented (bool_env p env "PRISMA_RESET_FAILED_MIGRATIONS")
              (non_empty_env p env "PRISMA_RESOLVE_ROLLED_BACK")
              (parse_failed_migration_name p combined) (λ r b. r)
              (λ v n h t. target-Allows (parse_failed_migration_name p combined) v n h t) (λ b. tt)
              w d)
      | inr f ↦ rw (e, f) d
    ]
  ]

  deployed-Keeps : (result : RunResult p) → Keeps p IsConsented (deployed p env result)
  deployed-Keeps result w d = elim (Bool-cases result.succeeded) [
    | inl e ↦ rw e d
    | inr e ↦ rw e (diagnosed-Keeps (result.stdout & "\n" & result.stderr) w d)
  ]

  apply_schema-Keeps : Keeps p IsConsented (apply_schema p env)
  unfolding apply_schema
  apply_schema-Keeps w d = elim (str-cases (strategy p env) "push") [
    | inl e ↦ rw ((eq_iff _ _).1 e) (run-Keeps p IsConsented db_push (λ b. e) w d)
    | inr n ↦ rw (str_eq_of_ne _ _ n) (
        bind-Keeps p IsConsented (run_capturing p migrate_deploy) (deployed p env)
          (run_capturing-Keeps p IsConsented migrate_deploy (λ b. tt)) deployed-Keeps w d)
  ]

  pub started-Keeps : (url : Option String) → Keeps p IsConsented (started p env url)
  started-Keeps none w d = d
  started-Keeps (some url) w d =
      bind-Keeps p IsConsented (apply_schema p env)
        (λ _. ◌>>◌ p (maybe_seed p env) (run p run_server)) apply_schema-Keeps
        (λ _.
          bind-Keeps p IsConsented (maybe_seed p env) (λ _. run p run_server)
            (maybe_seed-Keeps p IsConsented env (λ e b. e))
            (λ _. run-Keeps p IsConsented run_server (λ b. tt)))
        w d

-- The two variables that are normalised are none of those that give consent.
abbrev IsPlain : String → Type 0
IsPlain key = (str_eq key "DATABASE_URL" ≡ false) × (str_eq key "NEXT_PUBLIC_SOCKET_URL" ≡ false)

get-without :
    (p : Platform) (key other : String) (env : Env)
    → key ≢ other
    → get other (without p key env) ≡ get other env
unfolding get
get-without p key other [] n = refl
get-without p key other ((k, v) ∷ env) n =
    ground (arith, eq_iff k key, eq_iff k other, eq_iff key other, get-without p key other env n)

with_url-get :
    (p : Platform) (url : Option String) (key : String) (env : Env)
    → key ≢ "DATABASE_URL"
    → get key (with_database_url p url env) ≡ get key env
with_url-get p none key env n = refl
with_url-get p (some url) key env n = get-set_ne "DATABASE_URL" key url env (λ e. n (sym e))

without_blank-get :
    (p : Platform) (v : Option String) (key : String) (env : Env)
    → key ≢ "NEXT_PUBLIC_SOCKET_URL"
    → get key (without_blank p v env) ≡ get key env
without_blank-get p none key env n = refl
without_blank-get p (some v) key env n = elim (Bool-cases (str_eq (p.trim v) "")) [
  | inl e ↦ rw e (get-without p "NEXT_PUBLIC_SOCKET_URL" key env (λ q. n (sym q)))
  | inr e ↦ rw e
]

-- Normalising leaves every other variable alone.
normalise_env-get :
    (p : Platform) (key : String) (env : Env)
    → IsPlain key
    → get key (normalise_env p env) ≡ get key env
unfolding normalise_env
normalise_env-get p key env (a, b) =
    without_blank-get p
      (get "NEXT_PUBLIC_SOCKET_URL" (with_database_url p (resolve_database_url p env) env)) key
      (with_database_url p (resolve_database_url p env) env) (ne_of_test _ _ b)
    ∙ with_url-get p (resolve_database_url p env) key env (ne_of_test _ _ a)

non_empty_env-normalised :
    (p : Platform) (key : String) (env : Env)
    → IsPlain key
    → non_empty_env p (normalise_env p env) key ≡ non_empty_env p env key
unfolding non_empty_env
non_empty_env-normalised p key env h = rw (normalise_env-get p key env h)

bool_env-normalised :
    (p : Platform) (key : String) (env : Env)
    → IsPlain key
    → bool_env p (normalise_env p env) key ≡ bool_env p env key
unfolding bool_env
bool_env-normalised p key env h = rw (normalise_env-get p key env h)

strategy-normalised : (p : Platform) (env : Env) → strategy p (normalise_env p env) ≡ strategy p env
unfolding strategy
strategy-normalised p env =
    rw (non_empty_env-normalised p "PRISMA_DEPLOY_STRATEGY" env (refl, refl), strategy)

HasConsent-normalised :
    (p : Platform) (env : Env) (c : Command)
    → HasConsent p (normalise_env p env) c
    → HasConsent p env c
HasConsent-normalised p env db_push h = rw (← strategy-normalised p env) h
HasConsent-normalised p env migrate_reset h =
    rw (bool_env-normalised p "PRISMA_RESET_FAILED_MIGRATIONS" env (refl, refl)) at h
HasConsent-normalised p env (resolve_applied name) (v, e, l, k) =
    (v, (rw (non_empty_env-normalised p "PRISMA_BASELINE_MIGRATIONS" env (refl, refl)) at e), l, k)
HasConsent-normalised p env (resolve_rolled_back name) (v, e, t) =
    (v, (rw (non_empty_env-normalised p "PRISMA_RESOLVE_ROLLED_BACK" env (refl, refl)) at e), t)
HasConsent-normalised p env run_seed h =
    rw (bool_env-normalised p "SEED_ON_BOOT" env (refl, refl)) at h
HasConsent-normalised p env migrate_deploy h = tt
HasConsent-normalised p env run_server h = tt

All-IsConsented :
    (p : Platform) (env : Env) (log : List (Command × Bool))
    → All (IsConsented p (normalise_env p env)) log
    → All (IsConsented p env) log
All-IsConsented p env [] h = tt
All-IsConsented p env ((c, b) ∷ log) (h, hs) =
    (HasConsent-normalised p env c h, All-IsConsented p env log hs)

-- Whatever the child processes do and write, the start runs the push that may lose data only under
-- the strategy `push`, the reset that drops the data only if PRISMA_RESET_FAILED_MIGRATIONS is
-- true, and the seed only if SEED_ON_BOOT is; it marks as applied only migrations that
-- PRISMA_BASELINE_MIGRATIONS lists and that are there, and rolls back only the one that
-- PRISMA_RESOLVE_ROLLED_BACK names, or one that it leaves to be found by `auto`.
pub start-IsConsented :
    (p : Platform) (env : Env) (s : p.State)
    → All (IsConsented p env) (main p env (record { state = s; log = [] })).1.log
unfolding main
start-IsConsented p env s =
    let env' = normalise_env p env in
    All-IsConsented p env _
      (started-Keeps p env' (truthy (get "DATABASE_URL" env')) (record { state = s; log = [] }) tt)
