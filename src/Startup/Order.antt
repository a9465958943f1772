-- ===== src/Startup/Order.antt =====
-- The order of the start: the schema, perhaps the seed, the server.
use one_crew.Common.{
  ◌≡◌, refl, sym, ap, ◌∙◌, ◌⊎◌, inl, inr, String, Bool, true, false, Option, none, some, List, [],
  ◌∷◌, ◌++◌, map, All, All-append, arith, str_eq, Bool-cases, ◌==◌,
}
use mathlib.Core.List.{append_assoc, append-nil}
use one_crew.Common.Dict.{get}
use one_crew.Common.Substring.{includes}
use one_crew.Common.Texts.{◌&◌}
use one_crew.Startup.{
  Command, db_push, migrate_deploy, resolve_applied, migrate_reset, resolve_rolled_back, run_seed,
  run_server, Exit, exited, killed, not_spawned, Step, next, stopped, Env, Platform, World, M,
  spawned, run, run_capturing, requested_migrations, baseline, recover, roll_back, target,
  baseline_known, unknown_of, run_all, diagnosed, deployed, strategy, apply_schema, maybe_seed,
  forgiven, started, main, non_empty_env, bool_env, normalise_env, parse_failed_migration_name,
  continue_with, ◌>>◌, exit_checked, captured, is_zero, truthy,
}

-- The commands that leave the schema applied when they succeed.
abbrev pub IsApplying : Command → Type 0
IsApplying db_push = Unit
IsApplying migrate_deploy = Unit
IsApplying migrate_reset = Unit
IsApplying _ = ⊥

abbrev IsSchemaCommand : Command → Type 0
IsSchemaCommand run_seed = ⊥
IsSchemaCommand run_server = ⊥
IsSchemaCommand _ = Unit

abbrev pub IsBeforeSeed : Command × Bool → Type 0
IsBeforeSeed (c, b) = IsSchemaCommand c

abbrev pub IsSeeding : List (Command × Bool) → Type 0
IsSeeding [] = Unit
IsSeeding ((run_seed, b) ∷ []) = Unit
IsSeeding _ = ⊥

applying_first : (c : Command) → IsApplying c → IsSchemaCommand c
applying_first db_push a = tt
applying_first migrate_deploy a = tt
applying_first migrate_reset a = tt
applying_first (resolve_applied n) a = tt
applying_first (resolve_rolled_back n) a = tt
applying_first run_seed a = a
applying_first run_server a = a

abbrev pub Log : Type 0
Log = List (Command × Bool)

-- A log grows by schema commands only; or by those and, last, one that succeeded and leaves the schema
-- applied.
abbrev Grows : Log → Log → Type 0
Grows l l' = (more : Log) × (l' ≡ l ++ more) × All IsBeforeSeed more

abbrev AppliedBy : Log → Log → Type 0
AppliedBy l l' =
    (before : Log) × (c : Command) × (l' ≡ l ++ (before ++ (c, true) ∷ []))
    × All IsBeforeSeed before
    × IsApplying c

Grows-refl : (l : Log) → Grows l l
Grows-refl l = ([], sym (append-nil l), tt)

Grows-trans : (a b c : Log) → Grows a b → Grows b c → Grows a c
Grows-trans a b c (x, e, h) (y, f, k) =
    (x ++ y, (f ∙ ap (λ t. t ++ y) e ∙ append_assoc a x y), All-append IsBeforeSeed x y h k)

Grows-applied : (a b c : Log) → Grows a b → AppliedBy b c → AppliedBy a c
Grows-applied a b c (x, e, h) (y, k, f, g, i) = (
  x ++ y,
  k,
  (f ∙ ap (λ t. t ++ (y ++ (k, true) ∷ [])) e ∙ simp append_assoc),
  All-append IsBeforeSeed x y h g,
  i,
)

module _ (p : Platform) where
  abbrev OnlySchema : {A : Type 0} → Log → Step A × World p → Type 0
  OnlySchema l (x, w) = Grows l w.log

  -- If the step goes on, the schema is applied.
  abbrev Applies : Log → Step (Unit {0}) × World p → Type 0
  Applies l (next a, w) = AppliedBy l w.log
  Applies l (stopped e, w) = Grows l w.log

  Applies-after :
      (a b : Log) (r : Step (Unit {0}) × World p) → Grows a b → Applies b r → Applies a r
  Applies-after a b (next x, w) g h = Grows-applied a b w.log g h
  Applies-after a b (stopped e, w) g h = Grows-trans a b w.log g h

  continue-OnlySchema :
      {A B : Type 0} (l : Log) (r : Step A × World p) (f : A → M p B)
      → OnlySchema l r
      → ((a : A) (w : World p) → OnlySchema w.log (f a w))
      → OnlySchema l (continue_with p r f)
  continue-OnlySchema l (next a, w) f g h = Grows-trans l w.log _ g (h a w)
  continue-OnlySchema l (stopped e, w) f g h = g

  continue-Applies :
      {A : Type 0} (l : Log) (r : Step A × World p) (f : A → M p (Unit {0}))
      → OnlySchema l r
      → ((a : A) (w : World p) → Applies w.log (f a w))
      → Applies l (continue_with p r f)
  continue-Applies l (next a, w) f g h = Applies-after l w.log (f a w) g (h a w)
  continue-Applies l (stopped e, w) f g h = g

  spawned_log :
      (c : Command) (w : World p)
      → (spawned p c w).1.log ≡ w.log ++ (c, is_zero p (spawned p c w).0) ∷ []
  unfolding spawned
  spawned_log c w = refl

  exit_checked-Applies :
      (c : Command) (l : Log) (r : Exit × World p)
      → IsApplying c
      → r.1.log ≡ l ++ (c, is_zero p r.0) ∷ []
      → Applies l (exit_checked p c r)
  exit_checked-Applies c l (x, w) a e = elim (Bool-cases (is_zero p x)) [
    | inl z ↦ rw z ([], c, (rw z at e), tt, a)
    | inr z ↦ rw z ((c, false) ∷ [], (rw z at e), (applying_first c a, tt))
  ]

  run-Applies : (c : Command) → IsApplying c → (w : World p) → Applies w.log (run p c w)
  unfolding run
  run-Applies c a w = exit_checked-Applies c w.log (spawned p c w) a (spawned_log c w)

  run-OnlySchema : (c : Command) → IsSchemaCommand c → (w : World p) → OnlySchema w.log (run p c w)
  unfolding run spawned
  run-OnlySchema c a w = elim (Bool-cases (is_zero p (spawned p c w).0)) [
    | inl z ↦ rw z (_ ∷ [], refl, (a, tt))
    | inr z ↦ rw z (_ ∷ [], refl, (a, tt))
  ]

  run_all-OnlySchema :
      (names : List String) (f : String → Command) (w : World p)
      → ((n : String) → IsSchemaCommand (f n))
      → OnlySchema w.log (run_all p (map f names) w)
  run_all-OnlySchema [] f w h = Grows-refl w.log
  run_all-OnlySchema (n ∷ names) f w h =
      continue-OnlySchema w.log (run p (f n) w) (λ _. run_all p (map f names))
        (run-OnlySchema (f n) (h n) w) (λ _ w'. run_all-OnlySchema names f w' h)

  baseline_known-Applies :
      (requested unknown : List String) (w : World p)
      → Applies w.log (baseline_known p requested unknown w)
  baseline_known-Applies requested (u ∷ us) w = Grows-refl w.log
  baseline_known-Applies requested [] w =
      continue-Applies w.log (run_all p (map resolve_applied requested) w)
        (λ _. run p migrate_deploy) (run_all-OnlySchema requested resolve_applied w (λ n. tt))
        (λ _ w'. run-Applies migrate_deploy tt w')

  baseline-Applies : (value : Option String) (w : World p) → Applies w.log (baseline p value w)
  unfolding baseline
  baseline-Applies none w = Grows-refl w.log
  baseline-Applies (some v) w =
      baseline_known-Applies (requested_migrations p v) (unknown_of p (requested_migrations p v)) w

  roll_back-Applies : (name : Option String) (w : World p) → Applies w.log (roll_back p name w)
  roll_back-Applies none w = Grows-refl w.log
  roll_back-Applies (some n) w =
      continue-Applies w.log (run p (resolve_rolled_back n) w) (λ _. run p migrate_deploy)
        (run-OnlySchema (resolve_rolled_back n) tt w) (λ _ w'. run-Applies migrate_deploy tt w')

  recover-Applies :
      (reset : Bool) (value failed : Option String) (w : World p)
      → Applies w.log (recover p reset value failed w)
  unfolding recover
  recover-Applies true value failed w = run-Applies migrate_reset tt w
  recover-Applies false none failed w = Grows-refl w.log
  recover-Applies false (some v) failed w = roll_back-Applies (target p v failed) w

  diagnosed-Applies :
      (env : Env) (combined : String) (w : World p) → Applies w.log (diagnosed p env combined w)
  diagnosed-Applies env combined w = elim (Bool-cases (includes combined "P3005")) [
    | inl e ↦ rw e (baseline-Applies (non_empty_env p env "PRISMA_BASELINE_MIGRATIONS") w)
    | inr e ↦ elim (Bool-cases (includes combined "P3009")) [
      | inl f ↦
          rw (e, f)
            (recover-Applies (bool_env p env "PRISMA_RESET_FAILED_MIGRATIONS")
              (non_empty_env p env "PRISMA_RESOLVE_ROLLED_BACK")
              (parse_failed_migration_name p combined) w)
      | inr f ↦ rw (e, f) (Grows-refl w.log)
    ]
  ]

  deployed-Applies :
      (env : Env) (l : Log) (r : Exit × World p)
      → r.1.log ≡ l ++ (migrate_deploy, is_zero p r.0) ∷ []
      → Applies l (continue_with p (captured p migrate_deploy r) (deployed p env))
  deployed-Applies env l (exited code out err, w) e = elim (Bool-cases (code == 0)) [
    | inl z ↦ rw z ([], migrate_deploy, (rw z at e), tt, tt)
    | inr z ↦ rw z (
        Applies-after l w.log _ ((migrate_deploy, false) ∷ [], (rw z at e), (tt, tt))
          (diagnosed-Applies env (out & "\n" & err) w))
  ]
  deployed-Applies env l (killed out err, w) e =
      Applies-after l w.log _ ((migrate_deploy, false) ∷ [], e, (tt, tt))
        (diagnosed-Applies env (out & "\n" & err) w)
  deployed-Applies env l (not_spawned, w) e = ((migrate_deploy, false) ∷ [], e, (tt, tt))

  apply_schema-Applies : (env : Env) (w : World p) → Applies w.log (apply_schema p env w)
  unfolding apply_schema run_capturing
  apply_schema-Applies env w = elim (Bool-cases (str_eq (strategy p env) "push")) [
    | inl e ↦ rw e (run-Applies db_push tt w)
    | inr e ↦
        rw e
          (deployed-Applies env w.log (spawned p migrate_deploy w) (spawned_log migrate_deploy w))
  ]

  -- The server, after what the log holds and perhaps the seed.
  abbrev Serves : Log → Log → Type 0
  Serves l l' =
      (seeds : Log) × (ok : Bool) × (l' ≡ l ++ (seeds ++ (run_server, ok) ∷ [])) × IsSeeding seeds

  settled_log : (c : Command) (r : Exit × World p) → (exit_checked p c r).1 ≡ r.1
  settled_log c (x, w) = ground arith

  run_server_log :
      (w : World p) → (ok : Bool) × ((run p run_server w).1.log ≡ w.log ++ (run_server, ok) ∷ [])
  unfolding run
  run_server_log w = (
    is_zero p (spawned p run_server w).0,
    ap (λ (v : World p). v.log) (settled_log run_server (spawned p run_server w))
        ∙ spawned_log run_server w,
  )

  abbrev Seeded : Log → Step (Unit {0}) × World p → Type 0
  Seeded l (next a, w) = (seeds : Log) × (w.log ≡ l ++ seeds) × IsSeeding seeds
  Seeded l (stopped e, w) = ⊥

  forgiven-Seeded :
      (l : Log) (r : Step (Unit {0}) × World p) (b : Bool)
      → r.1.log ≡ l ++ (run_seed, b) ∷ []
      → Seeded l (forgiven p r)
  forgiven-Seeded l (x, w) b e = ((run_seed, b) ∷ [], e, tt)

  maybe_seed-Seeded : (env : Env) (w : World p) → Seeded w.log (maybe_seed p env w)
  unfolding maybe_seed run
  maybe_seed-Seeded env w = elim (Bool-cases (bool_env p env "SEED_ON_BOOT")) [
    | inl e ↦ rw e (
        forgiven-Seeded w.log (exit_checked p run_seed (spawned p run_seed w))
          (is_zero p (spawned p run_seed w).0)
          (ap (λ (v : World p). v.log) (settled_log run_seed (spawned p run_seed w))
            ∙ spawned_log run_seed w))
    | inr e ↦ rw e ([], sym (append-nil w.log), tt)
  ]

  Seeded-Serves :
      (l : Log) (r : Step (Unit {0}) × World p)
      → Seeded l r
      → Serves l (continue_with p r (λ _. run p run_server)).1.log
  Seeded-Serves l (next a, w) (seeds, e, k) =
      let (ok, f) = run_server_log w in
      (seeds, ok, (f ∙ ap (λ t. t ++ (run_server, ok) ∷ []) e ∙ append_assoc l seeds _), k)
  Seeded-Serves l (stopped e, w) h = absurd h

  -- How a start ends: stopped, having run schema commands only, or with the server run last.
  abbrev pub HasStopped : Step (Unit {0}) × World p → Type 0
  HasStopped (next a, w) = ⊥
  HasStopped (stopped e, w) = All IsBeforeSeed w.log

  abbrev pub HasServed : Step (Unit {0}) × World p → Type 0
  HasServed (x, w) =
      (before : Log) × (c : Command) × (seeds : Log) × (ok : Bool) × (w.log
        ≡ before ++ ((c, true) ∷ (seeds ++ (run_server, ok) ∷ [])))
      × All IsBeforeSeed before
      × IsApplying c
      × IsSeeding seeds

  applied-serves :
      (env : Env) (r : Step (Unit {0}) × World p)
      → Applies [] r
      → HasStopped (continue_with p r (λ _. ◌>>◌ p (maybe_seed p env) (run p run_server)))
        ⊎ HasServed (continue_with p r (λ _. ◌>>◌ p (maybe_seed p env) (run p run_server)))
  applied-serves env (stopped e, w) (more, same, h) = inl (rw same h)
  applied-serves env (next a, w) (before, c, same, h, k) =
      let (seeds, ok, f, g) = Seeded-Serves w.log (maybe_seed p env w) (maybe_seed-Seeded env w) in
      inr (
        before,
        c,
        seeds,
        ok,
        (f ∙ ap (λ t. t ++ (seeds ++ (run_server, ok) ∷ [])) same ∙ append_assoc before _ _),
        h,
        k,
        g,
      )

  started-order :
      (env : Env) (url : Option String) (s : p.State)
      → HasStopped (started p env url (record { state = s; log = [] }))
        ⊎ HasServed (started p env url (record { state = s; log = [] }))
  started-order env none s = inl tt
  started-order env (some url) s =
      applied-serves env (apply_schema p env (record { state = s; log = [] }))
        (apply_schema-Applies env (record { state = s; log = [] }))

-- Whatever the child processes do, a start either stops with an error, having run schema commands
-- only, or it runs the server last: right before it at most the seed, however that ended, and right
-- before that a push, a deployment or a reset of the schema that exited with zero.
pub start_order :
    (p : Platform) (env : Env) (s : p.State)
    → HasStopped p (main p env (record { state = s; log = [] }))
      ⊎ HasServed p (main p env (record { state = s; log = [] }))
unfolding main
start_order p env s =
    started-order p (normalise_env p env) (truthy (get "DATABASE_URL" (normalise_env p env))) s
