-- ===== src/Startup/Keeps.antt =====
-- Steps of the start that run only commands of one kind, put together.
use one_crew.Common.{
  ◌≡◌, refl, inl, inr, String, Bool, true, false, Option, none, some, List, [], ◌∷◌, map, All,
  All-append, arith, Bool-cases,
}
use one_crew.Startup.{
  Command, migrate_deploy, resolve_applied, migrate_reset, resolve_rolled_back, run_seed, Exit,
  exited, killed, not_spawned, Step, next, stopped, Env, Platform, World, M, spawned, run,
  run_capturing, recover, roll_back, target, baseline_known, run_all, maybe_seed, forgiven,
  bool_env, continue_with, ◌>>=◌, exit_checked, captured,
}

module _ (p : Platform) (P : Command × Bool → Type 0) where
  -- Whatever a step runs satisfies `P`.
  abbrev pub Keeps : {A : Type 0} → M p A → Type 0
  Keeps m = (w : World p) → All P w.log → All P (m w).1.log

  abbrev pub Allows : Command → Type 0
  Allows c = (b : Bool) → P (c, b)

  abbrev AllIn : {A : Type 0} → Step A × World p → Type 0
  AllIn (x, w) = All P w.log

  continue-Keeps :
      {A B : Type 0} (r : Step A × World p) (f : A → M p B)
      → AllIn r
      → ((a : A) → Keeps (f a))
      → All P (continue_with p r f).1.log
  continue-Keeps (next a, w) f h k = k a w h
  continue-Keeps (stopped e, w) f h k = h

  pub bind-Keeps :
      {A B : Type 0} (m : M p A) (f : A → M p B)
      → Keeps m
      → ((a : A) → Keeps (f a))
      → Keeps (◌>>=◌ p m f)
  bind-Keeps m f h k w d = continue-Keeps (m w) f (h w d) k

  pub spawned-Keeps :
      (c : Command) (w : World p) → Allows c → All P w.log → All P (spawned p c w).1.log
  unfolding spawned
  spawned-Keeps c w a d = All-append P w.log _ d (a _, tt)

  settled_log : (c : Command) (r : Exit × World p) → (exit_checked p c r).1 ≡ r.1
  settled_log c (x, w) = ground arith

  captured_log : (c : Command) (r : Exit × World p) → (captured p c r).1 ≡ r.1
  captured_log c (exited code out err, w) = refl
  captured_log c (killed out err, w) = refl
  captured_log c (not_spawned, w) = refl

  pub run-Keeps : (c : Command) → Allows c → Keeps (run p c)
  unfolding run
  run-Keeps c a w d = rw (settled_log c (spawned p c w)) (spawned-Keeps c w a d)

  pub run_capturing-Keeps : (c : Command) → Allows c → Keeps (run_capturing p c)
  unfolding run_capturing
  run_capturing-Keeps c a w d = rw (captured_log c (spawned p c w)) (spawned-Keeps c w a d)

  pub run_all-Keeps : (cs : List Command) → All Allows cs → Keeps (run_all p cs)
  run_all-Keeps [] h w d = d
  run_all-Keeps (c ∷ cs) (a, h) w d =
      bind-Keeps (run p c) (λ _. run_all p cs) (run-Keeps c a) (λ _. run_all-Keeps cs h) w d

  -- What the branches of a failed deployment may run.
  pub baseline_known-Keeps :
      (requested unknown : List String)
      → All Allows (map resolve_applied requested)
      → Allows migrate_deploy
      → Keeps (baseline_known p requested unknown)
  baseline_known-Keeps requested (u ∷ us) h d = λ w k. k
  baseline_known-Keeps requested [] h d =
      bind-Keeps (run_all p (map resolve_applied requested)) (λ _. run p migrate_deploy)
        (run_all-Keeps _ h) (λ _. run-Keeps migrate_deploy d)

  roll_back-Keeps :
      (name : Option String)
      → ((n : String) → name ≡ some n → Allows (resolve_rolled_back n))
      → Allows migrate_deploy
      → Keeps (roll_back p name)
  roll_back-Keeps none h d = λ w k. k
  roll_back-Keeps (some n) h d =
      bind-Keeps (run p (resolve_rolled_back n)) (λ _. run p migrate_deploy)
        (run-Keeps _ (h n refl)) (λ _. run-Keeps migrate_deploy d)

  pub recover-Keeps :
      (reset : Bool) (value failed : Option String)
      → (reset ≡ true → Allows migrate_reset)
      → ((v n : String)
          → value ≡ some v
          → target p v failed ≡ some n
          → Allows (resolve_rolled_back n))
      → Allows migrate_deploy
      → Keeps (recover p reset value failed)
  unfolding recover
  recover-Keeps true value failed r h d = run-Keeps migrate_reset (r refl)
  recover-Keeps false none failed r h d = λ w k. k
  recover-Keeps false (some v) failed r h d =
      roll_back-Keeps (target p v failed) (λ n e. h v n refl e) d

  forgiven_log : (r : Step (Unit {0}) × World p) → (forgiven p r).1 ≡ r.1
  forgiven_log (x, w) = refl

  pub maybe_seed-Keeps :
      (env : Env)
      → (bool_env p env "SEED_ON_BOOT" ≡ true → Allows run_seed)
      → Keeps (maybe_seed p env)
  unfolding maybe_seed
  maybe_seed-Keeps env a w d = elim (Bool-cases (bool_env p env "SEED_ON_BOOT")) [
    | inl e ↦ rw (e, forgiven_log (run p run_seed w)) (run-Keeps run_seed (a e) w d)
    | inr e ↦ rw e d
  ]
