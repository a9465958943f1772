-- ===== src/Tasks/Issue.antt =====
-- The ids that a sequence of creations issues.
use one_crew.Common.{
  ℕ, suc, ◌<◌, ◌≡◌, ◌≢◌, sym, ap, ◌∙◌, inl, inr, String, List, [], ◌∷◌, arith, All,
}
use one_crew.Workspace.{resolve_workspace_id}
use one_crew.Tasks.{
  CreateTaskInput, TaskTable, Result, returned, invalid_status, no_such_task, failed, World,
  project_id, create,
}
use one_crew.Tasks.Prefix.{prefix-cancel}
use one_crew.Tasks.Numbers.{create_branches}

abbrev pub AreDistinct : List String → Type 0
AreDistinct [] = Unit
AreDistinct (x ∷ xs) = All (λ y. x ≢ y) xs × AreDistinct xs

abbrev with_id : Result → List String → List String
with_id (returned x) ids = x.task_id ∷ ids
with_id invalid_status ids = ids
with_id no_such_task ids = ids
with_id (failed e) ids = ids

each_weaker :
    (P Q : String → Type 0) (f : (s : String) → P s → Q s) (xs : List String) → All P xs → All Q xs
each_weaker P Q f [] h = tt
each_weaker P Q f (x ∷ xs) (h, hs) = (f x h, each_weaker P Q f xs hs)

module _ (t : TaskTable) (decimal : ℕ → String) where
  open t use {counter}

  unfoldable pub issued : List CreateTaskInput → World t decimal → List String
  issued [] w = []
  issued (x ∷ xs) w = with_id (create t decimal x w).0 (issued xs (create t decimal x w).1)

  abbrev next_number : World t decimal → ℕ
  next_number w = counter (resolve_workspace_id w.env) w.db

  -- The id carries a number past `n`.
  abbrev IsPast : ℕ → String → Type 0
  IsPast n s = (m : ℕ) × (n < m) × (s ≡ project_id t decimal m)

  issued-IsPast :
      (xs : List CreateTaskInput) (w : World t decimal) → All (IsPast (next_number w)) (issued xs w)
  unfolding issued
  issued-IsPast [] w = tt
  issued-IsPast (x ∷ xs) w = elim (create_branches t decimal x w) [
    | inl (e, h) ↦ rw (h, issued) (issued-IsPast xs w)
    | inr (y, h, c, env, l) ↦
        let w' = (create t decimal x w).1 in
        let after : next_number w' ≡ suc (next_number w) =
          ap (λ v. counter (resolve_workspace_id v) w'.db) env ∙ c.1 in
        rw (h, issued)
          (
            (suc (next_number w), (omega arith), c.0),
            each_weaker (IsPast (next_number w')) (IsPast (next_number w))
                (λ s (m, lt, g). (m, (omega (arith, after, lt)), g)) (issued xs w')
                (issued-IsPast xs w'),
          )
  ]

  -- Creations that are run one after the other, some of which may throw, never issue a task id twice
  -- in a workspace, provided that different numbers are written differently.
  pub ids_distinct :
      (xs : List CreateTaskInput) (w : World t decimal)
      → ((m n : ℕ) → decimal m ≡ decimal n → m ≡ n)
      → AreDistinct (issued xs w)
  unfolding issued
  ids_distinct [] w inj = tt
  ids_distinct (x ∷ xs) w inj = elim (create_branches t decimal x w) [
    | inl (e, h) ↦ rw (h, issued) (ids_distinct xs w inj)
    | inr (y, h, c, env, l) ↦
        let w' = (create t decimal x w).1 in
        let after : next_number w' ≡ suc (next_number w) =
          ap (λ v. counter (resolve_workspace_id v) w'.db) env ∙ c.1 in
        rw (h, issued)
          (
            each_weaker (IsPast (next_number w')) (λ s. y.task_id ≢ s)
                (λ s (m, lt, g) same.
                  let e : suc (next_number w) ≡ m = inj (suc (next_number w)) m (
                    prefix-cancel (decimal (suc (next_number w))) (decimal m)
                      (sym c.0 ∙ same ∙ g)) in
                  omega (arith, after, lt, e))
                (issued xs w') (issued-IsPast xs w'),
            ids_distinct xs w' inj,
          )
  ]
