-- ===== src/Tasks/Numbers.antt =====
-- The numbers of new tasks.
use one_crew.Common.{
  ℕ, suc, ◌≡◌, ◌≢◌, ◌⊎◌, refl, sym, ap, ◌∙◌, false, inl, inr, String, none, some, arith,
}
use one_crew.Workspace.{resolve_workspace_id, DbError, Outcome, done, threw, Outcome-cases}
use one_crew.Tasks.{
  backlog, Task, CreateTaskInput, TaskTable, returned, failed, bind, World, transaction, project_id,
  creator_of, insert_for, insert_numbered, find_assignee, new_task, create, broadcast_task_updated,
}

bind_done {ℓ κ} :
    {A : Type ℓ} {B : Type κ} (o : Outcome A) (f : A → Outcome B) (b : B)
    → bind o f ≡ done b
    → (a : A) × (o ≡ done a) × (f a ≡ done b)
bind_done (threw e) f b h = ground arith
bind_done (done a) f b h = (a, refl, h)

module _ (t : TaskTable) (decimal : ℕ → String) where
  open t use {Db, find, counter, bump_counter, find_user, insert, bump_counter_done, insert_done}

  -- What a committed creation has done: the next number, in the first column, by the caller's
  -- workspace, in a row of its own.
  abbrev pub Created : CreateTaskInput → String → Db → Task → Db → Type 0
  Created input ws db x db' =
      (x.task_id ≡ project_id t decimal (suc (counter ws db)))
      × (counter ws db' ≡ suc (counter ws db))
      × (x.status ≡ backlog)
      × (x.workspace_id ≡ ws)
      × (x.title ≡ input.title)
      × (find x.id db ≡ none)
      × (find x.id db' ≡ some x)
      × ((j : String) → j ≢ x.id → find j db' ≡ find j db)

  transaction_done :
      (input : CreateTaskInput) (ws : String) (db : Db) (x : Task) (db' : Db)
      → transaction t decimal input ws db ≡ done (x, db')
      → Created input ws db x db'
  transaction_done input ws db x db' h =
      let ((n, db₁), bumped, h₁) =
        bind_done (bump_counter ws db) (insert_numbered t decimal input ws) (x, db') h in
      let (creator, g, h₂) =
        bind_done (creator_of t decimal input db₁) (insert_for t decimal input ws n db₁) (x, db')
          h₁ in
      let (assignee, k, h₃) =
        bind_done (find_assignee t decimal input.assignee_id db₁)
          (λ a. insert (new_task t decimal input ws n creator a) db₁) (x, db') h₂ in
      let (number, next, rows) = bump_counter_done ws db n db₁ bumped in
      let (held, free, new, others, counts) =
        insert_done (new_task t decimal input ws n creator assignee) db₁ x db' h₃ in
      (
        held.0 ∙ ap (project_id t decimal) number,
        counts ws ∙ next ∙ number,
        held.3,
        held.5,
        held.1,
        sym (rows x.id) ∙ free,
        new,
        (λ j ne. others j ne ∙ rows j),
      )

  -- A creation that throws leaves the world as it was, the number included. Otherwise the task is in
  -- a row of its own in the first column, it has the next number of the caller's workspace, which is
  -- used up, every other row is as before, and without a realtime server nothing is sent.
  pub create_branches :
      (input : CreateTaskInput) (w : World t decimal)
      → ((e : DbError) × (create t decimal input w ≡ (failed e, w)))
        ⊎ ((x : Task) × ((create t decimal input w).0 ≡ returned x)
            × Created input (resolve_workspace_id w.env) w.db x (create t decimal input w).1.db
            × ((create t decimal input w).1.env ≡ w.env)
            × (w.io_ready ≡ false → (create t decimal input w).1.log ≡ w.log))
  unfolding create
  create_branches input w =
      elim (Outcome-cases (transaction t decimal input (resolve_workspace_id w.env) w.db)) [
        | inl (e, h) ↦ rw (h, create) (inl (e, refl))
        | inr ((x, db'), h) ↦
            let kept : (broadcast_task_updated t decimal x (record w { db = db' })).db ≡ db' =
              ground arith in
            rw (h, create)
              (inr (
                x,
                refl,
                (rw kept (transaction_done input (resolve_workspace_id w.env) w.db x db' h)),
                (ground arith),
                (λ off. ground arith),
              ))
      ]
