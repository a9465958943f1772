-- ===== src/Tasks/Board.antt =====
-- Moving and assigning tasks.
use one_crew.Common.{
  ℕ, ◌≡◌, ◌≢◌, refl, ◌⊎◌, inl, inr, String, none, some, List, [], ◌∷◌, ◌++◌, arith, if◌then◌else◌,
  Option-cases,
}
use mathlib.Core.List.{append-nil, append_assoc}
use one_crew.Workspace.{resolve_workspace_id, workspace_room, done, Outcome-cases}
use one_crew.Tasks.{
  TaskStatus, finished, as_task_status, Task, Change, to_status, to_assignee, changed, TaskTable,
  to_task_updated_payload, TaskEvent, task_updated, task_done_notice, Result, returned,
  invalid_status, no_such_task, failed, World, update_status, assign, notify_if_done,
  broadcast_task_updated,
}

module _ (t : TaskTable) (decimal : ℕ → String) where
  open t use {Db, find, find_task, update, find_task_done, update_done}

  abbrev IsThrown : Result → Type 0
  IsThrown (returned x) = ⊥
  IsThrown invalid_status = Unit
  IsThrown no_such_task = Unit
  IsThrown (failed e) = Unit

  -- The row of a task id in the caller's workspace changed as told, and no other row did.
  abbrev pub Changed : String → Change → World t decimal → Task → Db → Type 0
  Changed task_id c w x db' =
      (id : String) × (old : Task) × (now : ℕ) × (find id w.db ≡ some old)
      × (old.task_id ≡ task_id)
      × (old.workspace_id ≡ resolve_workspace_id w.env)
      × (x ≡ changed c now old)
      × (find id db' ≡ some x)
      × ((j : String) → j ≢ id → find j db' ≡ find j w.db)

  -- The events of a task that is moved, if a realtime server is up.
  abbrev pub announced : World t decimal → Task → List TaskEvent
  announced w x =
      if w.io_ready
      then task_updated (workspace_room w.env) (to_task_updated_payload x) ∷ elim x.status [
        | finished ↦ task_done_notice (workspace_room w.env) x.task_id x.title ∷ []
        | _ ↦ []
      ]
      else []

  -- The call throws and leaves the world as it was, or changes one row and announces it.
  abbrev pub ThrowsOr :
      Result × World t decimal → World t decimal → (Task → World t decimal → Type 0) → Type 0
  ThrowsOr r w P = (IsThrown r.0 × (r.1 ≡ w)) ⊎ ((x : Task) × (r.0 ≡ returned x) × P x r.1)

  updated_row :
      (task_id id : String) (c : Change) (w : World t decimal) (x : Task) (db' : Db)
      → find_task task_id (resolve_workspace_id w.env) w.db ≡ done (some id)
      → update id c w.db ≡ done (x, db')
      → Changed task_id c w x db'
  updated_row task_id id c w x db' e g =
      let (old, seen, named, here) =
        find_task_done task_id (resolve_workspace_id w.env) id w.db e in
      let (old', now, seen', new, kept, others) = update_done id c w.db x db' g in
      let same : old' ≡ old = cc in (id, old, now, seen, named, here, rw (← same) new, kept, others)

  log_after :
      (x : Task) (db' : Db) (w : World t decimal)
      → (notify_if_done t decimal x
          (broadcast_task_updated t decimal x (record w { db = db' }))).log
        ≡ w.log ++ announced w x
  log_after x db' w = ground (
    arith,
    append-nil w.log,
    append_assoc w.log (task_updated (workspace_room w.env) (to_task_updated_payload x) ∷ [])
        (task_done_notice (workspace_room w.env) x.task_id x.title ∷ []),
  )

  db_after :
      (x : Task) (db' : Db) (w : World t decimal)
      → (notify_if_done t decimal x (broadcast_task_updated t decimal x (record w { db = db' }))).db
        ≡ db'
  db_after x db' w = ground arith

  -- A status that is no column, an unknown task or an error of the database throws and leaves the
  -- world as it was. Otherwise the task's row in the caller's workspace, and no other, gets the column
  -- that the text names, and if a realtime server is up the row as stored is announced once, with
  -- one notice more exactly for a move to Done.
  pub update_status_branches :
      (task_id status : String) (w : World t decimal)
      → ThrowsOr (update_status t decimal task_id status w) w (λ x w'.
        (s : TaskStatus) × (as_task_status status ≡ some s)
        × Changed task_id (to_status s) w x w'.db
        × (w'.log ≡ w.log ++ announced w x))
  unfolding update_status
  update_status_branches task_id status w = elim (Option-cases (as_task_status status)) [
    | inl e ↦ rw (e, update_status) (inl (tt, refl))
    | inr (s, e) ↦ elim (Outcome-cases (find_task task_id (resolve_workspace_id w.env) w.db)) [
      | inl (err, f) ↦ rw (e, f, update_status) (inl (tt, refl))
      | inr (none, f) ↦ rw (e, f, update_status) (inl (tt, refl))
      | inr (some id, f) ↦ elim (Outcome-cases (update id (to_status s) w.db)) [
        | inl (err, g) ↦ rw (e, f, g, update_status) (inl (tt, refl))
        | inr ((x, db'), g) ↦
            rw (e, f, g, update_status)
              (inr (
                x,
                refl,
                (
                  s,
                  refl,
                  rw (db_after x db' w) (updated_row task_id id (to_status s) w x db' f g),
                  log_after x db' w,
                ),
              ))
      ]
    ]
  ]

  -- An unknown task or an error of the database throws and leaves the world as it was. Otherwise the
  -- task's row in the caller's workspace, and no other, gets the assignee and counts as a task of an
  -- AI, and if a realtime server is up the row as stored is announced once.
  pub assign_branches :
      (task_id assignee : String) (w : World t decimal)
      → ThrowsOr (assign t decimal task_id assignee w) w (λ x w'.
        Changed task_id (to_assignee assignee) w x w'.db
        × (w'.log ≡ (
            if w.io_ready
            then w.log ++ task_updated (workspace_room w.env) (to_task_updated_payload x) ∷ []
            else w.log)))
  unfolding assign
  assign_branches task_id assignee w =
      elim (Outcome-cases (find_task task_id (resolve_workspace_id w.env) w.db)) [
        | inl (err, f) ↦ rw (f, assign) (inl (tt, refl))
        | inr (none, f) ↦ rw (f, assign) (inl (tt, refl))
        | inr (some id, f) ↦ elim (Outcome-cases (update id (to_assignee assignee) w.db)) [
          | inl (err, g) ↦ rw (f, g, assign) (inl (tt, refl))
          | inr ((x, db'), g) ↦
              let c = to_assignee assignee in
              let kept : (broadcast_task_updated t decimal x (record w { db = db' })).db ≡ db' =
                ground arith in
              rw (f, g, assign)
                (inr (x, refl, (rw kept (updated_row task_id id c w x db' f g), (ground arith))))
        ]
      ]
