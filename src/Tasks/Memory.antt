-- ===== src/Tasks/Memory.antt =====
-- A table of tasks in memory that keeps to what `TaskTable` asks for. A row's id is its task id.
use one_crew.Common.{
  ℕ, suc, ◌≡◌, ◌≢◌, refl, sym, String, ◌&&◌, Option, none, some, arith, str_eq, eq_iff,
  if◌then◌else◌,
}
use one_crew.Common.Dict.{Dict, get, set, get-set_self, get-set_ne}
use one_crew.Workspace.{not_found, other, Outcome, done, threw}
use one_crew.Tasks.{Task, User, NewTask, Change, changed, TaskTable, Holds}

pub record Store : Type 0 where
  pub rows : Dict Task
  pub count : ℕ

abbrev pub row_of : NewTask → Task
row_of x = record {
  id = x.task_id;
  task_id = x.task_id;
  title = x.title;
  description = x.description;
  status = x.status;
  is_ai_task = x.is_ai_task;
  workspace_id = x.workspace_id;
  creator_id = x.creator_id;
  assignee_id = x.assignee_id;
  created_at = 0;
  updated_at = 0;
}

abbrev pub insert_at : Option Task → NewTask → Store → Outcome (Task × Store)
insert_at (some old) x db = threw other
insert_at none x db = done (row_of x, record db { rows = set x.task_id (row_of x) db.rows })

abbrev pub insert : NewTask → Store → Outcome (Task × Store)
insert x db = insert_at (get x.task_id db.rows) x db

abbrev pub seen_at : Option Task → String → String → Outcome (Option String)
seen_at none task_id ws = done none
seen_at (some t) task_id ws =
    if str_eq t.task_id task_id && str_eq t.workspace_id ws then done (some task_id) else done none

abbrev pub find_task : String → String → Store → Outcome (Option String)
find_task task_id ws db = seen_at (get task_id db.rows) task_id ws

abbrev pub update_at : Option Task → String → Change → Store → Outcome (Task × Store)
update_at none id c db = threw not_found
update_at (some t) id c db =
    done (changed c 5 t, record db { rows = set id (changed c 5 t) db.rows })

abbrev pub update : String → Change → Store → Outcome (Task × Store)
update id c db = update_at (get id db.rows) id c db

abbrev pub robots : String → Store → Outcome (Option User)
robots id db = done (some (record { id = id; is_ai = str_eq id "ada" }))

abbrev pub bump : String → Store → Outcome (ℕ × Store)
bump ws db = done (suc db.count, record db { count = suc db.count })

pub insert_lem :
    (x : NewTask) (db : Store) (o : Option Task) (t : Task) (db' : Store)
    → get x.task_id db.rows ≡ o
    → insert_at o x db ≡ done (t, db')
    → Holds x t
      × (get t.id db.rows ≡ none)
      × (get t.id db'.rows ≡ some t)
      × ((j : String) → j ≢ t.id → get j db'.rows ≡ get j db.rows)
      × ((ws : String) → db'.count ≡ db.count)
insert_lem x db (some old) t db' e h = ground arith
insert_lem x db none t db' e h =
    let p : row_of x ≡ t = cc in
    let q : record db { rows = set x.task_id (row_of x) db.rows } ≡ db' = cc in
    rw (← p, ← q)
      (
        (refl, refl, refl, refl, refl, refl, refl, refl),
        e,
        get-set_self x.task_id (row_of x) db.rows,
        (λ j n. get-set_ne x.task_id j (row_of x) db.rows (λ i. n (sym i))),
        (λ ws. refl),
      )

pub seen_lem :
    (o : Option Task) (task_id ws id : String) (rows : Dict Task)
    → get task_id rows ≡ o
    → seen_at o task_id ws ≡ done (some id)
    → (t : Task) × (get id rows ≡ some t) × (t.task_id ≡ task_id) × (t.workspace_id ≡ ws)
seen_lem none task_id ws id rows e h = ground arith
seen_lem (some t) task_id ws id rows e h =
    let same : task_id ≡ id = ground arith in
    (
      t,
      rw (← same) e,
      ground (arith, eq_iff t.task_id task_id),
      ground (arith, eq_iff t.workspace_id ws),
    )

pub update_lem :
    (id : String) (c : Change) (db : Store) (o : Option Task) (t' : Task) (db' : Store)
    → get id db.rows ≡ o
    → update_at o id c db ≡ done (t', db')
    → (t : Task) × (now : ℕ) × (get id db.rows ≡ some t)
      × (t' ≡ changed c now t)
      × (get id db'.rows ≡ some t')
      × ((j : String) → j ≢ id → get j db'.rows ≡ get j db.rows)
update_lem id c db none t' db' e h = ground arith
update_lem id c db (some t) t' db' e h =
    let p : changed c 5 t ≡ t' = cc in
    let q : record db { rows = set id (changed c 5 t) db.rows } ≡ db' = cc in
    rw (← p, ← q)
      (
        t,
        5,
        e,
        refl,
        get-set_self id (changed c 5 t) db.rows,
        (λ j n. get-set_ne id j (changed c 5 t) db.rows (λ i. n (sym i))),
      )

pub bump_lem :
    (ws : String) (db : Store) (n : ℕ) (db' : Store)
    → bump ws db ≡ done (n, db')
    → (n ≡ suc db.count) × (db'.count ≡ n) × ((j : String) → get j db'.rows ≡ get j db.rows)
bump_lem ws db n db' h =
    let p : suc db.count ≡ n = cc in
    let q : record db { count = suc db.count } ≡ db' = cc in rw (← p, ← q) (refl, refl, λ j. refl)

abbrev pub memory : TaskTable
memory = record {
  Db = Store;
  find = λ id db. get id db.rows;
  counter = λ ws db. db.count;
  bump_counter = bump;
  find_user = robots;
  insert = insert;
  find_task = find_task;
  update = update;
  bump_counter_done = bump_lem;
  insert_done = λ x db t db' h. insert_lem x db (get x.task_id db.rows) t db' refl h;
  find_task_done =
      λ task_id ws id db h. seen_lem (get task_id db.rows) task_id ws id db.rows refl h;
  update_done = λ id c db t' db' h. update_lem id c db (get id db.rows) t' db' refl h;
}
