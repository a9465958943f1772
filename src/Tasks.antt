-- ===== src/Tasks.antt =====
-- lib/services/task.service.ts: the tasks of the board, their numbers, moves and assignments. Prisma
-- is a parameter. A call's own queries see the database as the one before left it.
pub mod Board
pub mod Summary
pub mod Team
pub mod Numbers
pub mod Issue
mod Prefix
pub mod Tally
pub mod Memory
mod Tests
use one_crew.Common.{
  ℕ, suc, ◌+◌, ◌-◌, ◌≡◌, ◌≢◌, String, Bool, true, false, ◌||◌, Option, none, some, List, [], ◌∷◌,
  ◌++◌, length, take, keep, leb, str_eq, if◌then◌else◌,
}
use one_crew.Workspace.{
  resolve_workspace_id, workspace_room, DbError, not_found, Outcome, done, threw,
}
use Prim.Native.String

pub data TaskStatus : Type 0 where
  backlog in_progress in_review finished : TaskStatus

-- `isTaskStatus`: the status that a text names, if it names one.
unfoldable pub as_task_status : String → Option TaskStatus
as_task_status value =
    if str_eq value "Backlog"
    then some backlog
    else if str_eq value "InProgress"
    then some in_progress
    else if str_eq value "InReview"
    then some in_review
    else if str_eq value "Done"
    then some finished
    else none

-- A row of the table of tasks; times in milliseconds.
pub record Task : Type 0 where
  pub id : String
  pub task_id : String
  pub title : String
  pub description : Option String
  pub status : TaskStatus
  pub is_ai_task : Bool
  pub workspace_id : String
  pub creator_id : String
  pub assignee_id : Option String
  pub created_at : ℕ
  pub updated_at : ℕ

pub record TaskUpdatedPayload : Type 0 where
  pub id : String
  pub task_id : String
  pub title : String
  pub description : Option String
  pub status : TaskStatus
  pub is_ai_task : Bool
  pub creator_id : String
  pub assignee_id : Option String
  pub created_at : ℕ
  pub updated_at : ℕ

pub record CreateTaskInput : Type 0 where
  pub title : String
  pub description : Option String
  pub creator_id : String
  pub assignee_id : Option String

-- The columns of a user that the service selects.
pub record User : Type 0 where
  pub id : String
  pub is_ai : Bool

-- The `data` of an insertion.
pub record NewTask : Type 0 where
  pub task_id : String
  pub title : String
  pub description : Option String
  pub status : TaskStatus
  pub is_ai_task : Bool
  pub workspace_id : String
  pub creator_id : String
  pub assignee_id : Option String

-- The `data` of an update.
pub data Change : Type 0 where
  to_status : TaskStatus → Change
  to_assignee : String → Change

-- The row after an update at the time `now`.
abbrev pub changed : Change → ℕ → Task → Task
changed (to_status s) now t = record t { status = s; updated_at = now }
changed (to_assignee a) now t = record t {
  assignee_id = some a;
  is_ai_task = true;
  updated_at = now;
}

-- The row holds what the insertion asked for.
abbrev pub Holds : NewTask → Task → Type 0
Holds n t =
    (t.task_id ≡ n.task_id)
    × (t.title ≡ n.title)
    × (t.description ≡ n.description)
    × (t.status ≡ n.status)
    × (t.is_ai_task ≡ n.is_ai_task)
    × (t.workspace_id ≡ n.workspace_id)
    × (t.creator_id ≡ n.creator_id)
    × (t.assignee_id ≡ n.assignee_id)

-- What the service asks of the database: `find` and `counter` read it, the others are its queries.
pub record TaskTable : Type 1 where
  pub Db : Type 0
  pub find : String → Db → Option Task
  pub counter : String → Db → ℕ
  pub bump_counter : String → Db → Outcome (ℕ × Db)
  pub find_user : String → Db → Outcome (Option User)
  pub insert : NewTask → Db → Outcome (Task × Db)
  pub find_task : String → String → Db → Outcome (Option String)
  pub update : String → Change → Db → Outcome (Task × Db)
  -- An increment returns the new value, and changes that counter alone.
  pub bump_counter_done :
      (ws : String) (db : Db) (n : ℕ) (db' : Db)
      → bump_counter ws db ≡ done (n, db')
      → (n ≡ suc (counter ws db)) × (counter ws db' ≡ n) × ((j : String) → find j db' ≡ find j db)
  -- An insertion adds one row, under an id that was free.
  pub insert_done :
      (x : NewTask) (db : Db) (t : Task) (db' : Db)
      → insert x db ≡ done (t, db')
      → Holds x t
        × (find t.id db ≡ none)
        × (find t.id db' ≡ some t)
        × ((j : String) → j ≢ t.id → find j db' ≡ find j db)
        × ((ws : String) → counter ws db' ≡ counter ws db)
  -- The id that a lookup by task id and workspace gives is one of such a row.
  pub find_task_done :
      (task_id ws id : String) (db : Db)
      → find_task task_id ws db ≡ done (some id)
      → (t : Task) × (find id db ≡ some t) × (t.task_id ≡ task_id) × (t.workspace_id ≡ ws)
  -- An update that returns has found its row, and changed that row alone.
  pub update_done :
      (id : String) (c : Change) (db : Db) (t' : Task) (db' : Db)
      → update id c db ≡ done (t', db')
      → (t : Task) × (now : ℕ) × (find id db ≡ some t)
        × (t' ≡ changed c now t)
        × (find id db' ≡ some t')
        × ((j : String) → j ≢ id → find j db' ≡ find j db)

unfoldable pub to_task_updated_payload : Task → TaskUpdatedPayload
to_task_updated_payload t = record {
  id = t.id;
  task_id = t.task_id;
  title = t.title;
  description = t.description;
  status = t.status;
  is_ai_task = t.is_ai_task;
  creator_id = t.creator_id;
  assignee_id = t.assignee_id;
  created_at = t.created_at;
  updated_at = t.updated_at;
}

pub data TaskEvent : Type 0 where
  task_updated : (room : String) → TaskUpdatedPayload → TaskEvent
  task_done_notice : (room task_id title : String) → TaskEvent

-- A call returns a task, or throws a `ValidationError` or an error of the database.
pub data Result : Type 0 where
  returned : Task → Result
  invalid_status : Result
  no_such_task : Result
  failed : DbError → Result

abbrev pub bind {ℓ κ} : {A : Type ℓ} {B : Type κ} → Outcome A → (A → Outcome B) → Outcome B
bind (threw e) f = threw e
bind (done a) f = f a

-- `findUniqueOrThrow`
abbrev pub or_throw : Option User → Outcome User
or_throw none = threw not_found
or_throw (some u) = done u

-- `assignee?.isAI ?? false` and `assignee?.id`
abbrev pub is_ai_user : Option User → Bool
is_ai_user none = false
is_ai_user (some u) = u.is_ai

abbrev pub id_of : Option User → Option String
id_of none = none
id_of (some u) = some u.id

module _ (t : TaskTable) (decimal : ℕ → String) where
  open t use {Db, bump_counter, find_user, insert, find_task, update}

  -- The database, the events sent, whether a realtime server is up, and `WORKSPACE_ID`.
  pub record World : Type 0 where
    pub db : Db
    pub log : List TaskEvent
    pub io_ready : Bool
    pub env : Option String

  abbrev pub send : TaskEvent → World → World
  send e w = if w.io_ready then record w { log = w.log ++ e ∷ [] } else w

  abbrev pub broadcast_task_updated : Task → World → World
  broadcast_task_updated x w =
      send (task_updated (workspace_room w.env) (to_task_updated_payload x)) w

  abbrev pub notify_if_done : Task → World → World
  notify_if_done x w = elim x.status [
    | finished ↦ send (task_done_notice (workspace_room w.env) x.task_id x.title) w
    | _ ↦ w
  ]

  abbrev pub project_id : ℕ → String
  project_id n = String.◌++◌ "PROJ-" (decimal n)

  abbrev pub find_assignee : Option String → Db → Outcome (Option User)
  find_assignee none db = done none
  find_assignee (some id) db = if str_eq id "" then done none else find_user id db

  abbrev pub new_task : CreateTaskInput → String → ℕ → User → Option User → NewTask
  new_task input ws n creator assignee = record {
    task_id = project_id n;
    title = input.title;
    description = input.description;
    status = backlog;
    is_ai_task = creator.is_ai || is_ai_user assignee;
    workspace_id = ws;
    creator_id = creator.id;
    assignee_id = id_of assignee;
  }

  abbrev pub creator_of : CreateTaskInput → Db → Outcome User
  creator_of input db = bind (find_user input.creator_id db) or_throw

  abbrev pub insert_for : CreateTaskInput → String → ℕ → Db → User → Outcome (Task × Db)
  insert_for input ws n db creator =
      bind (find_assignee input.assignee_id db)
        (λ assignee. insert (new_task input ws n creator assignee) db)

  abbrev pub insert_numbered : CreateTaskInput → String → ℕ × Db → Outcome (Task × Db)
  insert_numbered input ws (n, db) = bind (creator_of input db) (insert_for input ws n db)

  -- The transaction of `create`: a step that throws rolls all of it back.
  abbrev pub transaction : CreateTaskInput → String → Db → Outcome (Task × Db)
  transaction input ws db = bind (bump_counter ws db) (insert_numbered input ws)

  abbrev committed : Outcome (Task × Db) → World → Result × World
  committed (threw e) w = (failed e, w)
  committed (done (x, db)) w = (returned x, broadcast_task_updated x (record w { db = db }))

  unfoldable pub create : CreateTaskInput → World → Result × World
  create input w = committed (transaction input (resolve_workspace_id w.env) w.db) w

  -- The lookup by task id and workspace, and the update of the row that it gives.
  abbrev found_and_updated : Outcome (Option String) → Change → Db → Outcome (Option (Task × Db))
  found_and_updated (threw e) c db = threw e
  found_and_updated (done none) c db = done none
  found_and_updated (done (some id)) c db = bind (update id c db) (λ r. done (some r))

  abbrev change_row : String → Change → World → Outcome (Option (Task × Db))
  change_row task_id c w =
      found_and_updated (find_task task_id (resolve_workspace_id w.env) w.db) c w.db

  abbrev moved : Outcome (Option (Task × Db)) → World → Result × World
  moved (threw e) w = (failed e, w)
  moved (done none) w = (no_such_task, w)
  moved (done (some (x, db))) w =
      (returned x, notify_if_done x (broadcast_task_updated x (record w { db = db })))

  abbrev move_to : Option TaskStatus → String → World → Result × World
  move_to none task_id w = (invalid_status, w)
  move_to (some s) task_id w = moved (change_row task_id (to_status s) w) w

  unfoldable pub update_status : String → String → World → Result × World
  update_status task_id status w = move_to (as_task_status status) task_id w

  abbrev assigned : Outcome (Option (Task × Db)) → World → Result × World
  assigned (threw e) w = (failed e, w)
  assigned (done none) w = (no_such_task, w)
  assigned (done (some (x, db))) w = (returned x, broadcast_task_updated x (record w { db = db }))

  unfoldable pub assign : String → String → World → Result × World
  assign task_id assignee w = assigned (change_row task_id (to_assignee assignee) w) w

abbrev pub recent_task_window_ms : ℕ
recent_task_window_ms = 86_400_000

abbrev pub recent_task_limit : ℕ
recent_task_limit = 20

-- `counts`, one number for each column.
pub record Counts : Type 0 where
  pub in_backlog : ℕ
  pub in_progress : ℕ
  pub in_review : ℕ
  pub in_done : ℕ

abbrev pub count_one : TaskStatus → Counts → Counts
count_one backlog c = record c { in_backlog = suc c.in_backlog }
count_one in_progress c = record c { in_progress = suc c.in_progress }
count_one in_review c = record c { in_review = suc c.in_review }
count_one finished c = record c { in_done = suc c.in_done }

unfoldable pub count_all : List Task → Counts → Counts
count_all [] c = c
count_all (x ∷ xs) c = count_all xs (count_one x.status c)

pub record TeammateTaskSummary : Type 0 where
  pub counts : Counts
  pub total : ℕ
  pub recently_updated : List Task

-- `updatedAt >= now - RECENT_TASK_WINDOW_MS`
abbrev pub is_recent : ℕ → Task → Bool
is_recent now x = leb now (x.updated_at + recent_task_window_ms)

-- `summarizeForAI` on the rows of the query; a recent task's columns are those of the row.
unfoldable pub summarize : ℕ → List Task → TeammateTaskSummary
unfolding count_all
summarize now tasks = record {
  counts = count_all tasks (record { in_backlog = 0; in_progress = 0; in_review = 0; in_done = 0 });
  total = length tasks;
  recently_updated = take recent_task_limit (keep (is_recent now) tasks);
}
