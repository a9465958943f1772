-- ===== src/Tasks/Tests.antt =====
-- Runs of the task service on the table in memory.
use one_crew.Common.{◌≡◌, ◌⊎◌, true, false, none, some, [], ◌∷◌, ◌++◌}
use one_crew.Workspace.{DbError, resolve_workspace_id}
use one_crew.Tasks.{
  TaskStatus, as_task_status, failed, Task, CreateTaskInput, World, to_status, create,
  update_status, returned,
}
use one_crew.Tasks.Memory.{memory}
use one_crew.Tasks.Tally.{tally, tally-injective}
use one_crew.Tasks.Board.{ThrowsOr, Changed, announced, update_status_branches}
use one_crew.Tasks.Numbers.{Created, create_branches}
use one_crew.Tasks.Issue.{AreDistinct, issued, ids_distinct}

abbrev wire : CreateTaskInput
wire = record {
  title = "wire it up";
  description = none;
  creator_id = "mia";
  assignee_id = some "ada";
}

abbrev opening : World memory tally
opening = record { db = record { rows = []; count = 0 }; log = []; io_ready = true; env = none }

abbrev board : World memory tally
board = (create memory tally wire opening).1

ids_distinct_example : AreDistinct (issued memory tally (wire ∷ wire ∷ []) opening)
ids_distinct_example = ids_distinct memory tally (wire ∷ wire ∷ []) opening tally-injective

update_status_branches_example :
    ThrowsOr memory tally (update_status memory tally "PROJ-1" "Done" board) board (λ x w'.
      (s : TaskStatus) × (as_task_status "Done" ≡ some s)
      × Changed memory tally "PROJ-1" (to_status s) board x w'.db
      × (w'.log ≡ board.log ++ announced memory tally board x))
update_status_branches_example = update_status_branches memory tally "PROJ-1" "Done" board

create_branches_example :
    ((e : DbError) × (create memory tally wire opening ≡ (failed e, opening)))
    ⊎ ((x : Task) × ((create memory tally wire opening).0 ≡ returned x)
        × Created memory tally wire
            (resolve_workspace_id none)
            opening.db
            x
            (create memory tally wire opening).1.db
        × ((create memory tally wire opening).1.env ≡ none)
        × (true ≡ false → (create memory tally wire opening).1.log ≡ []))
create_branches_example = create_branches memory tally wire opening
