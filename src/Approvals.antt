-- ===== src/Approvals.antt =====
-- lib/services/approval.service.ts: approvals of AI actions.
--
-- The database is Prisma's: it is the parameter `ApprovalTable`, a record of the calls that the service
-- makes and of what Prisma documents about them. A service call takes and returns the `World`: the
-- database and the events sent so far. Times are milliseconds and `new Date()` is an argument.
pub mod Decisions
pub mod Signals
pub mod Route
pub mod Memory
mod Tests
use one_crew.Common.{
  ℕ, ◌+◌, ◌≡◌, ◌≢◌, String, Bool, true, Option, none, some, List, [], ◌∷◌, ◌++◌, ltb, if◌then◌else◌,
}
use one_crew.Common.Json.{Json, Fields, object}
use one_crew.WakeChain.{start_human_chain}
use one_crew.Workspace.{
  ApprovalStatus, pending, approved, rejected, ApprovalCreatedPayload, Effect, approval_created,
  approval_pending_notice, wakeup, reject, DbError, not_found, Outcome, done, threw,
  resolve_workspace_id, workspace_room,
}

pub record Approval : Type 0 where
  pub id : String
  pub workspace_id : String
  pub ai_user_id : String
  pub action : String
  pub payload : Json
  pub status : ApprovalStatus
  pub decided_by_id : Option String
  pub decided_at : Option ℕ
  pub created_at : ℕ

pub record CreateApprovalInput : Type 0 where
  pub ai_user_id : String
  pub action : String
  pub payload : Json

-- The `data` of the two updates.
pub record Decision : Type 0 where
  pub status : ApprovalStatus
  pub decided_by_id : String
  pub decided_at : ℕ

abbrev pub decided : Decision → Approval → Approval
decided d a = record a {
  status = d.status;
  decided_by_id = some d.decided_by_id;
  decided_at = some d.decided_at;
}

-- The calls of Prisma, and what its documentation says of them.
pub record ApprovalTable : Type 1 where
  pub Db : Type 0
  -- The row with an id, as it is committed.
  pub find : String → Db → Option Approval
  -- `approval.create`: workspace, input, and the status given.
  pub create_row : String → CreateApprovalInput → ApprovalStatus → Db → Outcome (Approval × Db)
  -- `approval.update` with `where: { id, workspaceId, status: 'PENDING' }`.
  pub update_pending : String → String → Decision → Db → Outcome (Approval × Db)
  -- `approval.findMany` with `where: { aiUserId, status: 'PENDING' }`.
  pub find_pending : String → Db → Outcome (List Approval)
  -- `user.findUnique` with the name selected.
  pub find_user_name : String → Db → Outcome (Option String)
  -- A created row carries what was given, under an id that was free; other rows stay.
  pub create_row_done :
      (ws : String) (input : CreateApprovalInput) (status : ApprovalStatus) (db : Db) (a : Approval)
      (db' : Db)
      → create_row ws input status db ≡ done (a, db')
      → (find a.id db ≡ none)
        × (find a.id db' ≡ some a)
        × ((j : String) → j ≢ a.id → find j db' ≡ find j db)
        × (a.workspace_id ≡ ws)
        × (a.ai_user_id ≡ input.ai_user_id)
        × (a.action ≡ input.action)
        × (a.payload ≡ input.payload)
        × (a.status ≡ status)
  -- An update that returns has found a row that fits its `where`, and changed that row alone.
  pub update_pending_done :
      (id ws : String) (d : Decision) (db : Db) (a' : Approval) (db' : Db)
      → update_pending id ws d db ≡ done (a', db')
      → (a : Approval) × (find id db ≡ some a)
        × (a.workspace_id ≡ ws)
        × (a.status ≡ pending)
        × (a' ≡ decided d a)
        × (find id db' ≡ some a')
        × ((j : String) → j ≢ id → find j db' ≡ find j db)

-- `toPayloadField`: an object, or null.
unfoldable pub to_payload_field : Json → Option Fields
to_payload_field (object fields) = some fields
to_payload_field _ = none

unfoldable pub to_approval_created_payload : Approval → ApprovalCreatedPayload
to_approval_created_payload a = record {
  id = a.id;
  ai_user_id = a.ai_user_id;
  action = a.action;
  payload = to_payload_field a.payload;
  status = a.status;
  created_at = a.created_at;
}

abbrev pub stale_threshold_ms : ℕ
stale_threshold_ms = 86_400_000

-- `now - createdAt > STALE_THRESHOLD_MS`, with the subtraction moved to the other side.
unfoldable pub is_stale : ℕ → ℕ → Bool
is_stale created_at now = ltb (created_at + stale_threshold_ms) now

module _ (t : ApprovalTable) where
  open t use {Db, create_row, update_pending, find_pending, find_user_name}

  -- `io_ready` says whether `getIO()` gives a server, `env` is WORKSPACE_ID.
  pub record World : Type 0 where
    pub db : Db
    pub log : List Effect
    pub io_ready : Bool
    pub env : Option String

  -- A broadcast is dropped while no server is there.
  abbrev broadcast : Effect → World → World
  broadcast e w = if w.io_ready then record w { log = w.log ++ e ∷ [] } else w

  abbrev pub send : Effect → World → World
  send e w = record w { log = w.log ++ e ∷ [] }

  -- `aiUser?.name ?? input.aiUserId`
  abbrev name_or : String → Option String → String
  name_or id none = id
  name_or id (some name) = name

  -- The notice to the operator; an error of the lookup is swallowed.
  notify_pending : CreateApprovalInput → World → World
  notify_pending input w = elim (find_user_name input.ai_user_id w.db) [
    | threw e ↦ w
    | done name ↦
        broadcast
          (approval_pending_notice (workspace_room w.env) input.action
            (name_or input.ai_user_id name))
          w
  ]

  unfoldable pub create : CreateApprovalInput → World → Outcome Approval × World
  unfolding notify_pending
  create input w = elim (create_row (resolve_workspace_id w.env) input pending w.db) [
    | threw e ↦ (threw e, w)
    | done (a, db) ↦
        let committed : World = record w { db = db } in
        let told =
          broadcast (approval_created (workspace_room w.env) (to_approval_created_payload a))
            committed in
        (done a, notify_pending input told)
  ]

  -- The last argument but one is the id that `randomUUID()` draws for the new wake chain.
  unfoldable pub approve : String → String → ℕ → String → World → Outcome Approval × World
  approve id decided_by now uuid w =
      let d : Decision = record {
        status = approved;
        decided_by_id = decided_by;
        decided_at = now;
      } in
      elim (update_pending id (resolve_workspace_id w.env) d w.db) [
        | threw e ↦ (threw e, w)
        | done (a, db) ↦ (
          done a,
          send (wakeup a.ai_user_id (start_human_chain uuid decided_by)) (record w { db = db }),
        )
      ]

  unfoldable pub reject_approval : String → String → ℕ → World → Outcome Approval × World
  reject_approval id decided_by now w =
      let d : Decision = record {
        status = rejected;
        decided_by_id = decided_by;
        decided_at = now;
      } in
      elim (update_pending id (resolve_workspace_id w.env) d w.db) [
        | threw e ↦ (threw e, w)
        | done (a, db) ↦ (done a, send (reject a.ai_user_id) (record w { db = db }))
      ]

  unfoldable pub list_pending_for_ai : String → World → Outcome (List Approval)
  list_pending_for_ai ai w = find_pending ai w.db
