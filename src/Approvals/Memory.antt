-- ===== src/Approvals/Memory.antt =====
-- A table in memory that keeps to what `ApprovalTable` asks for.
use one_crew.Common.{
  ◌≡◌, refl, sym, ◌≢◌, inl, inr, String, Bool, true, false, ◌&&◌, Option, none, some, arith, str_eq,
  eq_iff, if◌then◌else◌, Option-cases,
}
use one_crew.Common.Dict.{Dict, get, set, get-set_self, get-set_ne}
use one_crew.Workspace.{ApprovalStatus, pending, DbError, not_found, other, Outcome, done, threw}
use one_crew.Approvals.{Approval, CreateApprovalInput, Decision, decided, ApprovalTable}

abbrev pub Rows : Type 0
Rows = Dict Approval

abbrev pub new_id : String
new_id = "a1"

abbrev pub new_row : String → CreateApprovalInput → ApprovalStatus → Approval
new_row ws input status = record {
  id = new_id;
  workspace_id = ws;
  ai_user_id = input.ai_user_id;
  action = input.action;
  payload = input.payload;
  status = status;
  decided_by_id = none;
  decided_at = none;
  created_at = 0;
}

abbrev pub create_at :
    Option Approval
    → String
    → CreateApprovalInput
    → ApprovalStatus
    → Rows
    → Outcome (Approval × Rows)
create_at (some a) ws input status db = threw other
create_at none ws input status db =
    done (new_row ws input status, set new_id (new_row ws input status) db)

unfoldable pub create_row :
    String → CreateApprovalInput → ApprovalStatus → Rows → Outcome (Approval × Rows)
create_row ws input status db = create_at (get new_id db) ws input status db

abbrev pub is_pending : ApprovalStatus → Bool
is_pending pending = true
is_pending _ = false

unfoldable pub update_found :
    Approval → String → String → Decision → Rows → Outcome (Approval × Rows)
update_found a id ws d db =
    if str_eq a.workspace_id ws && is_pending a.status
    then done (decided d a, set id (decided d a) db)
    else threw not_found

abbrev pub update_at :
    Option Approval → String → String → Decision → Rows → Outcome (Approval × Rows)
update_at none id ws d db = threw not_found
update_at (some a) id ws d db = update_found a id ws d db

unfoldable pub update_pending : String → String → Decision → Rows → Outcome (Approval × Rows)
update_pending id ws d db = update_at (get id db) id ws d db

done-injective :
    (a a' : Approval) (db db' : Rows)
    → ◌≡◌ {A = Outcome (Approval × Rows)} (done (a, db)) (done (a', db'))
    → (a ≡ a') × (db ≡ db')
done-injective a a' db db' e = (cc, cc)

threw-ne-done :
    {e : DbError} (r : Approval × Rows) → ◌≡◌ {A = Outcome (Approval × Rows)} (threw e) (done r) → ⊥
threw-ne-done r h = cc

done_of_if :
    (b : Bool) {x y : Approval × Rows}
    → ◌≡◌ {A = Outcome (Approval × Rows)} (if b then done x else threw not_found) (done y)
    → ◌≡◌ {A = Outcome (Approval × Rows)} (done x) (done y)
done_of_if true e = e
done_of_if false e = cc

update_found_done :
    (a : Approval) (id ws : String) (d : Decision) (db : Rows) (a' : Approval) (db' : Rows)
    → update_found a id ws d db ≡ done (a', db')
    → (a.workspace_id ≡ ws)
      × (a.status ≡ pending)
      × (◌≡◌ {A = Outcome (Approval × Rows)}
          (done (decided d a, set id (decided d a) db))
          (done (a', db')))
unfolding update_found
update_found_done a id ws d db a' db' e =
    (ground (arith, eq_iff a.workspace_id ws), ground arith, done_of_if _ e)

pub create_row_done :
    (ws : String) (input : CreateApprovalInput) (status : ApprovalStatus) (db : Rows) (a : Approval)
    (db' : Rows)
    → create_row ws input status db ≡ done (a, db')
    → (get a.id db ≡ none)
      × (get a.id db' ≡ some a)
      × ((j : String) → j ≢ a.id → get j db' ≡ get j db)
      × (a.workspace_id ≡ ws)
      × (a.ai_user_id ≡ input.ai_user_id)
      × (a.action ≡ input.action)
      × (a.payload ≡ input.payload)
      × (a.status ≡ status)
unfolding create_row
create_row_done ws input status db a db' e = elim (Option-cases (get new_id db)) [
  | inl free ↦
      let row = new_row ws input status in
      let (same_row, same_db) = done-injective row a _ db' (rw (free, create_at) at e) in
      rw (← same_row, ← same_db)
        (
          free,
          get-set_self new_id row db,
          (λ j other. get-set_ne new_id j row db (λ p. other (sym p))),
          refl,
          refl,
          refl,
          refl,
          refl,
        )
  | inr (b, taken) ↦ absurd (threw-ne-done _ (rw (taken, create_at) at e))
]

pub update_pending_done :
    (id ws : String) (d : Decision) (db : Rows) (a' : Approval) (db' : Rows)
    → update_pending id ws d db ≡ done (a', db')
    → (a : Approval) × (get id db ≡ some a)
      × (a.workspace_id ≡ ws)
      × (a.status ≡ pending)
      × (a' ≡ decided d a)
      × (get id db' ≡ some a')
      × ((j : String) → j ≢ id → get j db' ≡ get j db)
unfolding update_pending update_found
update_pending_done id ws d db a' db' e = elim (Option-cases (get id db)) [
  | inl missing ↦ absurd (threw-ne-done _ (rw (missing, update_at) at e))
  | inr (a, found) ↦
      let (ws_ok, was_pending, written) =
        update_found_done a id ws d db a' db' (rw (found, update_at) at e) in
      let (same_row, same_db) = done-injective (decided d a) a' _ db' written in
      rw (← same_row, ← same_db)
        (
          a,
          found,
          ws_ok,
          was_pending,
          refl,
          get-set_self id (decided d a) db,
          λ j other. get-set_ne id j (decided d a) db (λ p. other (sym p)),
        )
]

abbrev pub memory : ApprovalTable
memory = record {
  Db = Rows;
  find = get;
  create_row = create_row;
  update_pending = update_pending;
  find_pending = λ ai db. threw other;
  find_user_name = λ id db. done none;
  create_row_done = create_row_done;
  update_pending_done = update_pending_done;
}
