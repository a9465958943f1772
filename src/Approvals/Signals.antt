-- ===== src/Approvals/Signals.antt =====
-- The events that approvals send: only after a commit, once, and of the right kind.
use one_crew.Common.{
  ℕ, ◌+◌, ◌≤◌, ◌≡◌, refl, ◌≢◌, ◌⊎◌, inl, inr, String, false, none, some, List, [], ◌∷◌, ◌++◌, arith,
  suc, ◌∙◌, length, length-append, All, eq_iff,
}
use one_crew.Workspace.{
  pending, approved, rejected, DbError, done, threw, Effect, approval_created,
  approval_pending_notice, wakeup, reject, resolve_workspace_id, workspace_room, Outcome-cases,
}
use one_crew.Approvals.{
  Approval, ApprovalTable, Decision, CreateApprovalInput, World, broadcast,
  to_approval_created_payload, notify_pending, create, approve, reject_approval,
}
use one_crew.Approvals.Decisions.{
  Call, approves, rejects, target, one_if_done, decide, run, decisions, decided_once,
}

-- The events that start cycles.
abbrev pub wakes : List Effect → ℕ
wakes [] = 0
wakes (wakeup ai ctx ∷ es) = suc (wakes es)
wakes (_ ∷ es) = wakes es

wakes-append : (xs ys : List Effect) → wakes (xs ++ ys) ≡ wakes xs + wakes ys
wakes-append [] ys = omega arith
wakes-append (wakeup ai ctx ∷ xs) ys = omega (arith, wakes-append xs ys)
wakes-append (approval_created r p ∷ xs) ys = wakes-append xs ys
wakes-append (approval_pending_notice r a n ∷ xs) ys = wakes-append xs ys
wakes-append (reject ai ∷ xs) ys = wakes-append xs ys

abbrev IsRejection : Call → Type 0
IsRejection (approves id by now uuid) = ⊥
IsRejection (rejects id by now) = Unit

module _ (t : ApprovalTable) where
  open t use {Db, find, update_pending, create_row, create_row_done, find_user_name}

  decide-length :
      (c : Call) (w : World t)
      → length (decide t c w).1.log ≡ length w.log + one_if_done (decide t c w).0
  unfolding decide approve reject_approval
  decide-length (approves id by now uuid) w =
      let d : Decision = record { status = approved; decided_by_id = by; decided_at = now } in
      elim (Outcome-cases (update_pending id (resolve_workspace_id w.env) d w.db)) [
        | inl (e, failed) ↦ rw (failed, approve) (omega arith)
        | inr (r, updated) ↦ rw (updated, approve) (length-append w.log _)
      ]
  decide-length (rejects id by now) w =
      let d : Decision = record { status = rejected; decided_by_id = by; decided_at = now } in
      elim (Outcome-cases (update_pending id (resolve_workspace_id w.env) d w.db)) [
        | inl (e, failed) ↦ rw (failed, reject_approval) (omega arith)
        | inr (r, updated) ↦ rw (updated, reject_approval) (length-append w.log _)
      ]

  run-length :
      (id : String) (cs : List Call) (w : World t)
      → All (λ c. target c ≡ id) cs
      → length (run t w cs).log ≡ length w.log + decisions t id w cs
  unfolding run decisions
  run-length id [] w h = omega arith
  run-length id (c ∷ cs) w (h, hs) =
      let own = (eq_iff (target c) id).1 h in
      simp own (omega (arith, decide-length c w, run-length id cs (decide t c w).1 hs))

  -- However many calls decide one approval, at most one event is sent, and none if no call decides
  -- it.
  pub one_signal :
      (id : String) (cs : List Call) (w : World t)
      → All (λ c. target c ≡ id) cs
      → (length (run t w cs).log ≤ length w.log + 1)
        × (decisions t id w cs ≡ 0 → length (run t w cs).log ≡ length w.log)
  one_signal id cs w h =
      let once = (decided_once t id cs w).0 in
      (omega (arith, run-length id cs w h), λ e. omega (arith, run-length id cs w h))

  decide-wakes : (c : Call) (w : World t) → IsRejection c → wakes (decide t c w).1.log ≡ wakes w.log
  unfolding decide reject_approval
  decide-wakes (approves id by now uuid) w h = absurd h
  decide-wakes (rejects id by now) w h =
      let d : Decision = record { status = rejected; decided_by_id = by; decided_at = now } in
      elim (Outcome-cases (update_pending id (resolve_workspace_id w.env) d w.db)) [
        | inl (e, failed) ↦ rw (failed, reject_approval)
        | inr (r, updated) ↦
            rw (updated, reject_approval)
              (omega (arith, wakes-append w.log (reject r.0.ai_user_id ∷ [])))
      ]

  -- Rejections of any approvals, in any number, never wake an AI.
  pub rejections_never_wake :
      (cs : List Call) (w : World t) → All IsRejection cs → wakes (run t w cs).log ≡ wakes w.log
  unfolding run
  rejections_never_wake [] w h = refl
  rejections_never_wake (c ∷ cs) w (h, hs) =
      rejections_never_wake cs (decide t c w).1 hs ∙ decide-wakes c w h

  broadcast-keeps :
      (e : Effect) (w : World t)
      → ((broadcast t e w).db ≡ w.db)
        × ((broadcast t e w).io_ready ≡ w.io_ready)
        × (w.io_ready ≡ false → (broadcast t e w).log ≡ w.log)
  broadcast-keeps e w = ground arith

  notify_pending-db :
      (input : CreateApprovalInput) (w : World t) → (notify_pending t input w).db ≡ w.db
  unfolding notify_pending
  notify_pending-db input w = elim (Outcome-cases (find_user_name input.ai_user_id w.db)) [
    | inl (e, failed) ↦ rw (failed, notify_pending)
    | inr (name, looked_up) ↦ rw (looked_up, notify_pending) (ground arith)
  ]

  notify_pending-log :
      (input : CreateApprovalInput) (w : World t)
      → w.io_ready ≡ false
      → (notify_pending t input w).log ≡ w.log
  unfolding notify_pending
  notify_pending-log input w off = elim (Outcome-cases (find_user_name input.ai_user_id w.db)) [
    | inl (e, failed) ↦ rw (failed, notify_pending)
    | inr (name, looked_up) ↦ rw (looked_up, notify_pending) (ground arith)
  ]

  -- A request for approval either throws and leaves the world as it was, or its pending row is in
  -- the table, with the caller's AI and workspace, under an id that was free, with every other row
  -- as before; without a realtime server nothing is sent.
  pub create_commits :
      (input : CreateApprovalInput) (w : World t)
      → ((e : DbError) × (create t input w ≡ (threw e, w)))
        ⊎ ((a : Approval) × ((create t input w).0 ≡ done a)
            × (find a.id w.db ≡ none)
            × (find a.id (create t input w).1.db ≡ some a)
            × (a.status ≡ pending)
            × (a.ai_user_id ≡ input.ai_user_id)
            × (a.workspace_id ≡ resolve_workspace_id w.env)
            × ((j : String) → j ≢ a.id → find j (create t input w).1.db ≡ find j w.db)
            × (w.io_ready ≡ false → (create t input w).1.log ≡ w.log))
  unfolding create
  create_commits input w =
      elim (Outcome-cases (create_row (resolve_workspace_id w.env) input pending w.db)) [
        | inl (e, failed) ↦ rw (failed, create) (inl (e, refl))
        | inr ((a, db), made) ↦
            let (free, is, others, ws, ai, _, _, open_now) =
              create_row_done (resolve_workspace_id w.env) input pending w.db a db made in
            let committed : World t = record w { db = db } in
            let event = approval_created (workspace_room w.env) (to_approval_created_payload a) in
            let told = broadcast t event committed in
            let same = notify_pending-db input told ∙ (broadcast-keeps event committed).0 in
            rw (made, create)
              (inr (
                a,
                refl,
                free,
                rw same is,
                open_now,
                ai,
                ws,
                (λ j other. rw same (others j other)),
                λ off.
                    notify_pending-log input told ((broadcast-keeps event committed).1 ∙ off)
                    ∙ (broadcast-keeps event committed).2 off,
              ))
      ]
