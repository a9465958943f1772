-- ===== src/Approvals/Decisions.antt =====
-- An approval is decided once: `approve` and `reject` over any sequence of calls.
use one_crew.Common.{
  ℕ, ◌+◌, ◌≤◌, ◌≡◌, refl, sym, ◌≢◌, ◌⊎◌, inl, inr, String, Option, none, some, List, [], ◌∷◌, arith,
  str_eq, eq_iff, str-cases, str_eq_of_ne, if◌then◌else◌,
}
use one_crew.Workspace.{
  ApprovalStatus, pending, approved, rejected, DbError, Outcome, done, threw, resolve_workspace_id,
  Outcome-cases,
}
use one_crew.Approvals.{Approval, ApprovalTable, Decision, World, approve, reject_approval}

-- A decision on the approval `id` that some caller asks for.
pub data Call : Type 0 where
  approves : (id decided_by : String) (now : ℕ) (uuid : String) → Call
  rejects : (id decided_by : String) (now : ℕ) → Call

abbrev pub target : Call → String
target (approves id by now uuid) = id
target (rejects id by now) = id

-- The status that a call asks for.
abbrev pub wish : Call → ApprovalStatus
wish (approves id by now uuid) = approved
wish (rejects id by now) = rejected

abbrev pub one_if_done : Outcome Approval → ℕ
one_if_done (done a) = 1
one_if_done (threw e) = 0

abbrev pub one_if_pending : Option Approval → ℕ
one_if_pending none = 0
one_if_pending (some a) = elim a.status [ pending ↦ 1 | _ ↦ 0 ]

was_open :
    (o : Option Approval) (a : Approval) → o ≡ some a → a.status ≡ pending → one_if_pending o ≡ 1
was_open o a e h = rw e (ground arith)

is_closed :
    (c : Call) (o : Option Approval) (a : Approval)
    → o ≡ some a
    → a.status ≡ wish c
    → one_if_pending o ≡ 0
is_closed (approves i b n u) o a e h = rw e (ground arith)
is_closed (rejects i b n) o a e h = rw e (ground arith)

module _ (t : ApprovalTable) where
  open t use {Db, find, update_pending, update_pending_done}

  unfoldable pub decide : Call → World t → Outcome Approval × World t
  decide (approves id by now uuid) w = approve t id by now uuid w
  decide (rejects id by now) w = reject_approval t id by now w

  -- A call throws and leaves the world as it was, or it finds its row pending and writes what it
  -- wishes to it, and to no other row.
  abbrev Took : Call → World t → Outcome Approval × World t → Type 0
  Took c w r =
      ((e : DbError) × (r ≡ (threw e, w)))
      ⊎ ((a a' : Approval) × (r.0 ≡ done a')
          × (find (target c) w.db ≡ some a)
          × (a.status ≡ pending)
          × (a'.status ≡ wish c)
          × (find (target c) r.1.db ≡ some a')
          × ((j : String) → j ≢ target c → find j r.1.db ≡ find j w.db))

  decide-Took : (c : Call) (w : World t) → Took c w (decide c w)
  unfolding decide approve reject_approval
  decide-Took (approves id by now uuid) w =
      let ws = resolve_workspace_id w.env in
      let d : Decision = record { status = approved; decided_by_id = by; decided_at = now } in
      elim (Outcome-cases (update_pending id ws d w.db)) [
        | inl (e, failed) ↦ rw (failed, approve) (inl (e, refl))
        | inr ((a', db), updated) ↦
            let (a, was, _, open_before, same, is, others) =
              update_pending_done id ws d w.db a' db updated in
            rw (updated, approve) (inr (a, a', refl, was, open_before, rw same refl, is, others))
      ]
  decide-Took (rejects id by now) w =
      let ws = resolve_workspace_id w.env in
      let d : Decision = record { status = rejected; decided_by_id = by; decided_at = now } in
      elim (Outcome-cases (update_pending id ws d w.db)) [
        | inl (e, failed) ↦ rw (failed, reject_approval) (inl (e, refl))
        | inr ((a', db), updated) ↦
            let (a, was, _, open_before, same, is, others) =
              update_pending_done id ws d w.db a' db updated in
            rw (updated, reject_approval)
              (inr (a, a', refl, was, open_before, rw same refl, is, others))
      ]

  -- The calls of a run, one after the other.
  unfoldable pub run : World t → List Call → World t
  run w [] = w
  run w (c ∷ cs) = run (decide c w).1 cs

  -- How many of them decide the approval `id`.
  unfoldable pub decisions : String → World t → List Call → ℕ
  decisions id w [] = 0
  decisions id w (c ∷ cs) =
      (if str_eq (target c) id then one_if_done (decide c w).0 else 0)
      + decisions id (decide c w).1 cs

  -- A decision closes the approval, and nothing else does.
  decide-open :
      (id : String) (c : Call) (w : World t)
      → (if str_eq (target c) id then one_if_done (decide c w).0 else 0)
          + one_if_pending (find id (decide c w).1.db)
        ≡ one_if_pending (find id w.db)
  decide-open id c w = elim (decide-Took c w) [
    | inl (e, failed) ↦ rw failed (ground arith)
    | inr (a, a', ok, was, open_before, now_is, is, others) ↦ elim (str-cases (target c) id) [
      | inl same ↦
          let own = (eq_iff (target c) id).1 same in
          let before = was_open (find id w.db) a (rw same at was) open_before in
          let after = is_closed c _ a' (rw same at is) now_is in
          rw (own, ok) (omega (arith, before, after))
      | inr other ↦ rw (str_eq_of_ne _ _ other, others id (λ e. other (sym e))) (omega arith)
    ]
  ]

  decisions-open :
      (id : String) (cs : List Call) (w : World t)
      → decisions id w cs + one_if_pending (find id (run w cs).db) ≡ one_if_pending (find id w.db)
  unfolding decisions run
  decisions-open id [] w = omega arith
  decisions-open id (c ∷ cs) w =
      omega (arith, decide-open id c w, decisions-open id cs (decide c w).1)

  one_if_pending-le : (o : Option Approval) → one_if_pending o ≤ 1
  one_if_pending-le none = omega arith
  one_if_pending-le (some a) = ground arith

  -- However many callers approve and reject approvals, in whatever order, at most one of the calls
  -- decides a given approval; and one does exactly when it was pending before and is pending no
  -- more.
  pub decided_once :
      (id : String) (cs : List Call) (w : World t)
      → (decisions id w cs ≤ 1)
        × (decisions id w cs + one_if_pending (find id (run w cs).db)
            ≡ one_if_pending (find id w.db))
  decided_once id cs w = (
    omega (arith, decisions-open id cs w, one_if_pending-le (find id w.db)),
    decisions-open id cs w,
  )
