-- ===== src/Approvals/Tests.antt =====
-- Approvals over the table in memory: runs, and the theorems at concrete calls.
use one_crew.Common.{◌+◌, ◌≤◌, ◌≡◌, refl, true, false, none, [], ◌∷◌, List}
use one_crew.Common.Json.{number}
use one_crew.Common.Dict.{get, set}
use one_crew.WakeChain.{start_human_chain}
use one_crew.Workspace.{pending, resolve_workspace_id}
use one_crew.Approvals.{Approval, World, create, approve, reject_approval, is_stale}
use one_crew.Approvals.Memory.{memory, create_row, update_found, update_pending}
use one_crew.Approvals.Decisions.{
  Call, approves, rejects, decide, run, decisions, one_if_pending, decided_once,
}

service : Unit {0}
unfolding get set create_row update_found update_pending resolve_workspace_id create approve
    reject_approval decide run decisions is_stale start_human_chain
service = tt

abbrev row : Approval
row = record {
  id = "a1";
  workspace_id = "ws_default";
  ai_user_id = "ada";
  action = "create_task";
  payload = number 3;
  status = pending;
  decided_by_id = none;
  decided_at = none;
  created_at = 0;
}

abbrev w : World memory
w = record { db = ("a1", row) ∷ []; log = []; io_ready = false; env = none }

abbrev calls : List Call
calls = rejects "a1" "mia" 5 ∷ approves "a1" "pm" 6 "c1" ∷ []

-- The first decision stands, and the second finds nothing to update.
first_wins : decisions memory "a1" w calls ≡ 1
unfolding service
first_wins = refl

stale_after_a_day : (is_stale 5 86_400_005 ≡ false) × (is_stale 5 86_400_006 ≡ true)
unfolding service
stale_after_a_day = (refl, refl)

decided_once_example :
    (decisions memory "a1" w calls ≤ 1)
    × (decisions memory "a1" w calls + one_if_pending (get "a1" (run memory w calls).db)
        ≡ one_if_pending (get "a1" w.db))
decided_once_example = decided_once memory "a1" calls w
