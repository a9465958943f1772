-- ===== src/Reports/Trigger.antt =====
-- app/api/reports/trigger/route.ts: a report on demand. The session, the parsed body and the answer of
-- the look-up are arguments; a query that throws ends the request in the framework's error answer.
use one_crew.Common.{ℕ, String, Bool, false, Option, none, some, str_eq, leb, if◌then◌else◌}
use one_crew.Common.Texts.{◌&◌, Attempt, returns, throws}
use one_crew.Api.{require_session, enforce_rate_limit}
use one_crew.Bridge.{JsonCodec}
use one_crew.Office.{Outside, Office, team}
use one_crew.RateLimit.{Limiter, approval_limit}
use one_crew.Reports.{ReportStatus, DailyReportResult, Ai, State, ReportEnv, run_report_for_ai}
use one_crew.Workspace.{resolve_workspace_id}

-- What reading the body gives: the text of `aiUserId`, where it holds one.
pub data Body : Type 0 where
  malformed mistyped : Body
  ai_user_id : String → Body

pub data Response : Type 0 where
  unauthorized bad_request no_such_ai crashed : Response
  too_many : ℕ → Response
  report : ReportStatus → Response

module _ (json : JsonCodec) (o : Outside) (env : ReportEnv json o) where
  pub record World : Type 0 where
    pub state : State json o
    pub limiter : Limiter
    -- `WORKSPACE_ID`
    pub workspace : Option String

  -- `prisma.user.findFirst` over the AIs: by id and workspace.
  abbrev pub FindAi : Type 0
  FindAi = String → String → Office o → Attempt (Option Ai)

  abbrev pub reported : World → DailyReportResult × State json o → Response × World
  reported w (r, st) = (report r.status, record w { state = st })

  abbrev pub checked : Attempt (Option Ai) → World → Response × World
  checked (throws m) w = (crashed, w)
  checked (returns none) w = (no_such_ai, w)
  checked (returns (some ai)) w = reported w (run_report_for_ai json o env ai w.state)

  abbrev pub limited : FindAi → String → Option ℕ × Limiter → World → Response × World
  limited find id (some after, l) w = (too_many after, record w { limiter = l })
  limited find id (none, l) w =
      checked (find id (resolve_workspace_id w.workspace) w.state.world) (record w { limiter = l })

  -- `z.string().min(1).max(100)`
  unfoldable pub is_id : String → Bool
  is_id id = if str_eq id "" then false else leb ((team o).units id) 100

  abbrev pub with_body : FindAi → String → Body → ℕ → World → Response × World
  with_body find user malformed now w = (bad_request, w)
  with_body find user mistyped now w = (bad_request, w)
  with_body find user (ai_user_id id) now w =
      if is_id id
      then limited find id
          (enforce_rate_limit w.limiter ("daily-report:" & id) user approval_limit now) w
      else (bad_request, w)

  abbrev pub signed_in : FindAi → Option String → Body → ℕ → World → Response × World
  signed_in find none body now w = (unauthorized, w)
  signed_in find (some user) body now w = with_body find user body now w

  -- `POST`
  unfoldable pub post_trigger : FindAi → Option String → Body → ℕ → World → Response × World
  unfolding is_id
  post_trigger find session body now w = signed_in find (require_session session) body now w
