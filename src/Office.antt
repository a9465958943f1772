-- ===== src/Office.antt =====
-- The services of the process wired together as the tools find them: the tasks, messages and
-- approvals over their tables, the daily budget, the network tools, and the wake-chain guard with the
-- agentic loop behind the emitter.
pub mod Handoffs
pub mod Memory
mod Tests
use one_crew.Common.{ℕ, String, Bool, true, false, Option, none, some, List, [], ◌∷◌, ◌++◌}
use one_crew.Common.Texts.{◌&◌, Attempt, returns, throws}
use one_crew.Common.Json.{Json, text}
use one_crew.Budget as Money
use one_crew.Budget.{BudgetEnv, JsNumber, natural, UsageSample}
use one_crew.WakeChain.{WakeContext, WakeEnv, WakeVerdict, Chains, peek_wake}
use one_crew.AgenticLoop.{LoopState, on_wakeup}
use one_crew.Workspace.{DbError, Outcome, done, threw}
use one_crew.Tasks as TaskService
use one_crew.Tasks.{
  Task, TaskTable, Result, returned, invalid_status, no_such_task, failed, TeammateTaskSummary,
}
use one_crew.Tasks.Team.{Roster, Teammate, Resolution, resolve_teammate, resolve_handoff_target}
use one_crew.Messages as MessageService
use one_crew.Messages.{Message, MessageTable, TextApi, Posted, posted}
use one_crew.Approvals as ApprovalService
use one_crew.Approvals.{Approval, ApprovalTable}
use one_crew.Network.{with_safe_execution, default_tool_timeout_ms}
use one_crew.Network.Search.{
  SearchEnv, SearchRequest, SearchResult, Response, web_search, format_results,
}
use one_crew.Network.Docs.{Encoding, Reply, read_project_docs}
use one_crew.Network.Mocks.{mock_web_search, mock_read_project_docs}
use one_crew.Tools.{ToolName}
use one_crew.Tools.Analysis.{Js}
use one_crew.Tools.Dispatch.{Services, Channel}

-- What is outside: the tables, the queries of the roster and of the channels, `fetch`, the clock, and
-- the functions of JavaScript and of zod; and the settings.
pub record Outside : Type 1 where
  pub tasks : TaskTable
  pub messages : MessageTable
  pub approvals : ApprovalTable
  pub api : TextApi
  pub js : Js
  pub enc : Encoding
  pub zod_message : ToolName → Json → String
  pub explain_task : Result → String
  pub explain_post : Posted → String
  pub explain_db : DbError → String
  pub fetch_search : SearchRequest → Attempt Response
  pub fetch_docs : String → Attempt Reply
  pub search_env : SearchEnv
  pub budget_env : BudgetEnv
  pub wake_env : WakeEnv
  pub web_search_cost : JsNumber
  pub handoff_enabled : Bool
  pub clock : ℕ → ℕ
  -- Whether the timer of a network tool had fired when it threw.
  pub aborted : Bool

module _ (o : Outside) where
  pub record Office : Type 0 where
    pub tasks : TaskService.World o.tasks o.js.decimal
    pub messages : MessageService.World o.messages o.api
    pub approvals : ApprovalService.World o.approvals
    pub roster : Roster
    pub channels : Attempt (List Channel)
    pub tasks_of : String → Attempt (List Task)
    pub notices : List String
    pub budget : Money.Budget
    pub chains : Chains
    pub loop : LoopState
    pub now : ℕ
    pub uuid : String

  abbrev of_task : Result → Attempt Task
  of_task (returned x) = returns x
  of_task r = throws (o.explain_task r)

  abbrev of_post : Posted → Attempt Message
  of_post (posted m) = returns m
  of_post p = throws (o.explain_post p)

  abbrev of_db {ℓ} : {A : Type ℓ} → Outcome A → Attempt A
  of_db (done a) = returns a
  of_db (threw e) = throws (o.explain_db e)

  abbrev summary_at : ℕ → Attempt (List Task) → Attempt TeammateTaskSummary
  summary_at now (throws m) = throws m
  summary_at now (returns xs) = returns (TaskService.summarize now xs)

  abbrev safely : String → Attempt String → Attempt String
  safely tool r = with_safe_execution o.js.decimal tool default_tool_timeout_ms o.aborted r

  -- A search that returns is charged to the budget; that it trips the breaker is not an error here.
  abbrev charged : String → Attempt (List SearchResult) → Office → Attempt String × Office
  charged query (throws m) w = (safely "web_search" (throws m), w)
  charged query (returns rows) w = (
    safely "web_search" (
        returns
          (format_results o.js.decimal o.fetch_search (λ q. o.js.stringify (text q)) query rows)),
    record w { budget = (Money.track_other o.budget_env o.web_search_cost w.now w.budget).1 },
  )

  abbrev as_number : Option ℕ → Option JsNumber
  as_number none = none
  as_number (some n) = some (natural n)

  abbrev pub team : Services
  team = record {
    World = Office;
    create_task = λ input w.
        let (r, t) = TaskService.create o.tasks o.js.decimal input w.tasks in
        (of_task r, record w { tasks = t });
    update_status = λ task_id status w.
        let (r, t) = TaskService.update_status o.tasks o.js.decimal task_id status w.tasks in
        (of_task r, record w { tasks = t });
    assign = λ task_id assignee w.
        let (r, t) = TaskService.assign o.tasks o.js.decimal task_id assignee w.tasks in
        (of_task r, record w { tasks = t });
    post = λ input w.
        let (r, m) = MessageService.create o.messages o.api input o.clock w.uuid w.messages in
        (of_post r, record w { messages = m });
    request = λ input w.
        let (r, a) = ApprovalService.create o.approvals input w.approvals in
        (of_db r, record w { approvals = a });
    find_teammate = λ id name w. resolve_teammate o.js.trim w.roster id name;
    summarize = λ id w. summary_at w.now (w.tasks_of id);
    find_target = λ caller id name w. resolve_handoff_target o.js.trim w.roster caller id name;
    search = λ query max w.
        charged query (web_search o.js.decimal o.fetch_search o.search_env query (as_number max)) w;
    read_docs = λ owner repo path ref w. (
      safely "read_project_docs" (
          read_project_docs o.enc o.fetch_docs
            (record { owner = owner; repo = repo; path = path; ref = ref })),
      w,
    );
    peek = λ from to ctx w. peek_wake o.wake_env w.chains (some from) to ctx;
    track_usage = λ usage w.
        let (over, b) = Money.track o.budget_env usage w.now w.budget in
        (over, record w { budget = b });
    notify_budget_exceeded = λ w. record w { notices = w.notices ++ "budget_exceeded" ∷ [] };
    list_channels = λ w. w.channels;
    emit_wakeup = λ to ctx w.
        let (chains, loop) = on_wakeup o.wake_env to ctx w.now (w.chains, w.loop) in
        record w { chains = chains; loop = loop };
    handoff_enabled = o.handoff_enabled;
    units = o.api.units;
    zod_message = o.zod_message;
    mock_search = mock_web_search o.js.decimal (λ q. o.js.stringify (text q));
    mock_docs = mock_read_project_docs o.js.lower;
    js = o.js;
  }
