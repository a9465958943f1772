-- ===== src/Reports.antt =====
-- lib/reports/daily.ts with lib/reports/prompts.ts: the daily report of the AIs, each a cycle of the
-- runtime behind the gate of the budget, over the office's services.
pub mod Batch
pub mod Trigger
pub mod Guards
mod Tests
use one_crew.Common.{ℕ, String, Bool, true, false, Option, some, none, List, [], ◌∷◌, if◌then◌else◌}
use one_crew.Common.Texts.{join_with, Attempt, returns, throws}
use one_crew.Bridge.{JsonCodec}
use one_crew.Budget.{should_pause_cycle}
use one_crew.Office.{Outside, Office, team}
use one_crew.Runtime.{RunCycleResult, AiRow, Options, CycleState, CycleEnv, run_cycle}
use one_crew.Runtime.Digest.{RecentMessage, OpenTask, ChannelRow, Card, build_initial_context}

-- The status of a `DailyReportResult`.
pub data ReportStatus : Type 0 where
  completed skipped_budget failed : ReportStatus

pub record DailyReportResult : Type 0 where
  pub ai_user_id : String
  pub ai_name : String
  pub status : ReportStatus

-- The columns of an AI's row that the batch selects.
pub record Ai : Type 0 where
  pub id : String
  pub name : String

unfoldable pub daily_report_instruction : String
daily_report_instruction = join_with "\n" (
    "现在是每日工作汇报时间。请基于以上频道动态和进行中的任务，撰写一份简洁的当日工作日报，包含三部分：" ∷ "1. 今天完成了什么（具体到任务/讨论）；"
    ∷ "2. 当前被什么阻塞、需要人工决策什么；" ∷ "3. 明天计划推进什么。" ∷ "" ∷ "保持简短（不超过 200 字），用要点而非长段落。"
    ∷ "写好后，调用 send_channel_message 把日报发到 #general 频道（使用上面列出的频道 id）。" ∷ "日报发送完成后即可结束，无需额外操作。" ∷ [])

abbrev pub report_options : Options
report_options = record { extra_instruction = some daily_report_instruction; wake_context = none }

-- The default of `shouldPauseCycle`'s `safetyPercent`, in hundredths.
abbrev pub safety_percent : ℕ
safety_percent = 95

-- What the queries of `buildInitialContext` deliver.
pub record Situation : Type 0 where
  pub messages : List RecentMessage
  pub tasks : List OpenTask
  pub channels : List ChannelRow
  pub cards : List Card

module _ (json : JsonCodec) (o : Outside) where
  abbrev pub State : Type 0
  State = CycleState json (team o)

  -- What the cycle of an AI is given and reads from the database, by the AI's id; and the time that
  -- the gate in front of it reads.
  pub record ReportEnv : Type 0 where
    pub cycle_env : String → CycleEnv json (team o)
    pub prompts : String → String
    pub row_of : String → Office o → Attempt AiRow
    pub situation_of : String → Office o → Attempt Situation
    pub clock : String → ℕ

  -- `budget.shouldPauseCycle()`
  unfoldable pub pause : ℕ → State → Bool × State
  pause now st =
      let (paused, b) = should_pause_cycle o.budget_env safety_percent now st.world.budget in
      (paused, record st { world = record st.world { budget = b } })

  abbrev pub result_of : Ai → ReportStatus → DailyReportResult
  result_of ai status = record { ai_user_id = ai.id; ai_name = ai.name; status = status }

  -- A cycle that returns, whatever its reason to finish, is a report; one that throws is not.
  abbrev pub status_of : Attempt RunCycleResult → ReportStatus
  status_of (returns r) = completed
  status_of (throws m) = failed

  abbrev pub initial_context : Options → Attempt Situation → Attempt (String × Bool)
  initial_context options (throws m) = throws m
  initial_context options (returns x) = returns (
      build_initial_context (team o).units o.js.trim o.js.decimal x.messages x.tasks x.channels
        x.cards options.extra_instruction)

  abbrev pub report_cycle : ReportEnv → String → State → Attempt RunCycleResult × State
  report_cycle env id st =
      run_cycle json (team o) (env.cycle_env id) env.prompts id report_options
        (env.row_of id st.world) (initial_context report_options (env.situation_of id st.world)) st

  abbrev pub cycle_reported : Ai → Attempt RunCycleResult × State → DailyReportResult × State
  cycle_reported ai (a, st) = (result_of ai (status_of a), st)

  abbrev pub behind_gate : ReportEnv → Ai → Bool × State → DailyReportResult × State
  behind_gate env ai (true, st) = (result_of ai skipped_budget, st)
  behind_gate env ai (false, st) = cycle_reported ai (report_cycle env ai.id st)

  -- `runReportForAI`
  unfoldable pub run_report_for_ai : ReportEnv → Ai → State → DailyReportResult × State
  unfolding run_cycle pause
  run_report_for_ai env ai st = behind_gate env ai (pause (env.clock ai.id) st)

  -- The loop of `runDailyReportOnce`, over the rows of its query.
  unfoldable pub report_all : ReportEnv → List Ai → State → List DailyReportResult × State
  report_all env [] st = ([], st)
  report_all env (ai ∷ ais) st =
      let (r, st') = run_report_for_ai env ai st in
      let (rs, st'') = report_all env ais st' in (r ∷ rs, st'')

  -- `runDailyReportOnce`: its query throws, or delivers the active AIs of the workspace.
  unfoldable pub run_daily_report_once :
      ReportEnv → Attempt (List Ai) → State → Attempt (List DailyReportResult) × State
  unfolding report_all
  run_daily_report_once env (throws m) st = (throws m, st)
  run_daily_report_once env (returns ais) st =
      let (rs, st') = report_all env ais st in (returns rs, st')

-- A `DailyReportScheduler`: the stub, or a job of cron at a schedule in a time zone.
pub data Scheduler : Type 0 where
  no_op : Scheduler
  scheduled : (schedule timezone : String) → Scheduler

-- `startDailyReportScheduler`, given `DAILY_REPORTS_ENABLED`, `DAILY_REPORT_CRON` and `WORKSPACE_TZ`;
-- `cron.validate` is an argument.
unfoldable pub start_daily_report_scheduler : (String → Bool) → Bool → String → String → Scheduler
start_daily_report_scheduler validate enabled schedule timezone =
    if enabled then if validate schedule then scheduled schedule timezone else no_op else no_op
