-- ===== src/Reports/Tests.antt =====
-- A batch of two AIs, the first of which spends the day's budget, and a report on demand.
use one_crew.Common.{
  ◌≡◌, ◌<◌, ◌++◌, arith, refl, String, true, false, none, some, List, [], ◌∷◌, map,
}
use one_crew.Common.Texts.{returns}
use one_crew.Common.TextSet.{has}
use one_crew.Common.Json.{null}
use one_crew.Bridge.{to_anthropic_message, ChatCompletion}
use one_crew.Bridge.Codec.{codec}
use one_crew.Budget.{should_pause_cycle, rollover_if_needed, track, estimate_cost}
use one_crew.Retry.{call_with_retry}
use one_crew.Office.Memory.{outside, office}
use one_crew.Runtime.{AiRow}
use one_crew.Reports.{
  completed, skipped_budget, DailyReportResult, Ai, State, ReportEnv, pause, run_report_for_ai,
  report_all, start_daily_report_scheduler, no_op, scheduled,
}
use one_crew.Reports.Batch.{named, skipped, batch_reports, skip_is_final}
use one_crew.Reports.Trigger.{ai_user_id, World, FindAi, post_trigger}
use one_crew.Reports.Guards.{Guarded, trigger-Guarded}

-- An answer that costs 960 of the budget of 1,000.
abbrev answer : ChatCompletion
answer = record { id = "r1"; model = "m"; choices = []; usage = some (900, 60) }

abbrev row : AiRow
row = record { name = "Ada"; is_ai = true; role = some "Ada"; settings = null }

abbrev env : ReportEnv codec outside
env = record {
  cycle_env = λ id. record {
    client = λ n k q. returns answer;
    jitter = λ n. 0;
    model = "m";
    notice = "out of budget";
  };
  prompts = λ s. s;
  row_of = λ id w. returns row;
  situation_of = λ id w. returns (record { messages = []; tasks = []; channels = []; cards = [] });
  clock = λ id. 7;
}

abbrev start : State codec outside
start = record {
  messages = [];
  world = office;
  thinking = "grace" ∷ [];
  events = [];
  io_ready = true;
}

abbrev ada : Ai
ada = record { id = "ada"; name = "Ada" }

abbrev hopper : Ai
hopper = record { id = "hopper"; name = "Hopper" }

abbrev statuses : List DailyReportResult → List String
statuses [] = []
statuses (r ∷ rs) = elim r.status [
  | completed ↦ "completed" ∷ statuses rs
  | skipped_budget ↦ "skipped" ∷ statuses rs
  | _ ↦ "failed" ∷ statuses rs
]

first_spends :
    statuses (report_all codec outside env (ada ∷ hopper ∷ []) start).0
    ≡ "completed" ∷ "skipped" ∷ []
unfolding report_all run_report_for_ai should_pause_cycle rollover_if_needed call_with_retry track
    estimate_cost to_anthropic_message
first_spends = refl

not_enabled : start_daily_report_scheduler (λ s. true) false "0 18 * * *" "UTC" ≡ no_op
unfolding start_daily_report_scheduler
not_enabled = refl

enabled :
    start_daily_report_scheduler (λ s. true) true "0 18 * * *" "UTC" ≡ scheduled "0 18 * * *" "UTC"
unfolding start_daily_report_scheduler
enabled = refl

batch_reports_example :
    (map named (report_all codec outside env (ada ∷ hopper ∷ []) start).0
      ≡ ("ada", "Ada") ∷ ("hopper", "Hopper") ∷ [])
    × ((other : String)
        → has other (report_all codec outside env (ada ∷ hopper ∷ []) start).1.thinking ≡ true
        → has other ("grace" ∷ []) ≡ true)
batch_reports_example = batch_reports codec outside env (ada ∷ hopper ∷ []) start

abbrev grace : Ai
grace = record { id = "grace"; name = "Grace" }

-- The state behind the gate, after the report of the first AI.
abbrev spent : State codec outside
spent = (pause codec outside 7 (report_all codec outside env (ada ∷ []) start).1).1

spent_held : pause codec outside 7 (report_all codec outside env (ada ∷ []) start).1 ≡ (true, spent)
unfolding pause should_pause_cycle rollover_if_needed report_all run_report_for_ai call_with_retry
    track estimate_cost to_anthropic_message
spent_held = refl

known_reset : spent.world.budget.reset_at ≡ 86_400_000
unfolding pause should_pause_cycle rollover_if_needed report_all run_report_for_ai call_with_retry
    track estimate_cost to_anthropic_message
known_reset = refl

reset_later : 7 < spent.world.budget.reset_at
reset_later = omega (arith, known_reset)

skip_is_final_example : report_all codec outside env (ada ∷ hopper ∷ grace ∷ []) start ≡ (
  (report_all codec outside env (ada ∷ []) start).0
      ++ skipped codec outside env hopper ∷ skipped codec outside env grace ∷ [],
  spent,
)
skip_is_final_example =
    skip_is_final codec outside env (ada ∷ []) (grace ∷ []) hopper start spent spent_held
      (reset_later, tt)

abbrev find : FindAi codec outside env
find id ws w = returns (some ada)

abbrev desk : World codec outside env
desk = record {
  state = start;
  limiter = record { buckets = []; sweep_in_progress = false };
  workspace = none;
}

trigger-Guarded_example :
    Guarded codec outside env find
      (some "user")
      (ai_user_id "ada")
      7
      desk
      (post_trigger codec outside env find (some "user") (ai_user_id "ada") 7 desk)
trigger-Guarded_example =
    trigger-Guarded codec outside env find (some "user") (ai_user_id "ada") 7 desk
