-- ===== src/Tools/Dispatch.antt =====
-- `dispatchTool`: from a tool call to its result. The services that the tools call are an interface;
-- each returns its new state also when it throws.
use one_crew.Common.{
  ℕ, String, Bool, false, not, Option, none, some, List, [], ◌∷◌, str_eq, if◌then◌else◌, map,
}
use one_crew.Common.Texts.{◌&◌, join_with, Attempt, returns, throws}
use one_crew.Common.TextSet.{has}
use one_crew.Common.Json.{Json, text, object, Fields, end}
use one_crew.WakeChain.{
  WakeContext, WakeDenyReason, hop_budget, pair_repeat, chain_activation, WakeVerdict, ok, denied,
  derive_child_context,
}
use one_crew.Tasks.{
  TaskStatus, backlog, in_progress, in_review, finished, Task, CreateTaskInput, TeammateTaskSummary,
}
use one_crew.Tasks.Team.{Teammate, Resolution, target, not_found, not_shared_channel}
use one_crew.Budget.{UsageSample}
use one_crew.Messages.{Message, CreateMessageInput}
use one_crew.Approvals.{Approval, CreateApprovalInput}
use one_crew.Bridge.{ToolResult}
use one_crew.Tools.{
  ToolName, as_tool_name, ToolInput, for_create_task, for_update_status, for_request_approval,
  for_send_message, for_mock_search, for_mock_docs, for_web_search, for_read_docs, for_check_tasks,
  for_assign_task, DispatchContext, ToolCall, result_ok, result_error,
}
use one_crew.Tools.Schemas.{validate}
use one_crew.Tools.Analysis.{Js, put, analysis_json, normalize_approval_analysis}

-- The columns of a channel that are used.
pub record Channel : Type 0 where
  pub id : String
  pub name : String

-- The services, the tools of the network behind `withSafeExecution`, and the wake-chain guard.
pub record Services : Type 1 where
  pub World : Type 0
  pub create_task : CreateTaskInput → World → Attempt Task × World
  pub update_status : String → String → World → Attempt Task × World
  pub assign : String → String → World → Attempt Task × World
  pub post : CreateMessageInput → World → Attempt Message × World
  pub request : CreateApprovalInput → World → Attempt Approval × World
  pub find_teammate : Option String → Option String → World → Attempt (Option Teammate)
  pub summarize : String → World → Attempt TeammateTaskSummary
  pub find_target : String → Option String → Option String → World → Attempt Resolution
  pub search : String → Option ℕ → World → Attempt String × World
  pub read_docs : String → String → String → Option String → World → Attempt String × World
  pub peek : String → String → WakeContext → World → WakeVerdict
  -- `budget.track`: the result says whether the daily limit is exceeded.
  pub track_usage : UsageSample → World → Bool × World
  pub notify_budget_exceeded : World → World
  pub list_channels : World → Attempt (List Channel)
  pub emit_wakeup : String → WakeContext → World → World
  pub handoff_enabled : Bool
  pub units : String → ℕ
  pub zod_message : ToolName → Json → String
  pub mock_search : String → String
  pub mock_docs : String → String
  pub js : Js

abbrev pub status_name : TaskStatus → String
status_name backlog = "Backlog"
status_name in_progress = "InProgress"
status_name in_review = "InReview"
status_name finished = "Done"

abbrev pub reason_name : WakeDenyReason → String
reason_name hop_budget = "hop_budget"
reason_name pair_repeat = "pair_repeat"
reason_name chain_activation = "chain_activation"

abbrev or_empty : Option String → String
or_empty none = ""
or_empty (some s) = s

-- `name ? … : …`, where an empty text counts as none.
abbrev selector : Option String → Option String → String
selector id none = "id \"" & or_empty id & "\""
selector id (some name) =
    if str_eq name "" then "id \"" & or_empty id & "\"" else "name \"" & name & "\""

-- `allowedTools` is a list, has a member, and lacks the name.
abbrev pub is_barred : Option (List String) → String → Bool
is_barred none name = false
is_barred (some []) name = false
is_barred (some (t ∷ ts)) name = not (has name (t ∷ ts))

abbrev barred_list : Option (List String) → String
barred_list none = ""
barred_list (some ts) = join_with ", " ts

abbrev or_no_fields : Option Fields → Fields
or_no_fields none = end
or_no_fields (some fs) = fs

module _ (s : Services) where
  open s use {World}

  -- What the outer `catch` makes of an error.
  abbrev pub failed_result : String → String → ToolResult
  failed_result id message = result_error id ("Tool execution failed: " & message)

  abbrev pub settle {ℓ} :
      {A : Type ℓ} → String → (A → String) → Attempt A × World → ToolResult × World
  settle id render (returns a, w) = (result_ok id (render a), w)
  settle id render (throws m, w) = (failed_result id m, w)

  -- `withSafeExecution`'s result: an error of the network is shown as it is.
  abbrev pub settle_safe : String → Attempt String × World → ToolResult × World
  settle_safe id (returns c, w) = (result_ok id c, w)
  settle_safe id (throws m, w) = (result_error id m, w)

  abbrev task_line : Task → String
  task_line t = "- " & t.task_id & " [" & status_name t.status & "] " & t.title

  abbrev recent_lines : List Task → String
  recent_lines [] = "\nNo tasks updated in the last 24h."
  recent_lines (t ∷ ts) = "\nUpdated in the last 24h:\n" & join_with "\n" (map task_line (t ∷ ts))

  -- `renderTeammateSummary`
  unfoldable pub render_teammate_summary : String → TeammateTaskSummary → String
  render_teammate_summary name summary =
      let d = s.js.decimal in
      "Teammate "
      & name
      & " — "
      & d summary.total
      & " task(s) total: Backlog "
      & d summary.counts.in_backlog
      & ", InProgress "
      & d summary.counts.in_progress
      & ", InReview "
      & d summary.counts.in_review
      & ", Done "
      & d summary.counts.in_done
      & "."
      & recent_lines summary.recently_updated

  abbrev pub show_summary : String → String → Attempt TeammateTaskSummary → ToolResult
  show_summary id name (throws m) = failed_result id m
  show_summary id name (returns summary) = result_ok id (render_teammate_summary name summary)

  abbrev pub check_found :
      String
      → Option String
      → Option String
      → Attempt (Option Teammate)
      → World
      → ToolResult × World
  check_found id ai_id ai_name (throws m) w = (failed_result id m, w)
  check_found id ai_id ai_name (returns none) w = (
    result_error id ("No teammate AI found for " & selector ai_id ai_name & " in this workspace."),
    w,
  )
  check_found id ai_id ai_name (returns (some mate)) w =
      (show_summary id mate.name (s.summarize mate.id w), w)

  abbrev pub told_woken :
      String → String → Teammate → WakeContext → WakeVerdict → World → ToolResult × World
  told_woken id task_id mate child (denied reason) w = (
    result_ok id (
        "Assigned "
        & task_id
        & " to "
        & mate.name
        & ", but did not wake them: loop guard ("
        & reason_name reason
        & "). Do not retry this hand-off; they will pick it up when next active."),
    w,
  )
  told_woken id task_id mate child ok w = (
    result_ok id (
        "Assigned "
        & task_id
        & " to "
        & mate.name
        & " and woke them (hop "
        & s.js.decimal child.hop
        & ")."),
    s.emit_wakeup mate.id child w,
  )

  -- The wake of the new assignee, within a chain that a person began.
  unfoldable pub wake_assignee :
      Option WakeContext → DispatchContext → String → String → Teammate → World → ToolResult × World
  wake_assignee none ctx id task_id mate w = (
    result_ok id (
        "Assigned " & task_id & " to " & mate.name
        & ". No wake sent: this cycle is not part of a human-initiated chain."),
    w,
  )
  wake_assignee (some parent) ctx id task_id mate w =
      let child = derive_child_context parent ctx.ai_user_id in
      told_woken id task_id mate child (s.peek ctx.ai_user_id mate.id child w) w

  abbrev pub after_assign :
      DispatchContext → String → String → Teammate → Attempt Task × World → ToolResult × World
  after_assign ctx id task_id mate (throws m, w) = (failed_result id m, w)
  after_assign ctx id task_id mate (returns t, w) =
      wake_assignee ctx.wake_context ctx id task_id mate w

  unfoldable pub hand_off_to :
      DispatchContext
      → String
      → String
      → Option String
      → Option String
      → Attempt Resolution
      → World
      → ToolResult × World
  hand_off_to ctx id task_id ai_id ai_name (throws m) w = (failed_result id m, w)
  hand_off_to ctx id task_id ai_id ai_name (returns not_found) w = (
    result_error id ("No teammate AI found for " & selector ai_id ai_name & " in this workspace."),
    w,
  )
  hand_off_to ctx id task_id ai_id ai_name (returns not_shared_channel) w = (
    result_error id
        "That teammate does not share a channel with you, so you cannot hand this task off to them.",
    w,
  )
  hand_off_to ctx id task_id ai_id ai_name (returns (target mate)) w =
      if str_eq mate.id ctx.ai_user_id
      then (result_error id "You cannot hand a task off to yourself.", w)
      else after_assign ctx id task_id mate (s.assign task_id mate.id w)

  -- The cases of the `switch`.
  unfoldable pub run_tool : DispatchContext → String → ToolInput → World → ToolResult × World
  unfolding hand_off_to
  run_tool ctx id (for_create_task title description assignee) w =
      settle id (λ t. "Created task " & t.task_id & ": \"" & t.title & "\" (status: Backlog)")
        (s.create_task
          (record {
            title = title;
            description = description;
            creator_id = ctx.ai_user_id;
            assignee_id = assignee;
          })
          w)
  run_tool ctx id (for_update_status task_id status) w =
      settle id (λ t. "Moved " & t.task_id & " to " & status_name t.status)
        (s.update_status task_id (status_name status) w)
  run_tool ctx id (for_send_message channel content) w =
      settle id (λ m. "Sent message in channel " & channel)
        (s.post
          (record {
            channel_id = channel;
            user_id = ctx.ai_user_id;
            content = content;
            metadata = none;
          })
          w)
  run_tool ctx id (for_request_approval action payload reason analysis) w =
      let shown = normalize_approval_analysis s.js action payload reason analysis in
      settle id (λ a. "Approval requested for \"" & action & "\"; waiting for human review.")
        (s.request
          (record {
            ai_user_id = ctx.ai_user_id;
            action = action;
            payload = object (
                put "approvalAnalysis" (analysis_json shown)
                  (put "reason" (text reason) (or_no_fields payload)));
          })
          w)
  run_tool ctx id (for_mock_search query) w = (result_ok id (s.mock_search query), w)
  run_tool ctx id (for_mock_docs path) w = (result_ok id (s.mock_docs path), w)
  run_tool ctx id (for_web_search query max) w = settle_safe id (s.search query max w)
  run_tool ctx id (for_read_docs owner repo path ref) w =
      settle_safe id (s.read_docs owner repo path ref w)
  run_tool ctx id (for_check_tasks ai_id ai_name) w =
      check_found id ai_id ai_name (s.find_teammate ai_id ai_name w) w
  run_tool ctx id (for_assign_task task_id ai_id ai_name) w =
      if s.handoff_enabled
      then hand_off_to ctx id task_id ai_id ai_name (s.find_target ctx.ai_user_id ai_id ai_name w) w
      else (
        result_error id
            "AI hand-off is disabled. Ask the operator to set AI_HANDOFF_ENABLED=true to use assign_task.",
        w,
      )

  abbrev pub run_valid :
      DispatchContext → ToolCall → ToolName → Option ToolInput → World → ToolResult × World
  run_valid ctx call name none w =
      (result_error call.id ("Invalid arguments: " & s.zod_message name call.input), w)
  run_valid ctx call name (some input) w = run_tool ctx call.id input w

  abbrev pub run_known : DispatchContext → ToolCall → Option ToolName → World → ToolResult × World
  run_known ctx call none w = (result_error call.id ("Unknown tool: " & call.name), w)
  run_known ctx call (some name) w =
      if is_barred ctx.allowed_tools call.name
      then (
        result_error call.id (
            "Tool '"
            & call.name
            & "' is not enabled for this AI. Allowed: "
            & barred_list ctx.allowed_tools
            & "."),
        w,
      )
      else run_valid ctx call name (validate s.units name call.input) w

  unfoldable pub dispatch : DispatchContext → ToolCall → World → ToolResult × World
  unfolding run_tool
  dispatch ctx call w = run_known ctx call (as_tool_name call.name) w
