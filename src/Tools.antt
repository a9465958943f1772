-- ===== src/Tools.antt =====
-- lib/ai/tools/index.ts: the tools that an AI may call. Zod's checks are functions on JSON values; its
-- error messages and the functions of JavaScript on texts are parameters.
pub mod Definitions
pub mod Schemas
pub mod Analysis
pub mod Dispatch
pub mod Answers
pub mod Handoff
pub mod Presence
mod Tests
use one_crew.Common.{
  ℕ, String, Bool, true, false, Option, none, some, List, [], ◌∷◌, str_eq, if◌then◌else◌,
}
use one_crew.Common.Json.{Json, Fields}
use one_crew.Tasks.{TaskStatus}
use one_crew.WakeChain.{WakeContext}
use one_crew.Bridge.{ToolResult}

-- `ToolName`
pub data ToolName : Type 0 where
  create_task update_task_status request_approval send_channel_message : ToolName
  mock_web_search mock_read_project_docs web_search read_project_docs : ToolName
  check_teammate_tasks assign_task : ToolName

-- The key of `TOOL_ZOD_SCHEMAS` that a name is, if it is one.
unfoldable pub as_tool_name : String → Option ToolName
as_tool_name name =
    if str_eq name "create_task"
    then some create_task
    else if str_eq name "update_task_status"
    then some update_task_status
    else if str_eq name "request_approval"
    then some request_approval
    else if str_eq name "send_channel_message"
    then some send_channel_message
    else if str_eq name "mock_web_search"
    then some mock_web_search
    else if str_eq name "mock_read_project_docs"
    then some mock_read_project_docs
    else if str_eq name "web_search"
    then some web_search
    else if str_eq name "read_project_docs"
    then some read_project_docs
    else if str_eq name "check_teammate_tasks"
    then some check_teammate_tasks
    else if str_eq name "assign_task"
    then some assign_task
    else none

pub data RiskLevel : Type 0 where
  low medium high : RiskLevel

-- `ApprovalAnalysisInput`
pub record AnalysisInput : Type 0 where
  pub background : Option String
  pub impact_scope : Option String
  pub risk_level : Option RiskLevel
  pub alternatives : Option String

-- What validation gives, for each tool.
pub data ToolInput : Type 0 where
  for_create_task : (title : String) (description assignee_id : Option String) → ToolInput
  for_update_status : (task_id : String) (status : TaskStatus) → ToolInput
  for_request_approval :
      (action : String) (payload : Option Fields) (reason : String)
      (analysis : Option AnalysisInput)
      → ToolInput
  for_send_message : (channel_id content : String) → ToolInput
  for_mock_search : (query : String) → ToolInput
  for_mock_docs : (path : String) → ToolInput
  for_web_search : (query : String) (max_results : Option ℕ) → ToolInput
  for_read_docs : (owner repo path : String) (ref : Option String) → ToolInput
  for_check_tasks : (ai_user_id ai_name : Option String) → ToolInput
  for_assign_task : (task_id : String) (assignee_id assignee_name : Option String) → ToolInput

-- `ToolDispatchContext`
pub record DispatchContext : Type 0 where
  pub ai_user_id : String
  pub allowed_tools : Option (List String)
  pub wake_context : Option WakeContext

-- `ToolCall`
pub record ToolCall : Type 0 where
  pub id : String
  pub name : String
  pub input : Json

-- `buildToolResult`
abbrev pub result_ok : String → String → ToolResult
result_ok id content = record { tool_use_id = id; content = content; is_error = none }

abbrev pub result_error : String → String → ToolResult
result_error id content = record { tool_use_id = id; content = content; is_error = some true }
