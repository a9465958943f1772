-- ===== src/Tools/Schemas.antt =====
-- `TOOL_ZOD_SCHEMAS`: which arguments a tool accepts. A text is measured in UTF-16 units, by a
-- parameter.
use one_crew.Common.{
  ℕ, String, Bool, true, false, ◌&&◌, Option, none, some, str_eq, leb, if◌then◌else◌,
}
use one_crew.Common.Json.{Json, number, text, object, Fields, end, field}
use one_crew.Tasks.{TaskStatus, as_task_status}
use one_crew.Tools.{
  ToolName, create_task, update_task_status, request_approval, send_channel_message,
  mock_web_search, mock_read_project_docs, web_search, read_project_docs, check_teammate_tasks,
  assign_task, RiskLevel, low, medium, high, AnalysisInput, ToolInput, for_create_task,
  for_update_status, for_request_approval, for_send_message, for_mock_search, for_mock_docs,
  for_web_search, for_read_docs, for_check_tasks, for_assign_task,
}

-- The value of a key, if the object has it.
unfoldable pub lookup : String → Fields → Option Json
lookup key end = none
lookup key (field name v fs) = if str_eq name key then some v else lookup key fs

infixl 5 ◌>>=◌ ◌>>◌
abbrev pub ◌>>=◌ {ℓ κ} : {A : Type ℓ} {B : Type κ} → Option A → (A → Option B) → Option B
none >>= f = none
some a >>= f = f a

abbrev pub guard : Bool → Option (Unit {0})
guard true = some tt
guard false = none

abbrev pub ◌>>◌ {κ} : {B : Type κ} → Option (Unit {0}) → Option B → Option B
m >> k = m >>= λ _. k

abbrev pub as_fields : Json → Option Fields
as_fields (object fs) = some fs
as_fields v = none

abbrev as_risk : Json → Option RiskLevel
as_risk (text s) =
    if str_eq s "low"
    then some low
    else if str_eq s "medium"
    then some medium
    else if str_eq s "high"
    then some high
    else none
as_risk v = none

abbrev as_status : Json → Option TaskStatus
as_status (text s) = as_task_status s
as_status v = none

-- `z.number().int().min(1).max(10)`
abbrev as_count : Json → Option ℕ
as_count (number n) = if leb 1 n && leb n 10 then some n else none
as_count v = none

-- `.optional()`: the key may be missing, and if it is there its value must pass.
abbrev pub optional {ℓ} : {A : Type ℓ} → (Json → Option A) → Option Json → Option (Option A)
optional check none = some none
optional check (some v) = check v >>= λ a. some (some a)

abbrev pub required {ℓ} : {A : Type ℓ} → (Json → Option A) → Option Json → Option A
required check none = none
required check (some v) = check v

-- `Boolean(a ?? b)`: a text is true when it is not empty.
abbrev either_given : Option String → Option String → Bool
either_given (some a) b = if str_eq a "" then false else true
either_given none (some b) = if str_eq b "" then false else true
either_given none none = false

module _ (units : String → ℕ) where
  -- `z.string()` with `.min` and `.max`, where 0 units are the least and `none` is no bound.
  abbrev pub within : ℕ → Option ℕ → String → Bool
  within least none s = leb least (units s)
  within least (some most) s = leb least (units s) && leb (units s) most

  abbrev pub as_text : ℕ → Option ℕ → Json → Option String
  as_text least most (text s) = if within least most s then some s else none
  as_text least most v = none

  -- `approvalAnalysisSchema`
  unfoldable pub as_analysis : Json → Option AnalysisInput
  as_analysis v = do
    fs ← as_fields v
    background ← optional (as_text 1 none) (lookup "background" fs)
    impact ← optional (as_text 1 none) (lookup "impactScope" fs)
    risk ← optional as_risk (lookup "riskLevel" fs)
    alternatives ← optional (as_text 1 none) (lookup "alternatives" fs)
    some (record {
      background = background;
      impact_scope = impact;
      risk_level = risk;
      alternatives = alternatives;
    })

  -- The schema of each tool, on the fields of the arguments.
  unfoldable pub validate_fields : ToolName → Fields → Option ToolInput
  unfolding as_analysis
  validate_fields create_task fs = do
    title ← required (as_text 1 (some 200)) (lookup "title" fs)
    description ← optional (as_text 0 none) (lookup "description" fs)
    assignee ← optional (as_text 0 none) (lookup "assigneeId" fs)
    some (for_create_task title description assignee)
  validate_fields update_task_status fs = do
    task_id ← required (as_text 1 none) (lookup "taskId" fs)
    status ← required as_status (lookup "status" fs)
    some (for_update_status task_id status)
  validate_fields request_approval fs = do
    action ← required (as_text 1 none) (lookup "action" fs)
    payload ← optional as_fields (lookup "payload" fs)
    reason ← required (as_text 1 none) (lookup "reason" fs)
    analysis ← optional as_analysis (lookup "analysis" fs)
    some (for_request_approval action payload reason analysis)
  validate_fields send_channel_message fs = do
    channel ← required (as_text 1 none) (lookup "channelId" fs)
    content ← required (as_text 1 (some 8_000)) (lookup "content" fs)
    some (for_send_message channel content)
  validate_fields mock_web_search fs = do
    query ← required (as_text 1 none) (lookup "query" fs)
    some (for_mock_search query)
  validate_fields mock_read_project_docs fs = do
    path ← required (as_text 1 none) (lookup "path" fs)
    some (for_mock_docs path)
  validate_fields web_search fs = do
    query ← required (as_text 1 (some 500)) (lookup "query" fs)
    max ← optional as_count (lookup "maxResults" fs)
    some (for_web_search query max)
  validate_fields read_project_docs fs = do
    owner ← required (as_text 1 (some 100)) (lookup "owner" fs)
    repo ← required (as_text 1 (some 100)) (lookup "repo" fs)
    path ← required (as_text 1 (some 500)) (lookup "path" fs)
    ref ← optional (as_text 1 (some 100)) (lookup "ref" fs)
    some (for_read_docs owner repo path ref)
  validate_fields check_teammate_tasks fs = do
    id ← optional (as_text 1 none) (lookup "aiUserId" fs)
    name ← optional (as_text 1 (some 200)) (lookup "aiName" fs)
    guard (either_given id name)
    some (for_check_tasks id name)
  validate_fields assign_task fs = do
    task_id ← required (as_text 1 (some 100)) (lookup "taskId" fs)
    id ← optional (as_text 1 none) (lookup "assigneeId" fs)
    name ← optional (as_text 1 (some 200)) (lookup "assigneeName" fs)
    guard (either_given id name)
    some (for_assign_task task_id id name)

  -- `schema.safeParse(call.input)`
  unfoldable pub validate : ToolName → Json → Option ToolInput
  validate name (object fs) = validate_fields name fs
  validate name v = none
