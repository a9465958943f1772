-- ===== src/Tools/Presence.antt =====
-- The schemas ask for what the definitions call required.
use one_crew.Common.{
  ℕ, ◌≡◌, refl, String, Bool, true, false, Option, none, some, List, [], ◌∷◌, All, str_eq,
  if◌then◌else◌, arith,
}
use one_crew.Common.Json.{Json, text, array, object, Items, nil, cons, Fields}
use one_crew.Bridge.{Tool}
use one_crew.Tools.{
  ToolName, create_task, update_task_status, request_approval, send_channel_message,
  mock_web_search, mock_read_project_docs, web_search, read_project_docs, check_teammate_tasks,
  assign_task, ToolInput,
}
use one_crew.Tools.Definitions.{tool_definitions}
use one_crew.Tools.Schemas.{
  required, optional, as_text, as_fields, lookup, validate, validate_fields, ◌>>=◌,
}

abbrev pub name_of : ToolName → String
name_of create_task = "create_task"
name_of update_task_status = "update_task_status"
name_of request_approval = "request_approval"
name_of send_channel_message = "send_channel_message"
name_of mock_web_search = "mock_web_search"
name_of mock_read_project_docs = "mock_read_project_docs"
name_of web_search = "web_search"
name_of read_project_docs = "read_project_docs"
name_of check_teammate_tasks = "check_teammate_tasks"
name_of assign_task = "assign_task"

abbrev texts_in : Items → List String
texts_in nil = []
texts_in (cons (text s) xs) = s ∷ texts_in xs
texts_in (cons v xs) = texts_in xs

abbrev texts_of : Option Json → List String
texts_of (some (array xs)) = texts_in xs
texts_of v = []

-- The `required` keys of a definition.
abbrev required_in : Json → List String
required_in (object fs) = texts_of (lookup "required" fs)
required_in v = []

abbrev pub required_by : String → List Tool → List String
required_by name [] = []
required_by name (t ∷ ts) =
    if str_eq t.name name then required_in t.input_schema else required_by name ts

abbrev pub is_some : Option Json → Bool
is_some none = false
is_some (some v) = true

present_if {ℓ κ} :
    {A : Type ℓ} {B : Type κ} (check : Json → Option A) (o : Option Json) (f : A → Option B) (b : B)
    → (required check o >>= f) ≡ some b
    → is_some o ≡ true
present_if check none f b h = cc
present_if check (some v) f b h = refl

after_bind {ℓ κ} :
    {A : Type ℓ} {B : Type κ} (m : Option A) (f : A → Option B) (b : B)
    → (m >>= f) ≡ some b
    → (a : A) × (f a ≡ some b)
after_bind none f b h = ground arith
after_bind (some a) f b h = (a, h)

-- What a tool accepts has every key that its definition tells the model to give.
pub schemas_require :
    (units : String → ℕ) (name : ToolName) (fs : Fields) (input : ToolInput)
    → validate units name (object fs) ≡ some input
    → All (λ key. is_some (lookup key fs) ≡ true) (required_by (name_of name) tool_definitions)
unfolding validate validate_fields lookup
schemas_require units create_task fs i h = (present_if _ _ _ i h, tt)
schemas_require units update_task_status fs i h = (
  present_if _ _ _ i h,
  (
    present_if _ _ _ i (after_bind (required (as_text units 1 none) (lookup "taskId" fs)) _ i h).1,
    tt,
  ),
)
schemas_require units request_approval fs i h =
    let h' = (after_bind (required (as_text units 1 none) (lookup "action" fs)) _ i h).1 in
    let h'' = (after_bind (optional as_fields (lookup "payload" fs)) _ i h').1 in
    (present_if _ _ _ i h, (present_if _ _ _ i h'', tt))
schemas_require units send_channel_message fs i h = (
  present_if _ _ _ i h,
  (
    present_if _ _ _ i
        (after_bind (required (as_text units 1 none) (lookup "channelId" fs)) _ i h).1,
    tt,
  ),
)
schemas_require units mock_web_search fs i h = (present_if _ _ _ i h, tt)
schemas_require units mock_read_project_docs fs i h = (present_if _ _ _ i h, tt)
schemas_require units web_search fs i h = (present_if _ _ _ i h, tt)
schemas_require units read_project_docs fs i h =
    let h' = (after_bind (required (as_text units 1 (some 100)) (lookup "owner" fs)) _ i h).1 in
    let h'' = (after_bind (required (as_text units 1 (some 100)) (lookup "repo" fs)) _ i h').1 in
    (present_if _ _ _ i h, (present_if _ _ _ i h', (present_if _ _ _ i h'', tt)))
schemas_require units check_teammate_tasks fs i h = tt
schemas_require units assign_task fs i h = (present_if _ _ _ i h, tt)
