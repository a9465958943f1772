-- ===== src/Colleagues.antt =====
-- The settings of an AI colleague, as app/api/ai-colleagues/route.ts makes them and
-- app/api/ai-colleagues/[id]/route.ts changes them.
pub mod Route
pub mod Settings
mod Tests
use one_crew.Common.{
  String, Bool, true, false, Option, none, some, List, [], ◌∷◌, str_eq, if◌then◌else◌,
}
use one_crew.Common.Json.{Json, null, text, array, object, Items, nil, cons, Fields, end, field}
use one_crew.Common.Texts.{◌&◌, join_with}
use one_crew.Tools.Schemas.{lookup}

-- The columns of an AI colleague.
pub record Colleague : Type 0 where
  pub id : String
  pub name : String
  pub email : String
  pub settings : Json
  pub is_active : Bool

-- `CreateAIColleagueBody`
pub record CreateBody : Type 0 where
  pub name : String
  pub email : String
  pub system_prompt : Option String
  pub tool_set : Option (List String)
  pub mention_aliases : Option (List String)

-- `PatchAIColleagueBody`
pub record PatchBody : Type 0 where
  pub name : Option String
  pub system_prompt : Option String
  pub tool_set : Option (List String)
  pub mention_aliases : Option (List String)
  pub is_active : Option Bool

-- The data of an update: a column that is not named stays.
pub record Change : Type 0 where
  pub name : Option String
  pub is_active : Option Bool
  pub settings : Option Json

-- `asRecord`
abbrev pub as_record : Json → Fields
as_record (object fs) = fs
as_record v = end

abbrev pub text_items : List String → Items
text_items [] = nil
text_items (t ∷ ts) = cons (text t) (text_items ts)

-- `?? null`
abbrev pub or_null : Option Json → Json
or_null none = null
or_null (some v) = v

-- `Array.isArray(v) ? v : []`
abbrev pub or_empty_array : Option Json → Json
or_empty_array (some (array xs)) = array xs
or_empty_array v = array nil

abbrev pub merged_prompt : Option String → Option Json → Json
merged_prompt none current = or_null current
merged_prompt (some p) current = if str_eq p "" then null else text p

abbrev pub merged_texts : Option (List String) → Option Json → Json
merged_texts none current = or_empty_array current
merged_texts (some ts) current = array (text_items ts)

abbrev pub settings_object : Json → Json → Json → Json → Json
settings_object prompt tools aliases avatar = object (
    field "systemPrompt" prompt
      (field "toolSet" tools (field "mentionAliases" aliases (field "avatarUrl" avatar end))))

abbrev pub merged : Fields → PatchBody → Json
merged current patch =
    settings_object (merged_prompt patch.system_prompt (lookup "systemPrompt" current))
      (merged_texts patch.tool_set (lookup "toolSet" current))
      (merged_texts patch.mention_aliases (lookup "mentionAliases" current))
      (or_null (lookup "avatarUrl" current))

abbrev pub names_none : Option String → Option (List String) → Option (List String) → Bool
names_none none none none = true
names_none _ _ _ = false

unfoldable pub merge_ai_settings : Json → PatchBody → Option Json
merge_ai_settings current patch =
    if names_none patch.system_prompt patch.tool_set patch.mention_aliases
    then none
    else some (merged (as_record current) patch)

abbrev generic_prompt : String → String
generic_prompt name = join_with "\n" (
    ("You are " & name & ", an AI teammate in AI-Native Team Workspace.")
    ∷ "Collaborate with human teammates through channels, tasks, and approvals."
    ∷ "Always write user-facing messages in Simplified Chinese."
    ∷ "For production changes, external communication, destructive actions, or other high-risk work, call request_approval before taking action."
    ∷ [])

abbrev prompt_or_generic : String → Option String → String
prompt_or_generic name none = generic_prompt name
prompt_or_generic name (some p) = if str_eq p "" then generic_prompt name else p

abbrev items_or_none : Option (List String) → Json
items_or_none none = array nil
items_or_none (some ts) = array (text_items ts)

unfoldable pub build_ai_settings : CreateBody → Json
build_ai_settings input =
    settings_object (text (prompt_or_generic input.name input.system_prompt))
      (items_or_none input.tool_set) (items_or_none input.mention_aliases) null
