-- ===== src/Tools/Tests.antt =====
-- Runs of a call of a tool with the services of Office/Memory.
use one_crew.Common.{◌≡◌, refl, ◌⊎◌, true, false, none, some, [], ◌∷◌, All}
use one_crew.Common.Json.{Fields, object, text, field, end}
use one_crew.Tools.{
  ToolName, create_task, as_tool_name, ToolInput, for_create_task, DispatchContext, ToolCall,
}
use one_crew.Tools.Definitions.{tool_definitions}
use one_crew.Tools.Schemas.{validate, validate_fields, lookup}
use one_crew.Tools.Dispatch.{is_barred, run_tool, dispatch}
use one_crew.Tools.Answers.{dispatch_guards}
use one_crew.Tools.Presence.{is_some, required_by, schemas_require}
use one_crew.Office.{team}
use one_crew.Office.Memory.{outside, office}

abbrev titled : Fields
titled = field "title" (text "Ship it") end

abbrev ada : DispatchContext
ada = record { ai_user_id = "ada"; allowed_tools = some ("create_task" ∷ []); wake_context = none }

abbrev call : ToolCall
call = record { id = "c1"; name = "create_task"; input = object titled }

dispatch_guards_example :
    (((dispatch (team outside) ada call office).1 ≡ office)
      × ((dispatch (team outside) ada call office).0.is_error ≡ some true))
    ⊎ ((name : ToolName) × (input : ToolInput) × (as_tool_name call.name ≡ some name)
        × (is_barred ada.allowed_tools call.name ≡ false)
        × (validate outside.api.units name call.input ≡ some input)
        × (dispatch (team outside) ada call office ≡ run_tool (team outside) ada "c1" input office))
dispatch_guards_example = dispatch_guards (team outside) ada call office

abbrev title_only : ToolInput
title_only = for_create_task "Ship it" none none

schemas_require_example :
    All (λ key. is_some (lookup key titled) ≡ true) (required_by "create_task" tool_definitions)
unfolding validate validate_fields lookup
schemas_require_example = schemas_require (λ s. 7) create_task titled title_only refl
