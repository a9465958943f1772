-- ===== src/Colleagues/Tests.antt =====
-- A patch of the tools of an AI that has a prompt of its own.
use one_crew.Common.{◌≡◌, refl, none, some, [], ◌∷◌}
use one_crew.Common.Json.{Json, text, array, object, nil, cons, end, field}
use one_crew.Runtime.{get_custom_system_prompt, get_allowed_tools}
use one_crew.Tools.Schemas.{lookup}
use one_crew.Colleagues.{PatchBody, settings_object, merge_ai_settings}
use one_crew.Colleagues.Settings.{settings_read_back}

abbrev old : Json
old = object (field "systemPrompt" (text "Be brief.") (field "avatarUrl" (text "a.png") end))

abbrev tools_only : PatchBody
tools_only = record {
  name = none;
  system_prompt = none;
  tool_set = some ("create_task" ∷ []);
  mention_aliases = none;
  is_active = none;
}

abbrev changed_settings : Json
changed_settings =
    settings_object (text "Be brief.") (array (cons (text "create_task") nil)) (array nil)
      (text "a.png")

merged_old : merge_ai_settings old tools_only ≡ some changed_settings
unfolding merge_ai_settings lookup
merged_old = refl

settings_read_back_example :
    (get_custom_system_prompt (λ s. s) changed_settings ≡ get_custom_system_prompt (λ s. s) old)
    × (get_allowed_tools (λ s. s) changed_settings ≡ some ("create_task" ∷ []))
settings_read_back_example =
    settings_read_back (λ s. s) old changed_settings tools_only refl merged_old
