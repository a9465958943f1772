-- ===== src/Colleagues/Settings.antt =====
-- What the next cycle of an AI reads of its changed settings.
use one_crew.Common.{
  inl, inr, str-cases, str_eq_of_ne, ◌≡◌, refl, ap, String, Bool, true, false, not, Option, none,
  some, List, [], ◌∷◌, keep, str_eq, if◌then◌else◌, arith,
}
use mathlib.Core.Option.{some-injective}
use one_crew.Common.Json.{Json, null, boolean, number, text, array, object}
use one_crew.Runtime.{
  some_field, non_blank, text_members, none_if_empty, as_tools, get_custom_system_prompt,
  get_allowed_tools,
}
use one_crew.Tools.Schemas.{lookup}
use one_crew.Colleagues.{
  PatchBody, as_record, text_items, or_null, or_empty_array, merged_prompt, merged_texts, merged,
  names_none, merge_ai_settings,
}

-- The prompt and the tools of a cycle after a patch, given those before it.
abbrev pub prompt_after : (String → String) → Option String → Option String → Option String
prompt_after trim none before = before
prompt_after trim (some p) before = if str_eq (trim p) "" then none else some (trim p)

abbrev pub tools_after :
    (String → String) → Option (List String) → Option (List String) → Option (List String)
tools_after trim none before = before
tools_after trim (some ts) before = none_if_empty (keep (λ t. not (str_eq (trim t) "")) ts)

if_not-some {ℓ} : {A : Type ℓ} (b : Bool) (x y : A) → (if b then none else some x) ≡ some y → x ≡ y
if_not-some true x y h = cc
if_not-some false x y h = some-injective x y h

module _ (trim : String → String) where
  non_blank-or_null : (v : Option Json) → non_blank trim (some (or_null v)) ≡ non_blank trim v
  non_blank-or_null none = refl
  non_blank-or_null (some v) = refl

  as_tools-or_empty_array :
      (v : Option Json) → as_tools trim (some (or_empty_array v)) ≡ as_tools trim v
  as_tools-or_empty_array none = refl
  as_tools-or_empty_array (some null) = refl
  as_tools-or_empty_array (some (boolean b)) = refl
  as_tools-or_empty_array (some (number n)) = refl
  as_tools-or_empty_array (some (text s)) = refl
  as_tools-or_empty_array (some (array xs)) = refl
  as_tools-or_empty_array (some (object fs)) = refl

  text_members-text_items :
      (ts : List String)
      → text_members trim (text_items ts) ≡ keep (λ t. not (str_eq (trim t) "")) ts
  text_members-text_items [] = refl
  text_members-text_items (t ∷ ts) = ground (arith, text_members-text_items ts)

  some_field-as_record :
      (key : String) (current : Json) → lookup key (as_record current) ≡ some_field key current
  unfolding lookup
  some_field-as_record key null = refl
  some_field-as_record key (boolean b) = refl
  some_field-as_record key (number n) = refl
  some_field-as_record key (text s) = refl
  some_field-as_record key (array xs) = refl
  some_field-as_record key (object fs) = refl

  prompt_merged :
      (prompt : Option String) (v : Option Json)
      → trim "" ≡ ""
      → non_blank trim (some (merged_prompt prompt v)) ≡ prompt_after trim prompt (non_blank trim v)
  prompt_merged none v blank = non_blank-or_null v
  prompt_merged (some p) v blank = elim (str-cases p "") [
    | inl none_given ↦ rw (none_given, blank) refl
    | inr given ↦ rw (str_eq_of_ne p "" given) refl
  ]

  tools_merged :
      (tools : Option (List String)) (v : Option Json)
      → as_tools trim (some (merged_texts tools v)) ≡ tools_after trim tools (as_tools trim v)
  tools_merged none v = as_tools-or_empty_array v
  tools_merged (some ts) v = ap none_if_empty (text_members-text_items ts)

  -- If a patch changes the settings of an AI, its next cycle takes the prompt and the tools of the
  -- patch, less what is blank, and for what the patch does not name those that it took before; provided that
  -- trimming an empty text gives an empty text.
  pub settings_read_back :
      (current changed : Json) (patch : PatchBody)
      → trim "" ≡ ""
      → merge_ai_settings current patch ≡ some changed
      → (get_custom_system_prompt trim changed
          ≡ prompt_after trim patch.system_prompt (get_custom_system_prompt trim current))
        × (get_allowed_tools trim changed
            ≡ tools_after trim patch.tool_set (get_allowed_tools trim current))
  unfolding merge_ai_settings get_custom_system_prompt get_allowed_tools lookup
  settings_read_back current changed patch blank h =
      let m = merged (as_record current) patch in
      rw
        (
          ← if_not-some (names_none patch.system_prompt patch.tool_set patch.mention_aliases) m
              changed h,
          some_field-as_record "systemPrompt" current,
          some_field-as_record "toolSet" current,
        )
        (
          prompt_merged patch.system_prompt (some_field "systemPrompt" current) blank,
          tools_merged patch.tool_set (some_field "toolSet" current),
        )
