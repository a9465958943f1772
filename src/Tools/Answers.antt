-- ===== src/Tools/Answers.antt =====
-- Every call is answered, and none takes effect past the guards.
use one_crew.Common.{
  ◌≡◌, refl, ◌⊎◌, inl, inr, String, Bool, true, false, Option, none, some, Option-cases, Bool-cases,
  str_eq, if◌then◌else◌,
}
use one_crew.Common.Texts.{Attempt, returns, throws}
use one_crew.Bridge.{ToolResult}
use one_crew.WakeChain.{WakeContext, WakeVerdict, ok, denied, derive_child_context}
use one_crew.Tasks.{Task, TeammateTaskSummary}
use one_crew.Tasks.Team.{Teammate, Resolution, target, not_found, not_shared_channel}
use one_crew.Tools.{
  ToolName, as_tool_name, ToolInput, for_create_task, for_update_status, for_request_approval,
  for_send_message, for_mock_search, for_mock_docs, for_web_search, for_read_docs, for_check_tasks,
  for_assign_task, DispatchContext, ToolCall,
}
use one_crew.Tools.Schemas.{validate}
use one_crew.Tools.Dispatch.{
  Services, is_barred, settle, settle_safe, show_summary, check_found, told_woken, wake_assignee,
  after_assign, hand_off_to, run_tool, run_known, run_valid, dispatch,
}

module _ (s : Services) where
  open s use {World}

  abbrev Answers : String → ToolResult × World → Type 0
  Answers id r = r.0.tool_use_id ≡ id

  settle-Answers {ℓ} :
      {A : Type ℓ} (id : String) (render : A → String) (r : Attempt A × World)
      → Answers id (settle s id render r)
  settle-Answers id render (returns a, w) = refl
  settle-Answers id render (throws m, w) = refl

  settle_safe-Answers : (id : String) (r : Attempt String × World) → Answers id (settle_safe s id r)
  settle_safe-Answers id (returns a, w) = refl
  settle_safe-Answers id (throws m, w) = refl

  check_found-Answers :
      (id : String) (a b : Option String) (r : Attempt (Option Teammate)) (w : World)
      → Answers id (check_found s id a b r w)
  check_found-Answers id a b (throws m) w = refl
  check_found-Answers id a b (returns none) w = refl
  check_found-Answers id a b (returns (some mate)) w = shown (s.summarize mate.id w)
    where
      shown : (r : Attempt TeammateTaskSummary) → (show_summary s id mate.name r).tool_use_id ≡ id
      shown (throws m) = refl
      shown (returns x) = refl

  told_woken-Answers :
      (id task : String) (mate : Teammate) (c : WakeContext) (v : WakeVerdict) (w : World)
      → Answers id (told_woken s id task mate c v w)
  told_woken-Answers id task mate c ok w = refl
  told_woken-Answers id task mate c (denied r) w = refl

  wake_assignee-Answers :
      (parent : Option WakeContext) (ctx : DispatchContext) (id task : String) (mate : Teammate)
      (w : World)
      → Answers id (wake_assignee s parent ctx id task mate w)
  unfolding wake_assignee
  wake_assignee-Answers none ctx id task mate w = refl
  wake_assignee-Answers (some parent) ctx id task mate w =
      let child = derive_child_context parent ctx.ai_user_id in
      told_woken-Answers id task mate child (s.peek ctx.ai_user_id mate.id child w) w

  after_assign-Answers :
      (ctx : DispatchContext) (id task : String) (mate : Teammate) (r : Attempt Task × World)
      → Answers id (after_assign s ctx id task mate r)
  after_assign-Answers ctx id task mate (throws m, w) = refl
  after_assign-Answers ctx id task mate (returns t, w) =
      wake_assignee-Answers ctx.wake_context ctx id task mate w

  if-Answers :
      (b : Bool) (id : String) (r q : ToolResult × World)
      → Answers id r
      → Answers id q
      → Answers id (if b then r else q)
  if-Answers true id r q h k = h
  if-Answers false id r q h k = k

  hand_off_to-Answers :
      (ctx : DispatchContext) (id task : String) (a b : Option String) (r : Attempt Resolution)
      (w : World)
      → Answers id (hand_off_to s ctx id task a b r w)
  unfolding hand_off_to
  hand_off_to-Answers ctx id task a b (throws m) w = refl
  hand_off_to-Answers ctx id task a b (returns not_found) w = refl
  hand_off_to-Answers ctx id task a b (returns not_shared_channel) w = refl
  hand_off_to-Answers ctx id task a b (returns (target mate)) w =
      if-Answers (str_eq mate.id ctx.ai_user_id) id _ _ refl
        (after_assign-Answers ctx id task mate (s.assign task mate.id w))

  run_tool-Answers :
      (ctx : DispatchContext) (id : String) (input : ToolInput) (w : World)
      → Answers id (run_tool s ctx id input w)
  unfolding run_tool
  run_tool-Answers ctx id (for_create_task t d a) w = settle-Answers id _ _
  run_tool-Answers ctx id (for_update_status t st) w = settle-Answers id _ _
  run_tool-Answers ctx id (for_send_message ch c) w = settle-Answers id _ _
  run_tool-Answers ctx id (for_request_approval a p r an) w = settle-Answers id _ _
  run_tool-Answers ctx id (for_mock_search q) w = refl
  run_tool-Answers ctx id (for_mock_docs p) w = refl
  run_tool-Answers ctx id (for_web_search q m) w = settle_safe-Answers id _
  run_tool-Answers ctx id (for_read_docs o r p ref) w = settle_safe-Answers id _
  run_tool-Answers ctx id (for_check_tasks a b) w = check_found-Answers id a b _ w
  run_tool-Answers ctx id (for_assign_task t a b) w =
      if-Answers s.handoff_enabled id _ _ (hand_off_to-Answers ctx id t a b _ w) refl

  -- Whatever the model calls and whatever the services do, errors included, a call is answered by one
  -- result under the call's own id.
  pub dispatch_answers :
      (ctx : DispatchContext) (call : ToolCall) (w : World)
      → (dispatch s ctx call w).0.tool_use_id ≡ call.id
  unfolding dispatch
  dispatch_answers ctx call w = known (as_tool_name call.name)
    where
      valid :
          (name : ToolName) (i : Option ToolInput) → Answers call.id (run_valid s ctx call name i w)
      valid name none = refl
      valid name (some i) = run_tool-Answers ctx call.id i w

      known : (n : Option ToolName) → Answers call.id (run_known s ctx call n w)
      known none = refl
      known (some name) =
          if-Answers (is_barred ctx.allowed_tools call.name) call.id _ _ refl
            (valid name (validate s.units name call.input))

  -- A call has an effect only if its tool is known, is allowed to the AI, and accepts the arguments.
  pub dispatch_guards :
      (ctx : DispatchContext) (call : ToolCall) (w : World)
      → (((dispatch s ctx call w).1 ≡ w) × ((dispatch s ctx call w).0.is_error ≡ some true))
        ⊎ ((name : ToolName) × (input : ToolInput) × (as_tool_name call.name ≡ some name)
            × (is_barred ctx.allowed_tools call.name ≡ false)
            × (validate s.units name call.input ≡ some input)
            × (dispatch s ctx call w ≡ run_tool s ctx call.id input w))
  unfolding dispatch
  dispatch_guards ctx call w = elim (Option-cases (as_tool_name call.name)) [
    | inl e ↦ rw (e, dispatch) (inl (refl, refl))
    | inr (name, e) ↦ elim (Bool-cases (is_barred ctx.allowed_tools call.name)) [
      | inl barred ↦ rw (e, barred, dispatch) (inl (refl, refl))
      | inr free ↦ elim (Option-cases (validate s.units name call.input)) [
        | inl bad ↦ rw (e, free, bad, dispatch) (inl (refl, refl))
        | inr (input, good) ↦
            rw (e, free, good, dispatch) (inr (name, input, refl, refl, good, refl))
      ]
    ]
  ]
