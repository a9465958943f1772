-- ===== src/Reports/Batch.antt =====
-- The batch of reports: its results, the indicator of the AIs at work, and the gate of the budget.
use one_crew.Common.{
  Bool-cases, ℕ, ◌<◌, ◌≡◌, refl, sym, ◌∙◌, ap, inl, inr, String, Bool, true, false, List, [], ◌∷◌,
  ◌++◌, map, arith,
}
use one_crew.Common.Texts.{Attempt, returns, throws}
use one_crew.Common.TextSet.{has}
use one_crew.Bridge.{JsonCodec}
use one_crew.Budget.{should_pause_cycle, reaches}
use one_crew.Budget.Breaker.{rollover_before}
use one_crew.Office.{Outside, team}
use one_crew.Runtime.{AiRow, CycleEnv, run_cycle}
use one_crew.Runtime.Cycle.{conclusion_of}
use one_crew.Reports.{
  skipped_budget, DailyReportResult, Ai, State, ReportEnv, pause, safety_percent, result_of,
  initial_context, behind_gate, run_report_for_ai, report_all, report_options,
}

-- The AI that a result is about.
abbrev pub named : DailyReportResult → String × String
named r = (r.ai_user_id, r.ai_name)

abbrev pub ai_key : Ai → String × String
ai_key ai = (ai.id, ai.name)

module _ (json : JsonCodec) (o : Outside) where
  -- A cycle leaves no AI at work that was not at work before it, whoever it is for.
  run_cycle-idle :
      (ce : CycleEnv json (team o)) (prompts : String → String) (id other : String)
      (built : Attempt (String × Bool)) (row : Attempt AiRow) (st : State json o)
      → has other (run_cycle json (team o) ce prompts id report_options row built st).1.thinking
        ≡ true
      → has other st.thinking ≡ true
  unfolding run_cycle
  run_cycle-idle ce prompts id other built (throws m) st h = h
  run_cycle-idle ce prompts id other built (returns x) st h = elim (Bool-cases x.is_ai) [
    | inl colleague ↦
        let (r, same, few, five, events, quiet) =
          conclusion_of json (team o) ce prompts id report_options x built st colleague in
        ground (arith, quiet other, h)
    | inr other_user ↦ ground (arith, other_user, h)
  ]

  module _ (env : ReportEnv json o) where
    behind-idle :
        (ai : Ai) (other : String) (paused : Bool) (st : State json o)
        → has other (behind_gate json o env ai (paused, st)).1.thinking ≡ true
        → has other st.thinking ≡ true
    behind-idle ai other true st h = h
    behind-idle ai other false st h =
        run_cycle-idle (env.cycle_env ai.id) env.prompts ai.id other
          (initial_context json o report_options (env.situation_of ai.id st.world))
          (env.row_of ai.id st.world) st h

    behind-named :
        (ai : Ai) (paused : Bool) (st : State json o)
        → named (behind_gate json o env ai (paused, st)).0 ≡ ai_key ai
    behind-named ai true st = refl
    behind-named ai false st = refl

    report-idle :
        (ai : Ai) (other : String) (st : State json o)
        → has other (run_report_for_ai json o env ai st).1.thinking ≡ true
        → has other st.thinking ≡ true
    unfolding run_report_for_ai pause
    report-idle ai other st h =
        let (paused, gated) = pause json o (env.clock ai.id) st in
        behind-idle ai other paused gated h

    report-named :
        (ai : Ai) (st : State json o) → named (run_report_for_ai json o env ai st).0 ≡ ai_key ai
    unfolding run_report_for_ai pause
    report-named ai st =
        let (paused, gated) = pause json o (env.clock ai.id) st in behind-named ai paused gated

    -- Whatever the models, the tools and the database do, a batch gives one result for each AI of its
    -- list, in its order, and afterwards no AI is at work that was not at work before.
    pub batch_reports :
        (ais : List Ai) (st : State json o)
        → (map named (report_all json o env ais st).0 ≡ map ai_key ais)
          × ((other : String)
              → has other (report_all json o env ais st).1.thinking ≡ true
              → has other st.thinking ≡ true)
    unfolding report_all
    batch_reports [] st = (refl, (λ other h. h))
    batch_reports (ai ∷ ais) st =
        let st' = (run_report_for_ai json o env ai st).1 in
        let (rest, idle) = batch_reports ais st' in
        (rw (report-named ai st, rest) refl, (λ other h. report-idle ai other st (idle other h)))

    abbrev pub skipped : Ai → DailyReportResult
    skipped ai = result_of json o ai skipped_budget

    -- The gates in front of these AIs read the clock before the time `midnight`.
    abbrev pub AllBefore : ℕ → List Ai → Type 0
    AllBefore midnight [] = Unit
    AllBefore midnight (ai ∷ ais) = (env.clock ai.id < midnight) × AllBefore midnight ais

    pause_held :
        (now : ℕ) (st : State json o)
        → reaches st.world.budget.today safety_percent o.budget_env.limit ≡ true
        → now < st.world.budget.reset_at
        → pause json o now st ≡ (true, st)
    unfolding pause should_pause_cycle
    pause_held now st spent soon = rw (rollover_before now st.world.budget soon, spent) refl

    report_held :
        (ai : Ai) (st gated : State json o)
        → pause json o (env.clock ai.id) st ≡ (true, gated)
        → run_report_for_ai json o env ai st ≡ (skipped ai, gated)
    unfolding run_report_for_ai
    report_held ai st gated e = rw e refl

    all_held :
        (ais : List Ai) (st : State json o)
        → reaches st.world.budget.today safety_percent o.budget_env.limit ≡ true
        → AllBefore st.world.budget.reset_at ais
        → report_all json o env ais st ≡ (map skipped ais, st)
    unfolding report_all
    all_held [] st spent before = refl
    all_held (ai ∷ ais) st spent (soon, before) =
        rw
          (
            report_held ai st st (pause_held (env.clock ai.id) st spent soon),
            all_held ais st spent before,
          )
          refl

    report_all-append :
        (xs ys : List Ai) (st : State json o)
        → report_all json o env (xs ++ ys) st ≡ (
          (report_all json o env xs st).0
              ++ (report_all json o env ys (report_all json o env xs st).1).0,
          (report_all json o env ys (report_all json o env xs st).1).1,
        )
    unfolding report_all
    report_all-append [] ys st = refl
    report_all-append (x ∷ xs) ys st =
        rw (report_all-append xs ys (run_report_for_ai json o env x st).1) refl

    held-reaches :
        (now : ℕ) (st gated : State json o)
        → pause json o now st ≡ (true, gated)
        → reaches gated.world.budget.today safety_percent o.budget_env.limit ≡ true
    unfolding pause should_pause_cycle
    held-reaches now st gated e =
        sym (ap (λ p. reaches p.1.world.budget.today safety_percent o.budget_env.limit) e)
        ∙ ap (λ p. p.0) e

    -- Once the budget holds an AI of the batch back, it holds back every AI after it: as long as their
    -- gates are asked before the tally is reset, each of them is skipped with no call of a model, and
    -- the state stays as the gate left it.
    pub skip_is_final :
        (xs ys : List Ai) (ai : Ai) (st gated : State json o)
        → pause json o (env.clock ai.id) (report_all json o env xs st).1 ≡ (true, gated)
        → AllBefore gated.world.budget.reset_at ys
        → report_all json o env (xs ++ ai ∷ ys) st
          ≡ ((report_all json o env xs st).0 ++ map skipped (ai ∷ ys), gated)
    unfolding report_all
    skip_is_final xs ys ai st gated held before =
        let mid = (report_all json o env xs st).1 in
        rw
          (
            report_all-append xs (ai ∷ ys) st,
            report_held ai mid gated held,
            all_held ys gated (held-reaches (env.clock ai.id) mid gated held) before,
          )
          refl
