-- ===== src/Reports/Guards.antt =====
-- The guards of a report on demand.
use one_crew.Common.{Bool-cases, ℕ, ◌≡◌, refl, ap, ◌⊎◌, inl, inr, String, true, Option, none, some}
use one_crew.Common.Texts.{◌&◌, Attempt, returns, throws}
use one_crew.Api.{require_session, enforce_rate_limit}
use one_crew.Bridge.{JsonCodec}
use one_crew.Office.{Outside}
use one_crew.RateLimit.{Limiter, approval_limit}
use one_crew.Reports.{Ai, ReportEnv, run_report_for_ai}
use one_crew.Reports.Trigger.{
  Body, malformed, mistyped, ai_user_id, Response, report, World, FindAi, limited, is_id, with_body,
  signed_in, post_trigger,
}
use one_crew.Workspace.{resolve_workspace_id}

module _ (json : JsonCodec) (o : Outside) (env : ReportEnv json o) where
  -- A request asks for this report: it has a user, an id that the validation takes, a token of the
  -- limiter, and an AI of the workspace.
  abbrev pub AsksFor : FindAi json o env → Option String → Body → ℕ → World json o env → Ai → Type 0
  AsksFor find session body now w ai =
      (user : String) × (id : String) × (require_session session ≡ some user)
      × (body ≡ ai_user_id id)
      × (is_id json o env id ≡ true)
      × ((enforce_rate_limit w.limiter ("daily-report:" & id) user approval_limit now).0 ≡ none)
      × (find id (resolve_workspace_id w.workspace) w.state.world ≡ returns (some ai))

  abbrev pub Guarded :
      FindAi json o env
      → Option String
      → Body
      → ℕ
      → World json o env
      → Response × World json o env
      → Type 0
  Guarded find session body now w r =
      (r.1.state ≡ w.state)
      ⊎ ((ai : Ai) × AsksFor find session body now w ai
          × (r.0 ≡ report (run_report_for_ai json o env ai w.state).0.status)
          × (r.1.state ≡ (run_report_for_ai json o env ai w.state).1))

  limited-Guarded :
      (find : FindAi json o env) (session : Option String) (user id : String) (now : ℕ)
      (w : World json o env) (limit : Option ℕ × Limiter) (found : Attempt (Option Ai))
      → require_session session ≡ some user
      → is_id json o env id ≡ true
      → enforce_rate_limit w.limiter ("daily-report:" & id) user approval_limit now ≡ limit
      → find id (resolve_workspace_id w.workspace) w.state.world ≡ found
      → Guarded find session (ai_user_id id) now w (limited json o env find id limit w)
  limited-Guarded find session user id now w (some after, l) found su ok e f = inl refl
  limited-Guarded find session user id now w (none, l) (throws m) su ok e f = inl (rw f refl)
  limited-Guarded find session user id now w (none, l) (returns none) su ok e f = inl (rw f refl)
  limited-Guarded find session user id now w (none, l) (returns (some ai)) su ok e f =
      inr (ai, (user, id, su, refl, ok, ap (λ p. p.0) e, f), rw f refl, rw f refl)

  body-Guarded :
      (find : FindAi json o env) (session : Option String) (user : String) (body : Body) (now : ℕ)
      (w : World json o env)
      → require_session session ≡ some user
      → Guarded find session body now w (with_body json o env find user body now w)
  body-Guarded find session user malformed now w su = inl refl
  body-Guarded find session user mistyped now w su = inl refl
  body-Guarded find session user (ai_user_id id) now w su =
      elim (Bool-cases (is_id json o env id)) [
        | inr bad ↦ inl (rw bad refl)
        | inl ok ↦ rw ok (
            limited-Guarded find session user id now w
              (enforce_rate_limit w.limiter ("daily-report:" & id) user approval_limit now)
              (find id (resolve_workspace_id w.workspace) w.state.world) su ok refl refl)
      ]

  session-Guarded :
      (find : FindAi json o env) (session user : Option String) (body : Body) (now : ℕ)
      (w : World json o env)
      → require_session session ≡ user
      → Guarded find session body now w (signed_in json o env find user body now w)
  session-Guarded find session none body now w e = inl refl
  session-Guarded find session (some user) body now w e =
      body-Guarded find session user body now w e

  -- A request for a report either leaves the conversation, the office and the indicator as they are,
  -- or it has a signed-in user, an id of 1 to 100 units, a token of the bucket and an AI of the
  -- workspace under that id; then it runs the report of this AI once, behind the gate of the budget,
  -- and answers with its status.
  pub trigger-Guarded :
      (find : FindAi json o env) (session : Option String) (body : Body) (now : ℕ)
      (w : World json o env)
      → Guarded find session body now w (post_trigger json o env find session body now w)
  unfolding post_trigger
  trigger-Guarded find session body now w =
      session-Guarded find session (require_session session) body now w refl
