-- ===== src/Approvals/Route.antt =====
-- app/api/approvals/[id]/route.ts (`PATCH`). NextAuth's session and the parsing and validation of the
-- body are arguments.
use one_crew.Common.{
  ℕ, ◌≡◌, refl, ◌≢◌, ◌⊎◌, inl, inr, ◌≤◌, ◌*◌, ap, str_eq_of_ne, String, Option, none, some, arith,
  Option-cases,
}
use one_crew.RateLimit.{RateLimitConfig, denied, Limiter, approval_limit, ceil_div, rate_limit}
use one_crew.Api.{require_session, enforce_rate_limit, at_least_one}
use one_crew.Workspace.{
  approved, rejected, resolve_workspace_id, not_found, other, Outcome, done, threw, Outcome-cases,
}
use one_crew.Approvals.{Approval, ApprovalTable, Decision, World, approve, reject_approval}

enforce_refused :
    (l : Limiter) (scope user : String) (config : RateLimitConfig) (now wait : ℕ)
    → (rate_limit l scope user config now).0 ≡ denied wait
    → (enforce_rate_limit l scope user config now).0 ≡ some (at_least_one (ceil_div wait 1_000))
unfolding enforce_rate_limit
enforce_refused l scope user config now wait e = rw (e, enforce_rate_limit)

require_session_named : (user : String) → user ≢ "" → require_session (some user) ≡ some user
unfolding require_session
require_session_named user h = rw (str_eq_of_ne user "" h)

whole_seconds :
    (wait : ℕ)
    → (1 ≤ at_least_one (ceil_div wait 1_000)) × (wait ≤ at_least_one (ceil_div wait 1_000) * 1_000)
whole_seconds wait = ground arith

-- What reading and validating the body gives.
pub data Body : Type 0 where
  malformed : Body
  invalid : Body
  approve_it reject_it : Body

pub data Response : Type 0 where
  unauthorized : Response
  too_many : ℕ → Response
  bad_request : Response
  no_such_approval : Response
  failure : Response
  updated : Approval → Response

abbrev pub status : Response → ℕ
status unauthorized = 401
status (too_many after) = 429
status bad_request = 400
status no_such_approval = 404
status failure = 500
status (updated a) = 200

-- The `catch` of the handler.
abbrev pub reply : Outcome Approval → Response
reply (done a) = updated a
reply (threw not_found) = no_such_approval
reply (threw other) = failure

module _ (t : ApprovalTable) where
  -- From the body on.
  dispatch : Body → String → String → ℕ → String → World t → Response × World t
  dispatch malformed id user now uuid w = (bad_request, w)
  dispatch invalid id user now uuid w = (bad_request, w)
  dispatch approve_it id user now uuid w =
      let (o, w') = approve t id user now uuid w in (reply o, w')
  dispatch reject_it id user now uuid w =
      let (o, w') = reject_approval t id user now w in (reply o, w')

  -- From the session's user on.
  limited :
      Option ℕ × Limiter
      → Body
      → String
      → String
      → ℕ
      → String
      → World t
      → Response × Limiter × World t
  limited (some after, l) body id user now uuid w = (too_many after, l, w)
  limited (none, l) body id user now uuid w =
      let (r, w') = dispatch body id user now uuid w in (r, l, w')

  unfoldable pub patch :
      Option String → Body → String → ℕ → String → Limiter → World t → Response × Limiter × World t
  unfolding limited dispatch
  patch session body id now uuid l w = elim (require_session session) [
    | none ↦ (unauthorized, l, w)
    | some user ↦
        limited (enforce_rate_limit l "approvals.decide" user approval_limit now) body id user now
          uuid w
  ]

  abbrev UnlessUpdated : Response → World t → World t → Type 0
  UnlessUpdated r w' w = (status r ≡ 200) ⊎ (w' ≡ w)

  dispatch-refused :
      (body : Body) (id user : String) (now : ℕ) (uuid : String) (w : World t)
      → UnlessUpdated (dispatch body id user now uuid w).0 (dispatch body id user now uuid w).1 w
  unfolding dispatch approve reject_approval
  dispatch-refused malformed id user now uuid w = inr refl
  dispatch-refused invalid id user now uuid w = inr refl
  dispatch-refused approve_it id user now uuid w =
      let d : Decision = record { status = approved; decided_by_id = user; decided_at = now } in
      elim (Outcome-cases (t.update_pending id (resolve_workspace_id w.env) d w.db)) [
        | inl (e, failed) ↦ rw (failed, approve) (inr refl)
        | inr (r, fine) ↦ rw (fine, approve) (inl refl)
      ]
  dispatch-refused reject_it id user now uuid w =
      let d : Decision = record { status = rejected; decided_by_id = user; decided_at = now } in
      elim (Outcome-cases (t.update_pending id (resolve_workspace_id w.env) d w.db)) [
        | inl (e, failed) ↦ rw (failed, reject_approval) (inr refl)
        | inr (r, fine) ↦ rw (fine, reject_approval) (inl refl)
      ]

  limited-refused :
      (p : Option ℕ × Limiter) (body : Body) (id user : String) (now : ℕ) (uuid : String)
      (w : World t)
      → UnlessUpdated (limited p body id user now uuid w).0 (limited p body id user now uuid w).2 w
  unfolding limited
  limited-refused (some after, l) body id user now uuid w = inr refl
  limited-refused (none, l) body id user now uuid w = dispatch-refused body id user now uuid w

  -- Whatever goes wrong (no session, too many requests, a bad body, no pending approval, an error of
  -- the database), the table and the events are as they were: only an answer 200 comes with a change.
  pub patch_refused :
      (session : Option String) (body : Body) (id : String) (now : ℕ) (uuid : String) (l : Limiter)
      (w : World t)
      → (status (patch session body id now uuid l w).0 ≡ 200)
        ⊎ ((patch session body id now uuid l w).2 ≡ w)
  unfolding patch
  patch_refused session body id now uuid l w = elim (Option-cases (require_session session)) [
    | inl missing ↦ rw (missing, patch) (inr refl)
    | inr (user, present) ↦
        rw (present, patch)
          (limited-refused (enforce_rate_limit l "approvals.decide" user approval_limit now) body id
            user now uuid w)
  ]

  limited_too_many :
      (p : Option ℕ × Limiter) (after : ℕ) (body : Body) (id user : String) (now : ℕ)
      (uuid : String) (w : World t)
      → p.0 ≡ some after
      → limited p body id user now uuid w ≡ (too_many after, p.1, w)
  unfolding limited
  limited_too_many (some n, l) after body id user now uuid w e = ground arith
  limited_too_many (none, l) after body id user now uuid w e = cc

  -- A caller with a session who is refused by the approvals bucket is told to wait a number of
  -- whole seconds that is at least one and covers the refusal, and nothing is decided, whatever the
  -- body asks for.
  pub patch_throttled :
      (user : String) (body : Body) (id : String) (now wait : ℕ) (uuid : String) (l : Limiter)
      (w : World t)
      → user ≢ ""
      → (rate_limit l "approvals.decide" user approval_limit now).0 ≡ denied wait
      → (after : ℕ) × ((patch (some user) body id now uuid l w).0 ≡ too_many after)
        × (1 ≤ after)
        × (wait ≤ after * 1_000)
        × ((patch (some user) body id now uuid l w).2 ≡ w)
  unfolding patch
  patch_throttled user body id now wait uuid l w named refused =
      let after = at_least_one (ceil_div wait 1_000) in
      let answer =
        limited_too_many (enforce_rate_limit l "approvals.decide" user approval_limit now) after
          body id user now uuid w
          (enforce_refused l "approvals.decide" user approval_limit now wait refused) in
      let whole = ap (λ (x : Response × Limiter × World t). x.0) answer in
      let kept = ap (λ (x : Response × Limiter × World t). x.2) answer in
      rw (require_session_named user named, patch)
        (after, whole, (whole_seconds wait).0, (whole_seconds wait).1, kept)
