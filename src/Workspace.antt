-- ===== src/Workspace.antt =====
-- What the services share: lib/workspace.ts, the events that a service sends (lib/realtime/events.ts,
-- lib/notifications/server.ts and lib/loop/emitter.ts), and the outcome of a call that may throw.
use one_crew.Common.{ℕ, ◌≡◌, refl, ◌⊎◌, inl, inr, String, Option, none, some, str_eq, if◌then◌else◌}
use one_crew.Common.Json.{Fields}
use one_crew.WakeChain.{WakeContext}
use Prim.Native.String

-- `resolveWorkspaceId`, given the environment's `WORKSPACE_ID`.
unfoldable pub resolve_workspace_id : Option String → String
resolve_workspace_id none = "ws_default"
resolve_workspace_id (some from_env) = if str_eq from_env "" then "ws_default" else from_env

-- `workspace:${resolveWorkspaceId()}`
abbrev pub workspace_room : Option String → String
workspace_room env = String.◌++◌ "workspace:" (resolve_workspace_id env)

pub data ApprovalStatus : Type 0 where
  pending approved rejected : ApprovalStatus

-- `ApprovalCreatedPayload`, with `createdAt` as the time in milliseconds.
pub record ApprovalCreatedPayload : Type 0 where
  pub id : String
  pub ai_user_id : String
  pub action : String
  pub payload : Option Fields
  pub status : ApprovalStatus
  pub created_at : ℕ

-- What leaves a service: a realtime event to a room, or an event on the agentic emitter.
pub data Effect : Type 0 where
  approval_created : String → ApprovalCreatedPayload → Effect
  approval_pending_notice : String → String → String → Effect
  wakeup : String → WakeContext → Effect
  reject : String → Effect

-- A database call throws Prisma's P2025 (no record found) or another error.
pub data DbError : Type 0 where
  not_found other : DbError

pub data Outcome {ℓ} (A : Type ℓ) : Type ℓ where
  done : A → Outcome A
  threw : DbError → Outcome A

pub Outcome-cases {ℓ} :
    {A : Type ℓ} (o : Outcome A) → ((e : DbError) × (o ≡ threw e)) ⊎ ((a : A) × (o ≡ done a))
Outcome-cases (done a) = inr (a, refl)
Outcome-cases (threw e) = inl (e, refl)
