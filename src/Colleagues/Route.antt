-- ===== src/Colleagues/Route.antt =====
-- The handlers of app/api/ai-colleagues/route.ts and app/api/ai-colleagues/[id]/route.ts. The session and
-- the validated body are arguments, and Prisma is the record `UserTable`. A query outside a `try` that
-- throws ends the request in the framework's error answer, `crashed`.
use one_crew.Common.{ℕ, String, false, Option, none, some, List}
use one_crew.Common.Json.{Json}
use one_crew.Api.{require_session, enforce_rate_limit}
use one_crew.RateLimit.{Limiter, write_limit}
use one_crew.Workspace.{resolve_workspace_id}
use one_crew.Colleagues.{
  Colleague, CreateBody, PatchBody, Change, merge_ai_settings, build_ai_settings,
}

pub data TableError : Type 0 where
  unique_violation other : TableError

pub data Stored {ℓ} (A : Type ℓ) : Type ℓ where
  done : A → Stored A
  threw : TableError → Stored A

pub record UserTable : Type 1 where
  pub Db : Type 0
  -- The AI of an id and a workspace.
  pub find_ai : String → String → Db → Stored (Option Colleague)
  pub list_ais : String → Db → Stored (List Colleague)
  -- The workspace, the name, the e-mail and the settings of a new row.
  pub create : String → String → String → Json → Db → Stored Colleague × Db
  pub update : String → Change → Db → Stored Colleague × Db

-- What reading and validating a body gives.
pub data Body {ℓ} (A : Type ℓ) : Type ℓ where
  malformed invalid : Body A
  valid : A → Body A

pub data Response : Type 0 where
  unauthorized bad_request no_such_ai email_in_use failure crashed : Response
  too_many : ℕ → Response
  colleague : (status : ℕ) → Colleague → Response
  colleagues : List Colleague → Response

module _ (t : UserTable) where
  open t use {Db, find_ai, list_ais, create, update}

  pub record World : Type 0 where
    pub db : Db
    pub limiter : Limiter
    pub env : Option String

  abbrev pub Handler : Type 0
  Handler = World → Response × World

  -- The session and the rate limit of a write, and the handler's rest.
  abbrev within_limit : Option ℕ × Limiter → Handler → Handler
  within_limit (some after, l) rest w = (too_many after, record w { limiter = l })
  within_limit (none, l) rest w = rest (record w { limiter = l })

  abbrev pub guarded : Option String → ℕ → Handler → Handler
  guarded none now rest w = (unauthorized, w)
  guarded (some user) now rest w =
      within_limit (enforce_rate_limit w.limiter "ai-colleagues.write" user write_limit now) rest w

  abbrev pub updated : Stored Colleague × Db → Handler
  updated (done c, db) w = (colleague 200 c, record w { db = db })
  updated (threw e, db) w = (failure, record w { db = db })

  abbrev pub found : Stored (Option Colleague) → (Colleague → Change) → Handler
  found (threw e) change w = (crashed, w)
  found (done none) change w = (no_such_ai, w)
  found (done (some c)) change w = updated (update c.id (change c) w.db) w

  abbrev pub change_of : PatchBody → Colleague → Change
  change_of patch c = record {
    name = patch.name;
    is_active = patch.is_active;
    settings = merge_ai_settings c.settings patch;
  }

  abbrev pub patch_body : String → Body PatchBody → Handler
  patch_body id malformed w = (bad_request, w)
  patch_body id invalid w = (bad_request, w)
  patch_body id (valid patch) w =
      found (find_ai id (resolve_workspace_id w.env) w.db) (change_of patch) w

  unfoldable pub patch_colleague : Option String → String → Body PatchBody → ℕ → Handler
  unfolding merge_ai_settings
  patch_colleague session id body now = guarded (require_session session) now (patch_body id body)

  abbrev pub deactivation : Colleague → Change
  deactivation c = record { name = none; is_active = some false; settings = none }

  unfoldable pub delete_colleague : Option String → String → ℕ → Handler
  delete_colleague session id now =
      guarded (require_session session) now
        (λ w. found (find_ai id (resolve_workspace_id w.env) w.db) deactivation w)

  abbrev created : Stored Colleague × Db → Handler
  created (done c, db) w = (colleague 201 c, record w { db = db })
  created (threw unique_violation, db) w = (email_in_use, record w { db = db })
  created (threw other, db) w = (failure, record w { db = db })

  abbrev create_body : Body CreateBody → Handler
  create_body malformed w = (bad_request, w)
  create_body invalid w = (bad_request, w)
  create_body (valid b) w =
      created (create (resolve_workspace_id w.env) b.name b.email (build_ai_settings b) w.db) w

  unfoldable pub post_colleague : Option String → Body CreateBody → ℕ → Handler
  unfolding build_ai_settings
  post_colleague session body now = guarded (require_session session) now (create_body body)

  abbrev listed : Stored (List Colleague) → Response
  listed (threw e) = failure
  listed (done cs) = colleagues cs

  abbrev for_session : Option String → Handler
  for_session none w = (unauthorized, w)
  for_session (some user) w = (listed (list_ais (resolve_workspace_id w.env) w.db), w)

  unfoldable pub get_colleagues : Option String → Handler
  get_colleagues session = for_session (require_session session)
