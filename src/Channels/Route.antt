-- ===== src/Channels/Route.antt =====
-- app/api/channels/[channelId]/members/route.ts and app/api/channels/[channelId]/knowledge/route.ts.
-- The session and the parsed body are arguments. A query outside a `try` that throws ends the request
-- in the framework's error answer, `crashed`.
use one_crew.Common.{
  ℕ, String, Bool, true, false, Option, none, some, List, leb, str_eq, if◌then◌else◌,
}
use one_crew.Api.{require_session, enforce_rate_limit}
use one_crew.RateLimit.{Limiter, write_limit}
use one_crew.Workspace.{Outcome, done, threw, resolve_workspace_id}
use one_crew.Channels.{
  ChannelMemberView, ChannelTable, Served, served, invalid, broken, list_members, add_member,
  remove_member, get_knowledge, set_knowledge, knowledge_max_length,
}

-- What reading and validating a body of members or of knowledge gives: the text of its field.
pub data Body : Type 0 where
  malformed : Body
  mistyped : Body
  field : String → Body

pub data Response : Type 0 where
  unauthorized : Response
  too_many : ℕ → Response
  no_channel no_user : Response
  bad_request : Response
  failure crashed : Response
  members : List ChannelMemberView → Response
  content : Option String → Response

module _ (t : ChannelTable) where
  open t use {Db, channel_in_workspace, user_in_workspace}

  pub record World : Type 0 where
    pub db : Db
    pub limiter : Limiter
    pub env : Option String

  abbrev pub Handler : Type 0
  Handler = World → Response × World

  abbrev reply_members : Outcome (List ChannelMemberView) → Response
  reply_members (threw e) = failure
  reply_members (done views) = members views

  abbrev pub reply_content : Outcome (Option String) → Response
  reply_content (threw e) = failure
  reply_content (done text) = content text

  -- The list of members after a change, in the same `try`.
  abbrev pub listed_after : {A : Type 0} → Outcome A × Db → String → World → Response × World
  listed_after (threw e, db) channel w = (failure, record w { db = db })
  listed_after (done a, db) channel w =
      (reply_members (list_members t channel db), record w { db = db })

  -- `assertChannelInWorkspace`, and the handler's rest.
  abbrev pub in_channel : Outcome Bool → Handler → Handler
  in_channel (threw e) rest w = (crashed, w)
  in_channel (done false) rest w = (no_channel, w)
  in_channel (done true) rest w = rest w

  abbrev pub with_channel : String → Handler → Handler
  with_channel channel rest w =
      in_channel (channel_in_workspace channel (resolve_workspace_id w.env) w.db) rest w

  abbrev pub within_limit : Option ℕ × Limiter → Handler → Handler
  within_limit (some after, l) rest w = (too_many after, record w { limiter = l })
  within_limit (none, l) rest w = rest (record w { limiter = l })

  -- The session and, for writes, the rate limit.
  abbrev pub signed_in : Option String → (String → Handler) → Handler
  signed_in none rest w = (unauthorized, w)
  signed_in (some user) rest w = rest user w

  abbrev pub limited : String → ℕ → Handler → String → Handler
  limited scope now rest user w =
      within_limit (enforce_rate_limit w.limiter scope user write_limit now) rest w

  abbrev pub for_user : Outcome Bool → String → String → Handler
  for_user (threw e) channel user w = (crashed, w)
  for_user (done false) channel user w = (no_user, w)
  for_user (done true) channel user w = listed_after (add_member t channel user w.db) channel w

  abbrev pub add_body : Body → String → Handler
  add_body malformed channel w = (bad_request, w)
  add_body mistyped channel w = (bad_request, w)
  -- `z.string().min(1).max(100)` is part of the validation.
  add_body (field user) channel w =
      for_user (user_in_workspace user (resolve_workspace_id w.env) w.db) channel user w

  abbrev pub remove_query : Option String → String → Handler
  remove_query none channel w = (bad_request, w)
  remove_query (some user) channel w =
      if str_eq user ""
      then (bad_request, w)
      else listed_after (remove_member t channel user w.db) channel w

  -- The handlers of the members.
  unfoldable pub get_members : Option String → String → Handler
  get_members session channel =
      signed_in (require_session session)
        λ user. with_channel channel λ w. (reply_members (list_members t channel w.db), w)

  unfoldable pub post_member : Option String → String → Body → ℕ → Handler
  post_member session channel body now =
      signed_in (require_session session)
        (limited "channel-members.write" now (with_channel channel (add_body body channel)))

  unfoldable pub delete_member : Option String → String → Option String → ℕ → Handler
  delete_member session channel user now =
      signed_in (require_session session)
        (limited "channel-members.write" now (with_channel channel (remove_query user channel)))

  -- The handlers of the card; a text that is too long fails the validation first.
  unfoldable pub get_card : Option String → String → Handler
  get_card session channel =
      signed_in (require_session session)
        λ user. with_channel channel λ w. (reply_content (get_knowledge t channel w.db), w)

  abbrev pub saved : String → Served (Unit {0}) × Db → World → Response × World
  saved text (served u, db) w = (content (some text), record w { db = db })
  saved text (invalid, db) w = (bad_request, record w { db = db })
  saved text (broken e, db) w = (failure, record w { db = db })

  abbrev pub put_body : (String → ℕ) → Body → String → Handler
  put_body units malformed channel w = (bad_request, w)
  put_body units mistyped channel w = (bad_request, w)
  put_body units (field text) channel w =
      if leb (units text) knowledge_max_length
      then saved text (set_knowledge t units channel text w.db) w
      else (bad_request, w)

  unfoldable pub put_card : (String → ℕ) → Option String → String → Body → ℕ → Handler
  put_card units session channel body now =
      signed_in (require_session session)
        (limited "channel-knowledge.write" now (with_channel channel (put_body units body channel)))
